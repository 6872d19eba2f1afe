-- ===== src/Base/Dict.antt =====
-- A Python dict keyed by numbers, in insertion order.
use gateway_nexy.Base.Tests.{◌==◌, if◌then◌else◌, Bool-cases}
use gateway_nexy.Base.Lists.{elem}
use Prim.Native.Nat.{ℕ}
use mathlib.Core.Path.{◌≡◌, refl, sym}
use mathlib.Core.Bool.{true, false}
use mathlib.Core.Logic.{◌≢◌, inl, inr}
use mathlib.Core.Option.{Option, none, some}
use mathlib.Core.List.{List, [], ◌∷◌}
use native.Mathlib.Omega.{arith}

abbrev pub Dict {ℓ} : Type ℓ → Type ℓ
Dict V = List (ℕ × V)

module _ {ℓ} {V : Type ℓ} where
  abbrev pub lookup : ℕ → Dict V → Option V
  lookup k [] = none
  lookup k ((j, v) ∷ d) = if k == j then some v else lookup k d

  -- `d[k] = v` where `k` is a key of `d`; a dict without the key is left alone.
  abbrev pub update : ℕ → V → Dict V → Dict V
  update k v [] = []
  update k v ((j, w) ∷ d) = if k == j then (j, v) ∷ d else (j, w) ∷ update k v d

  abbrev pub keys : Dict V → List ℕ
  keys [] = []
  keys ((j, w) ∷ d) = j ∷ keys d

  pub lookup-update_self :
      (k : ℕ) (v : V) {w : V} (d : Dict V) → lookup k d ≡ some w → lookup k (update k v d) ≡ some v
  lookup-update_self k v [] h = cc
  lookup-update_self k v {w = u} ((j, w) ∷ d) h = ground (arith, lookup-update_self k v {w = u} d)

  pub lookup-update_ne :
      (j k : ℕ) (v : V) (d : Dict V) → j ≢ k → lookup j (update k v d) ≡ lookup j d
  lookup-update_ne j k v [] h = refl
  lookup-update_ne j k v ((i, w) ∷ d) h = ground (arith, lookup-update_ne j k v d h)

  pub keys-update : (k : ℕ) (v : V) (d : Dict V) → keys (update k v d) ≡ keys d
  keys-update k v [] = refl
  keys-update k v ((j, w) ∷ d) = ground (arith, keys-update k v d)

  -- A number is a key where a lookup finds something.
  pub elem-lookup :
      (k : ℕ) (d : Dict V) {o : Option V}
      → lookup k d ≡ o
      → elem k (keys d) ≡ elim o [ none ↦ false | some v ↦ true ]
  elem-lookup k [] {o = none} h = refl
  elem-lookup k [] {o = some v} h = cc
  elem-lookup k ((j, w) ∷ d) {o = o} h = elim (Bool-cases (k == j)) [
    | inl e ↦ rw e (rw (sym (rw e at h)) refl)
    | inr e ↦ rw e (elem-lookup k d (rw e at h))
  ]
