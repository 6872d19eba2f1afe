-- ===== src/Base/IntDict.antt =====
-- A Python dict keyed by integers, in insertion order.
use mathlib.Core.Path.{◌≡◌, refl}
use mathlib.Core.Logic.{◌≢◌}
use mathlib.Core.Bool.{Bool, true, false, not, ◌&&◌, ◌||◌}
use mathlib.Core.Option.{Option, none, some}
use mathlib.Core.List.{List, [], ◌∷◌, ◌++◌}
use native.Mathlib.Omega.{arith}
use gateway_nexy.Base.Tests.{if◌then◌else◌}
use gateway_nexy.Base.Int.{ℤ, eq_ℤ}

abbrev pub IntDict {ℓ} : Type ℓ → Type ℓ
IntDict V = List (ℤ × V)

pub eq_ℤ-eq : (a b : ℤ) → eq_ℤ a b ≡ true → a ≡ b
eq_ℤ-eq a b h = ground arith

pub eq_ℤ_self : (a : ℤ) → eq_ℤ a a ≡ true
eq_ℤ_self a = ground arith

-- `a in bs`
abbrev pub elem : ℤ → List ℤ → Bool
elem a [] = false
elem a (b ∷ bs) = eq_ℤ a b || elem a bs

pub elem-append : (a : ℤ) (bs cs : List ℤ) → elem a (bs ++ cs) ≡ (elem a bs || elem a cs)
elem-append a [] cs = refl
elem-append a (b ∷ bs) cs = ground (arith, elem-append a bs cs)

abbrev pub are_distinct : List ℤ → Bool
are_distinct [] = true
are_distinct (a ∷ bs) = not (elem a bs) && are_distinct bs

module _ {ℓ} {V : Type ℓ} where
  abbrev pub lookup : ℤ → IntDict V → Option V
  lookup k [] = none
  lookup k ((j, v) ∷ d) = if eq_ℤ k j then some v else lookup k d

  -- `d[k] = v` where `k` is a key of `d`; a dict without the key is left alone.
  abbrev pub update : ℤ → V → IntDict V → IntDict V
  update k v [] = []
  update k v ((j, w) ∷ d) = if eq_ℤ k j then (j, v) ∷ d else (j, w) ∷ update k v d

  abbrev pub keys : IntDict V → List ℤ
  keys [] = []
  keys ((j, w) ∷ d) = j ∷ keys d

  pub lookup-update_self :
      (k : ℤ) (v : V) {w : V} (d : IntDict V)
      → lookup k d ≡ some w
      → lookup k (update k v d) ≡ some v
  lookup-update_self k v [] h = cc
  lookup-update_self k v {w = u} ((j, w) ∷ d) h = ground (arith, lookup-update_self k v {w = u} d)

  pub lookup-update_ne :
      (j k : ℤ) (v : V) (d : IntDict V) → j ≢ k → lookup j (update k v d) ≡ lookup j d
  lookup-update_ne j k v [] h = refl
  lookup-update_ne j k v ((i, w) ∷ d) h =
      ground (arith, lookup-update_ne j k v d h, eq_ℤ-eq k i, eq_ℤ-eq j i)

  pub keys-update : (k : ℤ) (v : V) (d : IntDict V) → keys (update k v d) ≡ keys d
  keys-update k v [] = refl
  keys-update k v ((j, w) ∷ d) = ground (arith, keys-update k v d)
