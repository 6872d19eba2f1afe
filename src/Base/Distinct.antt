-- ===== src/Base/Distinct.antt =====
-- Lists of numbers without duplicates.
use Prim.Native.Nat.{ℕ}
use mathlib.Core.Path.{◌≡◌}
use mathlib.Core.Logic.{inl, inr}
use mathlib.Core.Bool.{Bool, true, not, ◌&&◌}
use mathlib.Core.List.{List, [], ◌∷◌, ◌++◌}
use native.Mathlib.Omega.{arith}
use gateway_nexy.Base.Tests.{◌==◌, Bool-cases}
use gateway_nexy.Base.Lists.{elem, In}

abbrev pub Distinct : List ℕ → Type 0
Distinct [] = Unit
Distinct (x ∷ xs) = (¬ In x xs) × Distinct xs

-- The same as a test.
unfoldable pub distinct : List ℕ → Bool
distinct [] = true
distinct (x ∷ xs) = not (elem x xs) && distinct xs

pub In-elem : (a : ℕ) (xs : List ℕ) → In a xs → elem a xs ≡ true
In-elem a [] h = absurd h
In-elem a (x ∷ xs) (inl e) = ground arith
In-elem a (x ∷ xs) (inr h) = ground (arith, In-elem a xs h)

pub elem-In : (a : ℕ) (xs : List ℕ) → elem a xs ≡ true → In a xs
elem-In a [] h = cc
elem-In a (x ∷ xs) h = elim (Bool-cases (a == x)) [
  | inl e ↦ inl (ground arith)
  | inr e ↦ inr (elem-In a xs (ground arith))
]

pub distinct-Distinct : (xs : List ℕ) → distinct xs ≡ true → Distinct xs
unfolding distinct
distinct-Distinct [] h = tt
distinct-Distinct (x ∷ xs) h =
    ((λ i. ground (arith, In-elem x xs i)), distinct-Distinct xs (ground arith))

pub Distinct-tail : (xs ys : List ℕ) → Distinct (xs ++ ys) → Distinct ys
Distinct-tail [] ys h = h
Distinct-tail (x ∷ xs) ys h = Distinct-tail xs ys h.1

-- Shrinking the right part keeps the list free of duplicates.
pub Distinct-append :
    (xs ys zs : List ℕ)
    → ((a : ℕ) → In a zs → In a ys)
    → Distinct (xs ++ ys)
    → Distinct zs
    → Distinct (xs ++ zs)
Distinct-append [] ys zs sub h d = d
Distinct-append (x ∷ xs) ys zs sub h d =
    ((λ i. h.0 (shrink xs i)), Distinct-append xs ys zs sub h.1 d)
  where
    shrink : (l : List ℕ) → In x (l ++ zs) → In x (l ++ ys)
    shrink [] i = sub x i
    shrink (y ∷ l) (inl e) = inl e
    shrink (y ∷ l) (inr i) = inr (shrink l i)
