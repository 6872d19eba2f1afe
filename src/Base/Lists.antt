-- ===== src/Base/Lists.antt =====
-- Lists measured and indexed by native numbers, under the library's names.
use Prim.Native.Nat.{ℕ, zero, suc, ◌+◌, ◌-◌, min}
use mathlib.Core.Path.{◌≡◌, refl, ap}
use mathlib.Core.Logic.{◌⊎◌, inl, inr}
use mathlib.Core.Bool.{Bool, false, ◌||◌}
use mathlib.Core.List.{List, [], ◌∷◌, ◌++◌}
use mathlib.Core.Option.{Option, none, some}
use native.Mathlib.Omega.{arith}
use gateway_nexy.Base.Tests.{◌==◌}

module _ {ℓ} {A : Type ℓ} where
  abbrev pub length : List A → ℕ
  length [] = 0
  length (x ∷ xs) = suc (length xs)

  abbrev pub get_elem? : List A → ℕ → Option A
  get_elem? [] i = none
  get_elem? (x ∷ xs) zero = some x
  get_elem? (x ∷ xs) (suc i) = get_elem? xs i

  abbrev pub get_or : List A → ℕ → A → A
  get_or [] i d = d
  get_or (x ∷ xs) zero d = x
  get_or (x ∷ xs) (suc i) d = get_or xs i d

  abbrev pub take : ℕ → List A → List A
  take zero xs = []
  take (suc n) [] = []
  take (suc n) (x ∷ xs) = x ∷ take n xs

  abbrev pub drop : ℕ → List A → List A
  drop zero xs = xs
  drop (suc n) [] = []
  drop (suc n) (x ∷ xs) = drop n xs

  pub append_assoc : (xs : List A) (x : A) (ys : List A) → (xs ++ (x ∷ [])) ++ ys ≡ xs ++ (x ∷ ys)
  append_assoc [] x ys = refl
  append_assoc (z ∷ xs) x ys = ap (λ l. z ∷ l) (append_assoc xs x ys)

  pub append_empty : (xs : List A) → xs ++ [] ≡ xs
  append_empty [] = refl
  append_empty (x ∷ xs) = ap (λ l. x ∷ l) (append_empty xs)

  pub length-append : (xs ys : List A) → length (xs ++ ys) ≡ length xs + length ys
  length-append [] ys = omega arith
  length-append (x ∷ xs) ys = omega (arith, length-append xs ys)

  pub take-append-drop : (n : ℕ) (xs : List A) → take n xs ++ drop n xs ≡ xs
  take-append-drop zero xs = refl
  take-append-drop (suc n) [] = refl
  take-append-drop (suc n) (x ∷ xs) = ap (λ l. x ∷ l) (take-append-drop n xs)

  pub length-take : (n : ℕ) (xs : List A) → length (take n xs) ≡ min n (length xs)
  length-take zero xs = omega arith
  length-take (suc n) [] = omega arith
  length-take (suc n) (x ∷ xs) = omega (arith, length-take n xs)

  pub length-drop : (n : ℕ) (xs : List A) → length (drop n xs) ≡ length xs - n
  length-drop zero xs = omega arith
  length-drop (suc n) [] = omega arith
  length-drop (suc n) (x ∷ xs) = omega (arith, length-drop n xs)

-- The numbers n, n + 1, … of the given count, as `range` yields them.
abbrev pub range_from : ℕ → ℕ → List ℕ
range_from n zero = []
range_from n (suc k) = n ∷ range_from (suc n) k

-- `x in xs`, as a test and as a statement.
abbrev pub elem : ℕ → List ℕ → Bool
elem a [] = false
elem a (x ∷ xs) = a == x || elem a xs

abbrev pub In : ℕ → List ℕ → Type 0
In a [] = ⊥
In a (x ∷ xs) = (a ≡ x) ⊎ In a xs

pub In-append_left : (a : ℕ) (xs ys : List ℕ) → In a xs → In a (xs ++ ys)
In-append_left a (x ∷ xs) ys (inl e) = inl e
In-append_left a (x ∷ xs) ys (inr h) = inr (In-append_left a xs ys h)
In-append_left a [] ys h = absurd h

pub In-append_right : (a : ℕ) (xs ys : List ℕ) → In a ys → In a (xs ++ ys)
In-append_right a [] ys h = h
In-append_right a (x ∷ xs) ys h = inr (In-append_right a xs ys h)

pub In-append_cases : (a : ℕ) (xs ys : List ℕ) → In a (xs ++ ys) → In a xs ⊎ In a ys
In-append_cases a [] ys h = inr h
In-append_cases a (x ∷ xs) ys (inl e) = inl (inl e)
In-append_cases a (x ∷ xs) ys (inr h) = elim (In-append_cases a xs ys h) [
  | inl l ↦ inl (inr l)
  | inr r ↦ inr r
]
