-- ===== src/Rs232/Split/Queue.antt =====
-- src/liftApi/rs232_handler.py: the queue of the results of the frequency converter, a deque of 50.
use gateway_nexy.Base.{
  append_assoc, append_empty, arith, false, List, [], ◌∷◌, ◌++◌, ◌≡◌, refl, sym, ap, ◌∙◌, ◌⊎◌, inl,
  inr, ℕ, suc, ◌-◌, ◌≤◌, ◌<◌, length, drop, length-append, ltb, Bool-cases,
}
use gateway_nexy.Base.Json.{Fields}
use gateway_nexy.Rs232.Split.{push_vfd}

-- One result after the other.
unfoldable pub push_all : List Fields → List Fields → List Fields
push_all [] saved = saved
push_all (rsp ∷ rsp_dec) saved = push_all rsp_dec (push_vfd rsp saved)

-- The last items of a list, at most the given count.
abbrev pub last : ℕ → List Fields → List Fields
last n xs = drop (length xs - n) xs

drop_zero : (n : ℕ) (xs : List Fields) → n ≡ 0 → drop n xs ≡ xs
drop_zero n xs h = rw h refl

last_all : (n : ℕ) (xs : List Fields) → length xs ≤ n → last n xs ≡ xs
last_all n xs h = drop_zero (length xs - n) xs (omega arith)

last_cons : (n : ℕ) (x : Fields) (xs : List Fields) → n ≤ length xs → last n (x ∷ xs) ≡ last n xs
last_cons n x xs h = rw (suc_minus (length xs) n h) refl
  where
    suc_minus : (m k : ℕ) → k ≤ m → suc m - k ≡ suc (m - k)
    suc_minus m k h = omega arith

-- A queue with one result more.
push_vfd-last :
    (rsp : Fields) (saved : List Fields)
    → length saved ≤ 50
    → ((push_vfd rsp saved ≡ saved ++ (rsp ∷ [])) × (length saved < 50))
      ⊎ ((y : Fields) × (ys : List Fields) × (saved ≡ y ∷ ys)
          × (push_vfd rsp saved ≡ ys ++ (rsp ∷ []))
          × (length ys ≡ 49))
unfolding push_vfd
push_vfd-last rsp saved h = elim (Bool-cases (ltb (length saved) 50)) [
  | inl e ↦ inl (rw e refl, ground arith)
  | inr e ↦ inr (full saved e h)
]
  where
    full :
        (saved : List Fields)
        → ltb (length saved) 50 ≡ false
        → length saved ≤ 50
        → (y : Fields) × (ys : List Fields) × (saved ≡ y ∷ ys)
          × (push_vfd rsp saved ≡ ys ++ (rsp ∷ []))
          × (length ys ≡ 49)
    full [] e h = ground arith
    full (y ∷ ys) e h = (y, ys, refl, rw e refl, ground arith)

-- The queue keeps the last 50 results of the old and the new ones.
pub push_all-last :
    (rsp_dec saved : List Fields)
    → length saved ≤ 50
    → push_all rsp_dec saved ≡ last 50 (saved ++ rsp_dec)
unfolding push_all
push_all-last [] saved h = rw (append_empty saved) (sym (last_all 50 saved h))
push_all-last (rsp ∷ rsp_dec) saved h = elim (push_vfd-last rsp saved h) [
  | inl (e, lt) ↦ rw e (
      push_all-last rsp_dec (saved ++ (rsp ∷ [])) (omega (arith, length-append saved (rsp ∷ [])))
      ∙ ap (last 50) (append_assoc saved rsp rsp_dec))
  | inr (y, ys, q, e, l) ↦ rw e (
      push_all-last rsp_dec (ys ++ (rsp ∷ [])) (omega (arith, length-append ys (rsp ∷ [])))
      ∙ rw (append_assoc ys rsp rsp_dec, q)
          (sym (
            last_cons 50 y (ys ++ (rsp ∷ rsp_dec))
              (omega (arith, length-append ys (rsp ∷ rsp_dec))))))
]
