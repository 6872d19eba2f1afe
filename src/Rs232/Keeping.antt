-- ===== src/Rs232/Keeping.antt =====
-- src/liftApi/rs232_handler.py: what the methods keep of the handler's attributes.
pub mod Reading
pub mod Requests
pub mod Counters
pub mod Polling
pub mod Lift
use Prim.{Unit, tt}
use gateway_nexy.Base.{
  ℕ, zero, suc, ◌+◌, ◌<◌, ◌≤◌, Bool, true, false, Option, none, some, List, [], ◌∷◌, ◌++◌, ◌≡◌,
  refl, sym, ap, ◌∙◌, arith, length, length-append, Bool-cases, Option-cases, inl, inr, ltb, ltb→lt,
  if◌then◌else◌,
}
use gateway_nexy.Base.Json.{Fields}
use gateway_nexy.Rs232.Port.{
  Rs232, Method, done, raise, lift, ◌>>=◌, ◌>>◌, Answer, answer, failed, answered, on_answer,
}
use gateway_nexy.Rs232.Split.{push_vfd, max_saved_vfd_results, without_first}

-- The index of the file package is below 5 and at most 50 results are saved.
pub record IsWellFormed {S : Type 0} (r : Rs232 S) : Type 0 where
  pub index : r.polled_file_package < 5
  pub results : length r.saved_vfd_results ≤ max_saved_vfd_results

-- A method after which a predicate still holds, also where it raises.
abbrev pub Preserves : {S A : Type 0} → (Rs232 S → Type 0) → Method S A → Type 0
Preserves P m = (r : _) → P r → P (m r).1

module _ {S A B : Type 0} (P : Rs232 S → Type 0) where
  pub Preserves-bind :
      (m : Method S A) (f : A → Method S B)
      → Preserves P m
      → ((a : A) → Preserves P (f a))
      → Preserves P (m >>= f)
  Preserves-bind m f hm hf r h = elim (Option-cases (m r).0) [
    | inl e ↦ rw (e, ◌>>=◌) (hm r h)
    | inr (a, e) ↦ rw (e, ◌>>=◌) (hf a (m r).1 (hm r h))
  ]

module _ {S A B : Type 0} (P : Rs232 S → Type 0) where
  by_cases :
      (f : A → Method S (Answer B))
      → ((a : A) → Preserves P (f a))
      → (result : Answer A) → Preserves P (answered f result)
  by_cases f hf (answer a) = hf a
  by_cases f hf (failed code) = λ r h. h

  pub Preserves-on_answer :
      (m : Method S (Answer A)) (f : A → Method S (Answer B))
      → Preserves P m
      → ((a : A) → Preserves P (f a))
      → Preserves P (on_answer m f)
  Preserves-on_answer m f hm hf = Preserves-bind P m (answered f) hm (by_cases f hf)

module _ {S A : Type 0} (P : Rs232 S → Type 0) where
  -- A choice between two methods.
  pub Preserves-if :
      (b : Bool) (m n : Method S A)
      → Preserves P m
      → Preserves P n
      → Preserves P (if b then m else n)
  Preserves-if true m n hm hn = hm
  Preserves-if false m n hm hn = hn

module _ {S X : Type 0} (P : Rs232 S → Type 0) where
  -- A choice between two results.
  pub if_keeps : (b : Bool) (x y : X × Rs232 S) → P x.1 → P y.1 → P (if b then x else y).1
  if_keeps true x y hx hy = hx
  if_keeps false x y hx hy = hy

pub length-push_vfd :
    (rsp : Fields) (saved : List Fields)
    → length saved ≤ max_saved_vfd_results
    → length (push_vfd rsp saved) ≤ max_saved_vfd_results
unfolding push_vfd
length-push_vfd rsp [] h = omega arith
length-push_vfd rsp (s ∷ saved) h = elim (Bool-cases (ltb (suc (length saved)) 50)) [
  | inl e ↦ rw (e, length-append saved (rsp ∷ [])) (ground arith)
  | inr e ↦ rw (e, length-append saved (rsp ∷ [])) (ground arith)
]

abbrev pub Keeps : {S A : Type 0} → Method S A → Type 0
Keeps m = Preserves IsWellFormed m
