-- ===== src/Ahl/Poll/Changes.antt =====
-- src/lib/ahl_lib.py: what `poll_params` reports against what it changes.
use mathlib.Core.Path.{subst}
use gateway_nexy.Base.{
  ℕ, ◌≡◌, ◌≢◌, ◌⊎◌, ◌↔◌, inl, inr, refl, Bool, true, false, List, [], ◌∷◌, arith, elem, In,
  In-append_cases, In-append_left, In-append_right, Bool-cases, Option-cases, ◌==◌, ◌∙◌, sym, ap,
}
use gateway_nexy.Base.Int.{ℤ, pos, eq_ℤ}
use gateway_nexy.Base.Distinct.{Distinct, In-elem, elem-In}
use gateway_nexy.Base.Dict.{lookup, keys}
use gateway_nexy.Base.Text.{str_nat, text}
use gateway_nexy.Codes.{is_no_err}
use gateway_nexy.Ahl.Tables.{old_polling_table, new_polling_table, decode_change_flags}
use gateway_nexy.Ahl.Tables.Coverage.{decode_change_flags-Distinct}
use gateway_nexy.Ahl.Database.{Database}
use gateway_nexy.Ahl.Poll.{Reader, AhlLib, poll_one, poll_all, candidates, poll_params}
use gateway_nexy.Ahl.Poll.Rounds.{
  value_of, cached, Round, kept, set_param-Round, Round-others, Round-In, Round-cached, Round-same,
  Round-keys,
}

selected-Distinct :
    (table : ℕ → List ℕ) (bitmask : ℤ)
    → (table ≡ old_polling_table) ⊎ (table ≡ new_polling_table)
    → Distinct (decode_change_flags table bitmask)
selected-Distinct table bitmask (inl e) =
    subst (λ t. Distinct (decode_change_flags t bitmask)) (sym e)
      (decode_change_flags-Distinct bitmask).0
selected-Distinct table bitmask (inr e) =
    subst (λ t. Distinct (decode_change_flags t bitmask)) (sym e)
      (decode_change_flags-Distinct bitmask).1

false-ne-true : ◌≢◌ {A = Bool} false true
false-ne-true e = cc

module _ (r : Reader) where
  open r use {State, read_parameter}

  pub poll_one-Round :
      (param : ℕ) (db : Database) (s : State)
      → let (updated, db', _) = poll_one r param db s in Round param db updated db'
  unfolding poll_one
  poll_one-Round param db s = elim (Option-cases (lookup param db)) [
    | inl e ↦ kept (ground arith) (ground arith)
    | inr (q, e) ↦
        (let ((v, code), s') = read_parameter (str_nat param ∷ []) s in
          elim (Bool-cases (is_no_err code)) [
            | inr bad ↦ kept (ground arith) (ground arith)
            | inl good ↦ rw (e, poll_one) (rw good (set_param-Round param v db))
          ])
  ]

  poll_all-others :
      (p : ℕ) (params : List ℕ) (db : Database) (s : State)
      → ¬ In p params
      → lookup p (poll_all r params db s).1 ≡ lookup p db
  unfolding poll_all
  poll_all-others p [] db s n = refl
  poll_all-others p (param ∷ params) db s n =
      let (updated, db', s') = poll_one r param db s in
      poll_all-others p params db' s' (λ i. n (inr i))
      ∙ Round-others p (poll_one-Round param db s) (λ e. n (inl e))

  poll_all-In :
      (p : ℕ) (params : List ℕ) (db : Database) (s : State)
      → In p (poll_all r params db s).0
      → In p params
  unfolding poll_all
  poll_all-In p [] db s i = i
  poll_all-In p (param ∷ params) db s i =
      let (updated, db', s') = poll_one r param db s in
      let later = poll_all-In p params db' s' in
      elim (In-append_cases p updated (poll_all r params db' s').0 i) [
        | inl here ↦ inl (Round-In p (poll_one-Round param db s) here)
        | inr there ↦ inr (later there)
      ]

  poll_all-keys :
      (params : List ℕ) (db : Database) (s : State) → keys (poll_all r params db s).1 ≡ keys db
  unfolding poll_all
  poll_all-keys [] db s = refl
  poll_all-keys (param ∷ params) db s =
      let (updated, db', s') = poll_one r param db s in
      poll_all-keys params db' s' ∙ Round-keys (poll_one-Round param db s)

  poll_all-reported :
      (p : ℕ) (params : List ℕ) (db : Database) (s : State)
      → Distinct params
      → In p (poll_all r params db s).0
      → cached db p ≢ cached (poll_all r params db s).1 p
  unfolding poll_all
  poll_all-reported p [] db s d i = absurd i
  poll_all-reported p (param ∷ params) db s d i =
      let (updated, db', s') = poll_one r param db s in
      let round = poll_one-Round param db s in
      let later = poll_all-reported p params db' s' d.1 in
      elim (In-append_cases p updated (poll_all r params db' s').0 i) [
        | inl here ↦ (λ h. Round-cached p round here (
            h
            ∙ ap value_of (
                poll_all-others p params db' s'
                  (λ k. d.0 (subst (λ x. In x params) (Round-In p round here) k)))))
        | inr there ↦ (λ h. later there (
            ap value_of (
              Round-others p round
                (λ e. d.0 (subst (λ x. In x params) e (poll_all-In p params db' s' there))))
            ∙ h))
      ]

  poll_all-silent :
      (p : ℕ) (params : List ℕ) (db : Database) (s : State)
      → ¬ In p (poll_all r params db s).0
      → lookup p (poll_all r params db s).1 ≡ lookup p db
  unfolding poll_all
  poll_all-silent p [] db s n = refl
  poll_all-silent p (param ∷ params) db s n =
      let (updated, db', s') = poll_one r param db s in
      let round = poll_one-Round param db s in
      let later = poll_all-silent p params db' s' (λ i. n (In-append_right p updated _ i)) in
      elim (Bool-cases (p == param)) [
        | inl e ↦
            (let same_param : p ≡ param = ground arith in
              later
              ∙ ap (lookup p) (
                  Round-same round (λ i.
                    n (In-append_left p updated _ (subst (λ x. In x updated) (sym same_param) i)))))
        | inr e ↦ later ∙ Round-others p round (λ h. ground arith)
      ]

  candidates-Distinct :
      (lib : AhlLib) (force_read_all : Bool) (s : State)
      → (lib.polling_table ≡ old_polling_table) ⊎ (lib.polling_table ≡ new_polling_table)
      → Distinct (candidates r lib force_read_all s).0
  unfolding candidates
  candidates-Distinct lib true s t = selected-Distinct lib.polling_table (pos 0x7FFFFFFF) t
  candidates-Distinct lib false s t =
      let ((value, code), s') = read_parameter (text "2" ∷ []) s in
      elim (Bool-cases (is_no_err code)) [
        | inr bad ↦ rw bad tt
        | inl good ↦ elim (Bool-cases (eq_ℤ value (pos 0))) [
          | inl quiet ↦ rw good (rw quiet tt)
          | inr some_set ↦ rw good (rw some_set (selected-Distinct lib.polling_table value t))
        ]
      ]

  -- With either polling table, forced or not and whatever the handler answers, `poll_params` returns
  -- exactly the parameters whose cached value it has changed. It adds and removes no parameter and
  -- keeps the table.
  pub poll_params_reports_changes :
      (lib : AhlLib) (force_read_all : Bool) (s : State) (p : ℕ)
      → (lib.polling_table ≡ old_polling_table) ⊎ (lib.polling_table ≡ new_polling_table)
      → let (reported, lib', _) = poll_params r lib force_read_all s in
        (In p reported ↔ (cached lib.database p ≢ cached lib'.database p))
        × (keys lib'.database ≡ keys lib.database)
        × (lib'.polling_table ≡ lib.polling_table)
  unfolding poll_params
  poll_params_reports_changes lib force_read_all s p t =
      let (params, s') = candidates r lib force_read_all s in
      let d = candidates-Distinct lib force_read_all s t in
      (
        (
          poll_all-reported p params lib.database s' d,
          λ h. elim (Bool-cases (elem p (poll_all r params lib.database s').0)) [
            | inl e ↦ elem-In p _ e
            | inr e ↦ absurd (
                h (
                  sym (
                    ap value_of (
                      poll_all-silent p params lib.database s'
                        (λ i. false-ne-true (sym e ∙ In-elem p _ i))))))
          ],
        ),
        poll_all-keys params lib.database s',
        refl,
      )
