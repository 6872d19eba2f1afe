-- ===== src/Thousand/Updates/Changes.antt =====
-- src/lib/thousand_lib.py: which parameters `get_updated_params` reports.
use mathlib.Core.Path.{subst}
use gateway_nexy.Base.{
  ◌≡◌, inl, inr, refl, ℕ, true, false, Option, none, some, List, [], ◌∷◌, arith, Bool-cases,
  Option-cases,
}
use gateway_nexy.Base.Int.{ℤ}
use gateway_nexy.Base.IntDict.{elem, are_distinct}
use gateway_nexy.Base.Text.{Text, text, text_eq}
use gateway_nexy.Codes.{Code, no_err}
use gateway_nexy.Thousand.Signals.{Response}
use gateway_nexy.Thousand.Packages.{params_virtual}
use gateway_nexy.Thousand.Protocol.{Database}
use gateway_nexy.Thousand.Lookup.{ThousandLib, save_response}
use gateway_nexy.Thousand.Virtual.{virtual_value}
use gateway_nexy.Thousand.Updates.{
  Round, keep_value, with_changed, update_all, response_value, with_database,
  update_virtual_signals, get_updated_params, signals_to_unpack,
}
use gateway_nexy.Thousand.Updates.Rounds.{
  Reported, OnlyAt, KeepsRule, keep_value-KeepsRule, OnlyIn, OnlyIn-then,
}

abbrev UpdatesRule : List ℤ → Database → Option Round → Type 0
UpdatesRule ps db none = Unit
UpdatesRule ps db (some (changed, err, db')) = OnlyIn ps changed db db'

with_changed-UpdatesRule :
    (p : ℤ) (ps c : List ℤ) (db db₁ : Database) (later : Option Round)
    → elem p ps ≡ false
    → OnlyAt p c db db₁
    → UpdatesRule ps db₁ later
    → UpdatesRule (p ∷ ps) db (with_changed c later)
with_changed-UpdatesRule p ps c db db₁ none fresh here rest = tt
with_changed-UpdatesRule p ps c db db₁ (some (c', err, db₂)) fresh here rest =
    OnlyIn-then p ps c c' db db₁ db₂ fresh here rest

module _ (values : Database → ℤ → Option (Text × Code)) where
  update_all-UpdatesRule :
      (ps : List ℤ) (err : Code) (db : Database)
      → are_distinct ps ≡ true
      → UpdatesRule ps db (update_all values ps err db)
  unfolding update_all
  update_all-UpdatesRule [] err db h = (λ k. inr (refl, refl), λ k e. (refl, refl))
  update_all-UpdatesRule (p ∷ ps) err db h = elim (Option-cases (values db p)) [
    | inl e ↦ rw (e, update_all) tt
    | inr (reply, e) ↦ elim (Option-cases (keep_value p reply err db)) [
      | inl e₁ ↦ rw (e, e₁, update_all) tt
      | inr ((c, err₁, db₁), e₁) ↦
          let here = subst (KeepsRule p db) e₁ (keep_value-KeepsRule p reply err db) in
          rw (e, e₁, update_all)
            (with_changed-UpdatesRule p ps c db db₁ (update_all values ps err₁ db₁) (ground arith)
              here (update_all-UpdatesRule ps err₁ db₁ (ground arith)))
    ]
  ]

signals_to_unpack-distinct :
    (package_id : Text) (ps : List ℤ)
    → signals_to_unpack package_id ≡ some ps
    → are_distinct ps ≡ true
unfolding signals_to_unpack
signals_to_unpack-distinct package_id ps h = ground arith

abbrev ReportRule : ThousandLib → Option ((List ℤ × Code) × ThousandLib) → Type 0
ReportRule lib none = Unit
ReportRule lib (some ((changed, code), lib')) =
    (k : ℤ) → Reported k changed lib.database lib'.database

with_database-ReportRule :
    (lib lib₁ : ThousandLib) (ps : List ℤ) (round : Option Round)
    → UpdatesRule ps lib.database round
    → ReportRule lib (with_database lib₁ round)
with_database-ReportRule lib lib₁ ps none h = tt
with_database-ReportRule lib lib₁ ps (some (changed, code, db)) h = h.0

get_updated_params-ReportRule :
    (now : ℕ) (package_id : Text) (response : Response) (lib : ThousandLib)
    → ReportRule lib (get_updated_params now package_id response lib)
unfolding get_updated_params update_virtual_signals
get_updated_params-ReportRule now package_id response lib =
    elim (Option-cases (signals_to_unpack package_id)) [
      | inl e ↦ elim (Bool-cases (text_eq package_id (text "virtual"))) [
        | inl v ↦
            rw (e, v, get_updated_params)
              (with_database-ReportRule lib lib params_virtual _ (
                update_all-UpdatesRule (λ db p. virtual_value now (record lib { database = db }) p)
                  params_virtual no_err lib.database refl))
        | inr v ↦ rw (e, v, get_updated_params) (λ k. inr (refl, refl))
      ]
      | inr (ps, e) ↦
          rw (e, get_updated_params)
            (with_database-ReportRule lib
              (record lib {
                latest_responses = save_response package_id response lib.latest_responses;
              })
              ps _
              (update_all-UpdatesRule (response_value now response) ps no_err lib.database
                (signals_to_unpack-distinct package_id ps e)))
    ]

-- When `get_updated_params` returns, then for every parameter number one of two things holds: the
-- parameter is in the list of changed ones, had a signal, and its value is now a different one, with
-- the rest of the signal as before; or it is not in the list, and its signal is as it was.
pub get_updated_params-changed :
    (now : ℕ) (package_id : Text) (response : Response) (lib lib' : ThousandLib) (changed : List ℤ)
    (code : Code) (k : ℤ)
    → get_updated_params now package_id response lib ≡ some ((changed, code), lib')
    → Reported k changed lib.database lib'.database
get_updated_params-changed now package_id response lib lib' changed code k h =
    subst (ReportRule lib) h (get_updated_params-ReportRule now package_id response lib) k
