-- ===== src/Tests/Ahl.antt =====
-- Tests of src/lib/ahl_lib.py on a lift that is a table of values.
use gateway_nexy.Base.{
  ℕ, ◌≡◌, ◌≢◌, ◌↔◌, inr, refl, true, false, List, [], ◌∷◌, ◌++◌, map, range_from, In,
}
use gateway_nexy.Base.Int.{ℤ, pos, negsuc}
use gateway_nexy.Base.Text.{Text, text, text_eq, str_nat}
use gateway_nexy.Base.Dict.{keys}
use gateway_nexy.Codes.{Code, no_err, lcm_err}
use gateway_nexy.Ahl.Tables.{old_polling_table, new_polling_table, decode_change_flags}
use gateway_nexy.Ahl.Tables.Coverage.{Flagged, decode_change_flags_iff}
use gateway_nexy.Ahl.Poll.Sweep.{recorded, ask, never_read, full_read_requests}
use gateway_nexy.Base.Distinct.{Distinct}
use gateway_nexy.Ahl.Database.{init_database, param_ids, set_param}
use gateway_nexy.Ahl.Poll.{Reader, AhlLib, poll_params, poll_all, poll_one, candidates}
use gateway_nexy.Ahl.Poll.Rounds.{cached}
use gateway_nexy.Ahl.Poll.Changes.{poll_params_reports_changes}

-- Flag 21 is set; parameter 322 has the value 7, all others refuse.
abbrev answer : List Text → ℤ × Code
answer [] = (negsuc 0, lcm_err)
answer (p ∷ ps) = elim (text_eq p (text "2")) [
  | true ↦ (pos 2097152, no_err)
  | false ↦ elim (text_eq p (text "322")) [ true ↦ (pos 7, no_err) | false ↦ (negsuc 0, lcm_err) ]
]

abbrev reader : Reader
reader = record { State = ℕ; read_parameter = λ par s. (answer par, s) }

abbrev lib : AhlLib
lib = record { polling_table = new_polling_table; database = init_database }

reported : (poll_params reader lib false 0).0 ≡ 322 ∷ []
unfolding poll_params candidates decode_change_flags new_polling_table init_database poll_all
    poll_one set_param str_nat
reported = refl

decode_change_flags_iff_example :
    In 126 (decode_change_flags old_polling_table (pos 256))
    ↔ Flagged old_polling_table (pos 256) 126
decode_change_flags_iff_example = decode_change_flags_iff old_polling_table (pos 256) 126

full_read_requests_example :
    (params : List ℕ) × ((poll_params (recorded reader) lib true (0, [])).2.1
      ≡ (text "2" ∷ []) ∷ map ask params)
    × Distinct params
    × ((p : ℕ) → In p params ↔ (In p param_ids × (¬ In p (never_read true))))
unfolding init_database
full_read_requests_example = full_read_requests reader lib true 0 refl refl

-- With flag 21 the other parameters of its group are asked for too.
some_requests :
    (poll_params (recorded reader) lib false (0, [])).2.1
    ≡ map ask (2 ∷ (range_from 322 12 ++ 335 ∷ 336 ∷ 338 ∷ 339 ∷ []))
unfolding poll_params candidates decode_change_flags new_polling_table init_database poll_all
    poll_one set_param str_nat
some_requests = refl

poll_params_reports_changes_example :
    let (params, lib', _) = poll_params reader lib false 0 in
    (In 322 params ↔ (cached lib.database 322 ≢ cached lib'.database 322))
    × (keys lib'.database ≡ keys lib.database)
    × (lib'.polling_table ≡ lib.polling_table)
poll_params_reports_changes_example = poll_params_reports_changes reader lib false 0 322 (inr refl)
