-- ===== src/Thousand/Doors.antt =====
-- src/lib/thousand_lib.py: the door counters and the door closing times.
pub mod Totals
use gateway_nexy.Base.{
  ℕ, Bool, true, false, not, Option, none, some, List, [], ◌∷◌, ◌++◌, ◌||◌, if◌then◌else◌,
}
use gateway_nexy.Base.Int.{ℤ, pos, negsuc, ltb_ℤ, ◌+ℤ◌}
use gateway_nexy.Base.IntDict.{lookup, update}
use gateway_nexy.Base.Text.{Text, text, text_eq, int_of}
use gateway_nexy.Codes.{Code, no_err, data_err, is_no_err}
use gateway_nexy.Modbus.Registers.{Val, str, int}
use gateway_nexy.Thousand.Signals.{Signal, Response, unpack_signal}
use gateway_nexy.Thousand.Packages.{params_door_open_count, params_door_closing_time, params_135}
use gateway_nexy.Thousand.Protocol.{Database}
use gateway_nexy.Thousand.Lookup.{ThousandLib, store}

-- The two lists of counters and whether a restart was seen.
abbrev pub Counters : Type 0
Counters = List ℤ × List ℤ × Bool

-- One counter: a reading below the last total means that the lift has restarted.
abbrev pub restarted : ℤ → ℤ → ℤ → Bool
restarted read previous total = ltb_ℤ (read +ℤ previous) total

abbrev pub next_previous : ℤ → ℤ → ℤ → ℤ
next_previous read previous total = if restarted read previous total then total else previous

abbrev pub next_total : ℤ → ℤ → ℤ → ℤ
next_total read previous total = read +ℤ next_previous read previous total

-- The result of the loop: the changed parameters and the code, the counters and the database.
abbrev pub DoorRound : Type 0
DoorRound = (List ℤ × Code) × Counters × Database

-- What a counter adds to the result of the later ones; after an error nothing is reported.
abbrev pub with_counter : ℤ → ℤ → List ℤ → Option DoorRound → Option DoorRound
with_counter previous total changed none = none
with_counter previous total changed (some ((changed', code), (previous', total', reset), db)) =
    some (
      ((if is_no_err code then changed ++ changed' else []), code),
      (previous ∷ previous', total ∷ total', reset),
      db,
    )

-- The loop of `door_open_count_recalculate`; `none` is an exception.
unfoldable pub recalculate : ℕ → Response → List ℤ → Counters → Database → Option DoorRound
unfolding unpack_signal store ◌+ℤ◌
recalculate now response [] counters db = some (([], no_err), counters, db)
recalculate now response (p ∷ ps) ([], totals, reset) db = none
recalculate now response (p ∷ ps) (previous ∷ previouses, [], reset) db = none
recalculate now response (p ∷ ps) (previous ∷ previouses, total ∷ totals, reset) db =
    elim (lookup p db) [
      | none ↦ none
      | some signal ↦ elim (unpack_signal now signal response) [
        | none ↦ none
        | some (read_value, code) ↦ elim (is_no_err code) [
          | false ↦ some (([], code), (previous ∷ previouses, total ∷ totals, reset), db)
          | true ↦ elim (int_of read_value) [
            | none ↦ none
            | some read ↦
                let total' = next_total read previous total in
                let (changed, db') = store p (int total') signal db in
                with_counter (next_previous read previous total) total' changed (
                  recalculate now response ps
                    (previouses, totals, restarted read previous total || reset) db')
          ]
        ]
      ]
    ]

-- `door_open_count_recalculate`
unfoldable pub door_open_count_recalculate :
    ℕ → Response → ThousandLib → Option ((List ℤ × Code) × ThousandLib)
unfolding recalculate
door_open_count_recalculate now response lib =
    elim (recalculate now response params_door_open_count
      (
        lib.previous_open_door_counters, lib.total_open_door_counters,
        lib.reset_saved_open_door_counter,
      )
      lib.database) [
        | none ↦ none
        | some (result, (previous, total, reset), db) ↦ some (
          result,
          record lib {
            previous_open_door_counters = previous;
            total_open_door_counters = total;
            reset_saved_open_door_counter = reset;
            database = db;
          },
        )
      ]

-- `self.database[p].value = value`; `none` is a `KeyError`.
abbrev pub put_value : ℤ → Val → Database → Option Database
put_value p value db = elim (lookup p db) [
  | none ↦ none
  | some signal ↦ some (update p (record signal { value = value }) db)
]

-- `'0'` for every parameter.
unfoldable pub reset_params : List ℤ → Database → Option Database
reset_params [] db = some db
reset_params (p ∷ ps) db = elim (put_value p (str (text "0")) db) [
  | none ↦ none
  | some db' ↦ reset_params ps db'
]

-- `reset_door_closing_time_params`
unfoldable pub reset_door_closing_time_params : Database → Option Database
unfolding reset_params
reset_door_closing_time_params db = reset_params params_door_closing_time db

-- `reset_135_params`
unfoldable pub reset_135_params : Database → Option Database
unfolding reset_params
reset_135_params db = reset_params params_135 db

-- The parameter of a door's closing time.
unfoldable pub closing_time_param : Text → Option ℤ
closing_time_param door_no =
    if text_eq door_no (text "1")
    then some (pos 155)
    else if text_eq door_no (text "2")
    then some (pos 156)
    else if text_eq door_no (text "3")
    then some (pos 157)
    else if text_eq door_no (text "4")
    then some (pos 158)
    else if text_eq door_no (text "5")
    then some (pos 159)
    else if text_eq door_no (text "6")
    then some (pos 160)
    else none

-- The unpacked value of a parameter; `none` is an exception.
abbrev pub unpacked : ℕ → Response → ℤ → Database → Option (Text × Code)
unpacked now response p db = elim (lookup p db) [
  | none ↦ none
  | some signal ↦ unpack_signal now signal response
]

-- The end of `update_door_closing_time`.
unfoldable pub put_closing_time : Text → Text → Database → Option ((List ℤ × Code) × Database)
unfolding closing_time_param
put_closing_time door_no door_time db = elim (closing_time_param door_no) [
  | none ↦ some (([], data_err), db)
  | some p ↦ elim (put_value p (str door_time) db) [
    | none ↦ none
    | some db' ↦ some ((p ∷ [], no_err), db')
  ]
]

-- `update_door_closing_time`
unfoldable pub update_door_closing_time :
    ℕ → Response → Database → Option ((List ℤ × Code) × Database)
unfolding unpack_signal put_closing_time
update_door_closing_time now [] db = some (([], no_err), db)
update_door_closing_time now (v ∷ response) db = elim (unpacked now (v ∷ response) (negsuc 0) db) [
  | none ↦ none
  | some (door_no, code) ↦ elim (is_no_err code) [
    | false ↦ some (([], code), db)
    | true ↦ elim (unpacked now (v ∷ response) (negsuc 1) db) [
      | none ↦ none
      | some (door_time, code') ↦ elim (is_no_err code') [
        | false ↦ some (([], code'), db)
        | true ↦ put_closing_time door_no door_time db
      ]
    ]
  ]
]
