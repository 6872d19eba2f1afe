-- ===== src/Thousand/Vfd.antt =====
-- src/lib/thousand_lib.py: the motor data of the frequency converter, and the default lists. `none` is
-- an exception.
use gateway_nexy.Base.{
  ℕ, zero, suc, ◌-◌, Option, none, some, List, [], ◌∷◌, ◌++◌, ltb, length, get_elem?, if◌then◌else◌,
}
use gateway_nexy.Base.Int.{ℤ, pos, negsuc, sub_ℕ, shl, eq_ℤ}
use gateway_nexy.Base.Bits.{◌|ℤ◌}
use gateway_nexy.Base.IntDict.{lookup}
use gateway_nexy.Base.Text.{Text, int_of_16}
use gateway_nexy.Codes.{Code, no_err, vfd_id_err}
use gateway_nexy.Modbus.Registers.{int}
use gateway_nexy.Thousand.Signals.{Signal}
use gateway_nexy.Thousand.Protocol.{Database}
use gateway_nexy.Thousand.Poll.{split_at}
use gateway_nexy.Thousand.Doors.{put_value}

-- `data_list[i]`, where -1 is the last item; `none` is an `IndexError`.
abbrev item_at : List Text → ℤ → Option Text
item_at items (pos i) = get_elem? items i
item_at items (negsuc i) =
    if ltb i (length items) then get_elem? items (length items - 1 - i) else none

-- The loop of `__unpack_vfdResult_data` from an index on, with the rounds left.
unfoldable pub vfd_from : List Text → ℕ → ℕ → ℤ → Option ℤ
unfolding int_of_16 ◌|ℤ◌
vfd_from data_list start zero data_out = some data_out
vfd_from data_list start (suc n) data_out = elim (item_at data_list (sub_ℕ start 1)) [
  | none ↦ none
  | some item ↦ elim (int_of_16 item) [
    | none ↦ none
    | some v ↦ vfd_from data_list (suc start) n (shl data_out 8 |ℤ v)
  ]
]

-- `__unpack_vfdResult_data`
unfoldable pub unpack_vfd_result_data : Signal → Text → Option ℤ
unfolding split_at vfd_from
unpack_vfd_result_data signal vfd_data =
    vfd_from (split_at b',' vfd_data) signal.byte_start signal.byte_size (pos 0)

-- The parameter of an id.
unfoldable pub vfd_param : ℤ → Option ℤ
vfd_param id =
    if eq_ℤ id (pos 0)
    then some (pos 169)
    else if eq_ℤ id (pos 1)
    then some (pos 170)
    else if eq_ℤ id (pos 2)
    then some (pos 171)
    else if eq_ℤ id (pos 3)
    then some (pos 172)
    else none

-- `self.database[p].value = self.__unpack_vfdResult_data(self.database[p], data)`
unfoldable pub put_vfd : ℤ → Text → Database → Option ((List ℤ × Code) × Database)
unfolding unpack_vfd_result_data
put_vfd p vfd_data db = elim (lookup p db) [
  | none ↦ none
  | some signal ↦ elim (unpack_vfd_result_data signal vfd_data) [
    | none ↦ none
    | some v ↦ elim (put_value p (int v) db) [
      | none ↦ none
      | some db' ↦ some ((p ∷ [], no_err), db')
    ]
  ]
]

-- `update_vfd_params`, with the id and the data of the response.
unfoldable pub update_vfd_params : ℤ → Text → Database → Option ((List ℤ × Code) × Database)
unfolding vfd_param put_vfd
update_vfd_params id vfd_data db = elim (vfd_param id) [
  | none ↦ some (([], vfd_id_err), db)
  | some p ↦ put_vfd p vfd_data db
]

abbrev range_of : ℕ → ℕ → List ℤ
range_of start zero = []
range_of start (suc n) = pos start ∷ range_of (suc start) n

-- `DEFAULT_ON_CHANGE_PARAMS`
unfoldable pub thousand_on_change_params : List ℤ
thousand_on_change_params =
    range_of 10 2
    ++ (range_of 46 10
        ++ (range_of 58 8 ++ (range_of 97 47 ++ (pos 145 ∷ (range_of 152 3 ++ range_of 161 8)))))

-- `DEFAULT_DAILY_PARAMS`
unfoldable pub thousand_daily_params : List ℤ
thousand_daily_params = pos 66 ∷ pos 67 ∷ range_of 173 9
