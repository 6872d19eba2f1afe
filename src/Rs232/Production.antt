-- ===== src/Rs232/Production.antt =====
-- src/liftApi/rs232_handler.py: the parameters for the production test.
use gateway_nexy.Base.{Bool, true, false, some, List, [], ◌∷◌, if◌then◌else◌}
use gateway_nexy.Base.Int.{ℤ, pos}
use gateway_nexy.Base.Json.{
  Json, number, string, array, object, Jsons, nil, cons, Fields, no_fields, field,
}
use gateway_nexy.Base.Text.{Text, text}
use gateway_nexy.Codes.{Code}
use gateway_nexy.Modbus.Registers.{Val, str, int}
use gateway_nexy.Thousand.Protocol.{Database}
use gateway_nexy.Thousand.Lookup.{get_param}
use gateway_nexy.Rs232.Port.{Port, Method, ◌>>=◌}
use gateway_nexy.Rs232.Poll.{poll_lift}

abbrev val_json : Val → Json
val_json (int z) = number z
val_json (str s) = string s

unfoldable read_json : Database → ℤ → Json
unfolding get_param
read_json db q = val_json (get_param db q).0

abbrev read_doors : Database → List ℤ → Jsons
unfolding read_json
read_doors db [] = nil
read_doors db (q ∷ qs) = cons (read_json db q) (read_doors db qs)

-- A parameter by its name, and what follows.
abbrev with_param : Database → Text → ℤ → Fields → Fields
unfolding read_json
with_param db name q fields = field name (read_json db q) fields

-- `prodLoadParaValue` after the loop.
unfoldable pub prod_load_para_value : Database → Fields
unfolding read_doors with_param
prod_load_para_value db = with_param db (text "liftRef1") (pos 0) (
    with_param db (text "liftRef2") (pos 1) (
      with_param db (text "freqControl") (pos 112) (
        with_param db (text "lock") (pos 114) (
          with_param db (text "platformLight") (pos 120) (
            with_param db (text "oilSystem") (pos 115) (
              field (text "doubleDoors")
                (array (
                  read_doors db
                    (pos 138 ∷ (pos 139 ∷ (pos 140 ∷ (pos 141 ∷ (pos 142 ∷ (pos 143 ∷ []))))))))
                (with_param db (text "aGateU16") (pos 124)
                  (with_param db (text "emergencyLightTest") (pos 125) no_fields))))))))

abbrev was_polled : Code → Bool
was_polled Code.no_err = true
was_polled Code.partial_err = true
was_polled _ = false

module _ (p : Port) where
  open p use {State, dumps}

  abbrev prod_reply : Code → Method State Text
  unfolding prod_load_para_value
  prod_reply code r = (
    some (
        if was_polled code
        then dumps (object (prod_load_para_value r.lib.database))
        else text "error"),
    r,
  )

  -- `get_and_save_prod_loader_params`, of a new handler.
  unfoldable pub get_and_save_prod_loader_params : Method State Text
  unfolding poll_lift prod_reply
  get_and_save_prod_loader_params = poll_lift p (text "1" ∷ []) >>= λ (reply, code). prod_reply code
