-- ===== src/Proxy/Devices.antt =====
-- What src/liftApi/lift_proxy.py uses of the two handlers and the two libraries.
use gateway_nexy.Base.{Bool, Option, List}
use gateway_nexy.Base.Int.{ℤ}
use gateway_nexy.Base.Text.{Text}
use gateway_nexy.Codes.{Code}
use gateway_nexy.Modbus.Registers.{Val}

-- `LiftType`
pub data LiftType : Type 0 where
  unknown ahl one_k : LiftType

-- The two handler objects and the two library objects.
pub data Handler : Type 0 where
  modbus_handler rs232_handler : Handler

pub data Library : Type 0 where
  ahl_lib thousand_lib : Library

-- What `get_generic_text` returns: the texts that were read, or a number or a message.
pub data TextReply : Type 0 where
  texts : List Text → TextReply
  other : Val → TextReply

-- The operations, on a state that holds the objects and the lift; `none` is an exception.
pub record Devices : Type 1 where
  pub State : Type 0
  pub read_parameter : Handler → List Text → State → Option (Val × Code) × State
  pub write_parameter : Handler → List Text → State → Option (ℤ × Code) × State
  pub close : Handler → State → State
  pub get_ar_version : State → Option Code × State
  pub get_generic_text : Text → State → Option (TextReply × Code) × State
  pub write_generic_text : List Text → State → Option (TextReply × Code) × State
  pub new_ahl_lib : State → State
  pub set_polling_table : Bool → State → State
  pub poll_lib : Library → Handler → Bool → State → Option (List ℤ) × State
  pub get_param : Library → ℤ → State → Val × Code
  pub set_param : Library → ℤ → Val → State → State
  pub default_on_change : Library → List ℤ
  pub default_daily : Library → List ℤ
