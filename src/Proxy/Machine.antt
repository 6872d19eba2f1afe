-- ===== src/Proxy/Machine.antt =====
-- src/liftApi/lift_proxy.py: any sequence of operations on a proxy, and the machine it implements.
pub mod Log
pub mod Runs
pub mod Due
use gateway_nexy.Base.{
  ◌≡◌, ◌⊎◌, inl, inr, refl, ℕ, zero, suc, Bool, true, false, not, ◌&&◌, ◌||◌, Option, none, some,
  List, [], ◌∷◌, Bool-cases, Option-cases, if◌then◌else◌,
}
use gateway_nexy.Base.Int.{ℤ}
use gateway_nexy.Base.Text.{Text, text}
use gateway_nexy.Proxy.Devices.{
  LiftType, unknown, ahl, one_k, Handler, modbus_handler, rs232_handler, Library, ahl_lib,
  thousand_lib, Devices,
}
use gateway_nexy.Proxy.Bind.{
  LiftProxy, is_unknown, code_of, answered, polling_table_of, try_identify, identify_lift,
  probe_modbus, probe_rs232, detect_ahl_polling_table, bind, bind_ahl, bind_one_k, reidentify_round,
}
use gateway_nexy.Proxy.Access.{
  read_param_live, read_ar_number, write_ar_number, write_param, write_read_param,
}
use gateway_nexy.Proxy.Polling.{poll_params, poll_bound}

-- What may be done with a proxy.
pub data Op : Type 0 where
  reidentify : Op
  poll : Bool → Op
  read : ℤ → Op
  read_ar : Op
  write_ar : Text → Op
  write write_read : Text → Text → Op

-- The abstract state: the type of the lift, and whether a full read is due.
abbrev pub Bound : Type 0
Bound = LiftType × Bool

-- The proxy of an abstract state: a handler and its library together, or none of the two.
abbrev pub represent : Bound → LiftProxy
represent (unknown, due) = record {
  handler = none;
  lib = none;
  lift_type = unknown;
  force_read_all = due;
  modbus = some modbus_handler;
  rs232 = some rs232_handler;
  thousand = some thousand_lib;
}
represent (ahl, due) = record {
  handler = some modbus_handler;
  lib = some ahl_lib;
  lift_type = ahl;
  force_read_all = due;
  modbus = none;
  rs232 = none;
  thousand = none;
}
represent (one_k, due) = record {
  handler = some rs232_handler;
  lib = some thousand_lib;
  lift_type = one_k;
  force_read_all = due;
  modbus = none;
  rs232 = none;
  thousand = none;
}

abbrev pub library_of : LiftType → Option (Library × Handler)
library_of unknown = none
library_of ahl = some (ahl_lib, modbus_handler)
library_of one_k = some (thousand_lib, rs232_handler)

abbrev pub returns {ℓ} : {A : Type ℓ} → Option A → Bool
returns none = false
returns (some a) = true

-- After an identification a full read is due; without one nothing changes.
abbrev pub identified_as : LiftType → Bound → Bound
identified_as unknown b = b
identified_as ahl b = (ahl, true)
identified_as one_k b = (one_k, true)

and_true : (b : Bool) → (b && true) ≡ b
and_true true = refl
and_true false = refl

and_false : (b : Bool) → (b && false) ≡ false
and_false true = refl
and_false false = refl

module _ (d : Devices) where
  open d use {State, read_parameter, get_ar_version, new_ahl_lib, poll_lib}

  -- One operation on the proxy.
  unfoldable pub exec : Op → LiftProxy → State → LiftProxy × State
  unfolding reidentify_round poll_params read_param_live read_ar_number write_ar_number write_param
      write_read_param
  exec reidentify p s = let (_, p', s') = reidentify_round d p s in (p', s')
  exec (poll force) p s = let (_, p', s') = poll_params d force p s in (p', s')
  exec (read param) p s = (p, (read_param_live d p param s).1)
  exec read_ar p s = (p, (read_ar_number d p s).1)
  exec (write_ar value) p s = (p, (write_ar_number d p value s).1)
  exec (write param value) p s = (p, (write_param d p param value s).1)
  exec (write_read param value) p s = (p, (write_read_param d p param value s).1)

  unfoldable pub run : List Op → LiftProxy → State → LiftProxy × State
  unfolding exec
  run [] p s = (p, s)
  run (op ∷ ops) p s = let (p', s') = exec op p s in run ops p' s'

  -- The type that the lift's answers tell: AHL where the Modbus read of parameter 77 has no error
  -- and that of 127 tells the firmware, 1k where 77 has an error and the AR version has none.
  abbrev pub answer : State → LiftType
  answer s =
      let (version, s₁) = read_parameter modbus_handler (text "77" ∷ []) s in
      let (probe, s₂) = read_parameter modbus_handler (text "127" ∷ []) (new_ahl_lib s₁) in
      let (ar_version, s₃) = get_ar_version s₁ in
      if answered (code_of version)
      then (if returns (polling_table_of (code_of probe)) then ahl else unknown)
      else if answered ar_version
      then one_k
      else unknown

  -- One operation on the abstract state, with the state of the devices before it.
  abbrev pub abstract_step : Op → Bound → State → Bound
  abstract_step reidentify b s = if is_unknown b.0 then identified_as (answer s) b else b
  abstract_step (poll force) b s = elim (library_of b.0) [
    | none ↦ b
    | some (lib, handler) ↦
        let (changed, _) = poll_lib lib handler (force || b.1) s in
        (b.0, b.1 && not (returns changed))
  ]
  abstract_step _ b s = b

  pub identify-represent :
      (due : Bool) (s : State)
      → (reidentify_round d (represent (unknown, due)) s).1
        ≡ represent (identified_as (answer s) (unknown, due))
  unfolding reidentify_round try_identify identify_lift probe_modbus probe_rs232 bind bind_ahl
      bind_one_k detect_ahl_polling_table
  identify-represent due s =
      let (version, s₁) = read_parameter modbus_handler (text "77" ∷ []) s in
      let (probe, s₂) = read_parameter modbus_handler (text "127" ∷ []) (new_ahl_lib s₁) in
      let (ar_version, s₃) = get_ar_version s₁ in
      elim (Bool-cases (answered (code_of version))) [
        | inl e ↦ elim (Option-cases (polling_table_of (code_of probe))) [
          | inl e₁ ↦ rw (e, probe_modbus, detect_ahl_polling_table, e₁) refl
          | inr (new_table, e₁) ↦ rw (e, probe_modbus, detect_ahl_polling_table, e₁) refl
        ]
        | inr e ↦ elim (Bool-cases (answered ar_version)) [
          | inl e₁ ↦ rw (e, e₁, reidentify_round) refl
          | inr e₁ ↦ rw (e, e₁, reidentify_round) refl
        ]
      ]

  poll-represent :
      (force due : Bool) (t : LiftType) (s : State)
      → (poll_params d force (represent (t, due)) s).1
        ≡ represent (abstract_step (poll force) (t, due) s)
  unfolding poll_params poll_bound
  poll-represent force due unknown s = refl
  poll-represent force due ahl s =
      elim (Option-cases (poll_lib ahl_lib modbus_handler (force || due) s).0) [
        | inl e ↦ rw (e, poll_bound, and_true due) refl
        | inr (ps, e) ↦ rw (e, poll_bound, and_false due) refl
      ]
  poll-represent force due one_k s =
      elim (Option-cases (poll_lib thousand_lib rs232_handler (force || due) s).0) [
        | inl e ↦ rw (e, poll_bound, and_true due) refl
        | inr (ps, e) ↦ rw (e, poll_bound, and_false due) refl
      ]

  -- An operation on the proxy of an abstract state leaves the proxy of the abstract state after the
  -- same step. So an unknown lift is bound to the type that its answers tell, with a full read due; a
  -- bound one stays as it is; and only a poll that returns clears the full read.
  pub exec-represent :
      (op : Op) (b : Bound) (s : State)
      → (exec op (represent b) s).0 ≡ represent (abstract_step op b s)
  unfolding exec reidentify_round
  exec-represent reidentify (unknown, due) s = identify-represent due s
  exec-represent reidentify (ahl, due) s = refl
  exec-represent reidentify (one_k, due) s = refl
  exec-represent (poll force) (t, due) s = poll-represent force due t s
  exec-represent (read param) b s = refl
  exec-represent read_ar b s = refl
  exec-represent (write_ar value) b s = refl
  exec-represent (write param value) b s = refl
  exec-represent (write_read param value) b s = refl
