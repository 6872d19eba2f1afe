-- ===== src/Proxy/Machine/Log.antt =====
-- src/liftApi/lift_proxy.py: a log of the polls, and that only polls are logged.
use gateway_nexy.Base.{
  ◌≡◌, inl, inr, refl, ap, Bool, true, false, ◌&&◌, ◌||◌, Option, none, some, List, [], ◌∷◌,
  Bool-cases, Option-cases,
}
use gateway_nexy.Base.Int.{pos, eq_ℤ}
use gateway_nexy.Base.Text.{Text, text, int_of}
use gateway_nexy.Codes.{Code, is_no_err}
use gateway_nexy.Modbus.Registers.{Val}
use gateway_nexy.Proxy.Devices.{
  unknown, ahl, one_k, Handler, modbus_handler, rs232_handler, Library, Devices,
}
use gateway_nexy.Proxy.Bind.{
  LiftProxy, code_of, answered, polling_table_of, try_identify, identify_lift, probe_modbus,
  probe_rs232, detect_ahl_polling_table, bind, bind_ahl, bind_one_k, reidentify_round,
}
use gateway_nexy.Proxy.Access.{
  write_param, write_read_param, put_ahl, mirror_ahl_write_to_cache, keep_read_back, is_ahl,
}
use gateway_nexy.Proxy.Polling.{poll_bound}
use gateway_nexy.Proxy.Machine.{Bound, represent, returns}

-- The polls of a library, the last one first: whether a full read was asked for, and whether the poll
-- returned.
abbrev pub Log : Type 0
Log = List (Bool × Bool)

-- An operation beside a log.
abbrev beside {ℓ} : {A : Type ℓ} {S : Type 0} → (S → A × S) → S × Log → A × (S × Log)
beside f (s, log) = let (a, s') = f s in (a, (s', log))

-- The devices with a log of the polls in their state.
abbrev pub logged : Devices → Devices
logged d = record {
  State = d.State × Log;
  read_parameter = λ handler args. beside (d.read_parameter handler args);
  write_parameter = λ handler args. beside (d.write_parameter handler args);
  close = λ handler s. (d.close handler s.0, s.1);
  get_ar_version = beside d.get_ar_version;
  get_generic_text = λ name. beside (d.get_generic_text name);
  write_generic_text = λ args. beside (d.write_generic_text args);
  new_ahl_lib = λ s. (d.new_ahl_lib s.0, s.1);
  set_polling_table = λ b s. (d.set_polling_table b s.0, s.1);
  poll_lib = λ lib handler force s.
      (let (changed, s') = d.poll_lib lib handler force s.0 in
        (changed, (s', (force, returns changed) ∷ s.1)));
  get_param = λ lib param s. d.get_param lib param s.0;
  set_param = λ lib param value s. (d.set_param lib param value s.0, s.1);
  default_on_change = d.default_on_change;
  default_daily = d.default_daily;
}

-- A poll has returned.
abbrev pub any_returned : Log → Bool
any_returned [] = false
any_returned ((full, returned) ∷ older) = returned || any_returned older

-- Until one has returned, each poll asks for a full read.
abbrev pub first_is_full : Log → Bool
first_is_full [] = true
first_is_full ((full, returned) ∷ older) = (full || any_returned older) && first_is_full older

module _ (d : Devices) where
  put_ahl-log :
      (p : LiftProxy) (param : Text) (v : Option Val) (s : d.State) (log : Log)
      → (put_ahl (logged d) p param v (s, log)).1.1 ≡ log
  unfolding put_ahl
  put_ahl-log p param v s log = elim (Bool-cases (is_ahl p.lift_type)) [
    | inr e ↦ rw (e, put_ahl) refl
    | inl e ↦ elim (Option-cases p.lib) [
      | inl e₁ ↦ rw (e, put_ahl, e₁) refl
      | inr (lib, e₁) ↦ elim (Option-cases (int_of param)) [
        | inl e₂ ↦ rw (e, put_ahl, e₁, e₂) refl
        | inr (n, e₂) ↦ elim (Option-cases v) [
          | inl e₃ ↦ rw (e, put_ahl, e₁, e₂, e₃) refl
          | inr (x, e₃) ↦ rw (e, put_ahl, e₁, e₂, e₃) refl
        ]
      ]
    ]
  ]

  pub reidentify-log :
      (due : Bool) (s : d.State) (log : Log)
      → (reidentify_round (logged d) (represent (unknown, due)) (s, log)).2.1 ≡ log
  unfolding reidentify_round try_identify identify_lift probe_modbus probe_rs232 bind bind_ahl
      bind_one_k detect_ahl_polling_table
  reidentify-log due s log =
      let (version, s₁) = d.read_parameter modbus_handler (text "77" ∷ []) s in
      let (probe, s₂) = d.read_parameter modbus_handler (text "127" ∷ []) (d.new_ahl_lib s₁) in
      let (ar_version, s₃) = d.get_ar_version s₁ in
      elim (Bool-cases (answered (code_of version))) [
        | inl e ↦ elim (Option-cases (polling_table_of (code_of probe))) [
          | inl e₁ ↦ rw (e, probe_modbus, detect_ahl_polling_table, e₁) refl
          | inr (new_table, e₁) ↦ rw (e, probe_modbus, detect_ahl_polling_table, e₁) refl
        ]
        | inr e ↦ elim (Bool-cases (answered ar_version)) [
          | inl e₁ ↦ rw (e, e₁, reidentify_round) refl
          | inr e₁ ↦ rw (e, e₁, reidentify_round) refl
        ]
      ]

  write-log :
      (h : Handler) (p : LiftProxy) (param value : Text) (s : d.State) (log : Log)
      → p.handler ≡ some h
      → (write_param (logged d) p param value (s, log)).1.1 ≡ log
  unfolding write_param mirror_ahl_write_to_cache
  write-log h p param value s log e =
      elim (Option-cases (d.write_parameter h (param ∷ value ∷ []) s).0) [
        | inl e₁ ↦ rw (e, write_param, e₁) refl
        | inr ((status, code), e₁) ↦ elim (Bool-cases (eq_ℤ status (pos 0))) [
          | inl e₂ ↦
              rw (e, write_param, e₁, e₂, mirror_ahl_write_to_cache) (put_ahl-log p param _ _ log)
          | inr e₂ ↦ rw (e, write_param, e₁, e₂) refl
        ]
      ]

  keep_read_back-log :
      (p : LiftProxy) (param : Text) (reply : Option (Val × Code)) (s : d.State) (log : Log)
      → (keep_read_back (logged d) p param reply (s, log)).1.1 ≡ log
  unfolding keep_read_back
  keep_read_back-log p param none s log = refl
  keep_read_back-log p param (some (value, code)) s log = elim (Bool-cases (is_no_err code)) [
    | inl e ↦ rw (e, keep_read_back) (put_ahl-log p param (some value) s log)
    | inr e ↦ rw (e, keep_read_back) refl
  ]

  write_read-log :
      (h : Handler) (p : LiftProxy) (param value : Text) (s : d.State) (log : Log)
      → p.handler ≡ some h
      → (write_read_param (logged d) p param value (s, log)).1.1 ≡ log
  unfolding write_read_param
  write_read-log h p param value s log e =
      elim (Option-cases (d.write_parameter h (param ∷ value ∷ []) s).0) [
        | inl e₁ ↦ rw (e, write_read_param, e₁) refl
        | inr ((status, code), e₁) ↦ elim (Bool-cases (eq_ℤ status (pos 0))) [
          | inl e₂ ↦ rw (e, write_read_param, e₁, e₂) (keep_read_back-log p param _ _ log)
          | inr e₂ ↦ rw (e, write_read_param, e₁, e₂) refl
        ]
      ]

  pub write-log_bound :
      (b : Bound) (param value : Text) (s : d.State) (log : Log)
      → (write_param (logged d) (represent b) param value (s, log)).1.1 ≡ log
  unfolding write_param
  write-log_bound (unknown, due) param value s log = refl
  write-log_bound (ahl, due) param value s log =
      write-log modbus_handler (represent (ahl, due)) param value s log refl
  write-log_bound (one_k, due) param value s log =
      write-log rs232_handler (represent (one_k, due)) param value s log refl

  pub write_read-log_bound :
      (b : Bound) (param value : Text) (s : d.State) (log : Log)
      → (write_read_param (logged d) (represent b) param value (s, log)).1.1 ≡ log
  unfolding write_read_param
  write_read-log_bound (unknown, due) param value s log = refl
  write_read-log_bound (ahl, due) param value s log =
      write_read-log modbus_handler (represent (ahl, due)) param value s log refl
  write_read-log_bound (one_k, due) param value s log =
      write_read-log rs232_handler (represent (one_k, due)) param value s log refl

  pub poll_bound-log :
      (lib : Library) (handler : Handler) (force : Bool) (p : LiftProxy) (s : d.State) (log : Log)
      → (poll_bound (logged d) lib handler force p (s, log)).2.1
        ≡ (
          force || p.force_read_all,
          returns (d.poll_lib lib handler (force || p.force_read_all) s).0,
        )
          ∷ log
  unfolding poll_bound
  poll_bound-log lib handler force p s log =
      elim (Option-cases (d.poll_lib lib handler (force || p.force_read_all) s).0) [
        | inl e ↦ rw (e, poll_bound) (ap (λ o. (force || p.force_read_all, returns o) ∷ log) e)
        | inr (ps, e) ↦
            rw (e, poll_bound) (ap (λ o. (force || p.force_read_all, returns o) ∷ log) e)
      ]
