-- ===== src/Proxy/Machine/Due.antt =====
-- src/liftApi/lift_proxy.py: the pending full read, `_force_read_all`, over the runs of a proxy.
use mathlib.Core.Path.{subst}
use gateway_nexy.Base.{
  ◌≡◌, ◌⊎◌, inl, inr, refl, sym, Bool, true, false, not, ◌&&◌, ◌||◌, Option, none, some, List, [],
  ◌∷◌, arith,
}
use gateway_nexy.Base.Int.{ℤ}
use gateway_nexy.Proxy.Devices.{
  LiftType, unknown, ahl, one_k, modbus_handler, rs232_handler, ahl_lib, thousand_lib, Devices,
}
use gateway_nexy.Proxy.Bind.{is_unknown, reidentify_round}
use gateway_nexy.Proxy.Access.{read_param_live, read_ar_number, write_ar_number}
use gateway_nexy.Proxy.Polling.{poll_params, poll_bound}
use gateway_nexy.Proxy.Machine.{
  Op, reidentify, poll, read, read_ar, write_ar, write, write_read, Bound, represent, returns, exec,
  abstract_step, answer, identified_as,
}
use gateway_nexy.Proxy.Machine.Log.{
  Log, logged, any_returned, first_is_full, reidentify-log, write-log_bound, write_read-log_bound,
  poll_bound-log,
}
use gateway_nexy.Proxy.Machine.Runs.{lifetime, lifetime-RunRule}

-- A full read is due as long as no poll has returned, and while the lift is unknown.
abbrev Due : Bound → Log → Type 0
Due b log =
    (b.1 ≡ not (any_returned log))
    × (first_is_full log ≡ true)
    × ((is_unknown b.0 ≡ false) ⊎ (b.1 ≡ true))

poll-Due :
    (force due : Bool) (changed : Option (List ℤ)) (t : LiftType) (log : Log)
    → is_unknown t ≡ false
    → Due (t, due) log
    → Due (t, due && not (returns changed)) ((force || due, returns changed) ∷ log)
poll-Due force due none t log known h = (ground arith, ground arith, inl known)
poll-Due force due (some ps) t log known h = (ground arith, ground arith, inl known)

identified-Due :
    (t : LiftType) (due : Bool) (log : Log)
    → Due (unknown, due) log
    → Due (identified_as t (unknown, due)) log
identified-Due unknown due log h = h
identified-Due ahl due log h = (ground arith, h.1, inl refl)
identified-Due one_k due log h = (ground arith, h.1, inl refl)

module _ (d : Devices) where
  step-Due :
      (op : Op) (b : Bound) (s : d.State) (log : Log)
      → Due b log
      → Due (abstract_step (logged d) op b (s, log)) (exec (logged d) op (represent b) (s, log)).1.1
  unfolding exec reidentify_round poll_params poll_bound read_param_live read_ar_number
      write_ar_number
  step-Due reidentify (unknown, due) s log h =
      subst (Due (identified_as (answer (logged d) (s, log)) (unknown, due)))
        (sym (reidentify-log d due s log)) (identified-Due (answer (logged d) (s, log)) due log h)
  step-Due reidentify (ahl, due) s log h = h
  step-Due reidentify (one_k, due) s log h = h
  step-Due (poll force) (unknown, due) s log h = h
  step-Due (poll force) (ahl, due) s log h =
      let changed = (d.poll_lib ahl_lib modbus_handler (force || due) s).0 in
      subst (Due (ahl, due && not (returns changed)))
        (sym (poll_bound-log d ahl_lib modbus_handler force (represent (ahl, due)) s log))
        (poll-Due force due changed ahl log refl h)
  step-Due (poll force) (one_k, due) s log h =
      let changed = (d.poll_lib thousand_lib rs232_handler (force || due) s).0 in
      subst (Due (one_k, due && not (returns changed)))
        (sym (poll_bound-log d thousand_lib rs232_handler force (represent (one_k, due)) s log))
        (poll-Due force due changed one_k log refl h)
  step-Due (read param) (unknown, due) s log h = h
  step-Due (read param) (ahl, due) s log h = h
  step-Due (read param) (one_k, due) s log h = h
  step-Due read_ar (unknown, due) s log h = h
  step-Due read_ar (ahl, due) s log h = h
  step-Due read_ar (one_k, due) s log h = h
  step-Due (write_ar value) (unknown, due) s log h = h
  step-Due (write_ar value) (ahl, due) s log h = h
  step-Due (write_ar value) (one_k, due) s log h = h
  step-Due (write param value) b s log h =
      subst (Due b) (sym (write-log_bound d b param value s log)) h
  step-Due (write_read param value) b s log h =
      subst (Due b) (sym (write_read-log_bound d b param value s log)) h

-- After `create` and any operations, in any order and whatever the lift answers or raises, the polls
-- of a library up to the first one that returns ask for a full read.
pub lifetime-first_is_full :
    (d : Devices) (ops : List Op) (s : d.State)
    → first_is_full (lifetime (logged d) ops (s, [])).1.1 ≡ true
lifetime-first_is_full d ops s =
    let (_, _, due, _) =
      lifetime-RunRule (logged d) (λ b st. Due b st.1) (λ op b st. step-Due d op b st.0 st.1) ops
        (s, []) (refl, refl, inr refl) in
    due.1
