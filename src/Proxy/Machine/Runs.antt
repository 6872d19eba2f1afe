-- ===== src/Proxy/Machine/Runs.antt =====
-- src/liftApi/lift_proxy.py: runs of any operations, from `create` on.
use mathlib.Core.Path.{subst}
use gateway_nexy.Base.{
  ◌≡◌, ◌⊎◌, inl, inr, refl, sym, ◌∙◌, ℕ, zero, suc, true, List, [], ◌∷◌, Bool-cases,
}
use gateway_nexy.Proxy.Devices.{LiftType, unknown, ahl, one_k, Devices}
use gateway_nexy.Proxy.Bind.{
  LiftProxy, identified, try_identify, identify_lift, probe_modbus, probe_rs232, reidentify_round,
  create, identify_times,
}
use gateway_nexy.Proxy.Machine.{
  Op, reidentify, poll, read, read_ar, write_ar, write, write_read, Bound, represent, exec, run,
  abstract_step, answer, identified_as, identify-represent, exec-represent,
}

-- `create` and then some operations.
abbrev pub lifetime : (d : Devices) → List Op → d.State → LiftProxy × d.State
lifetime d ops s = let (p, s') = create d s in run d ops p s'

-- An invariant of the abstract state and the devices, kept by every operation.
module _ (d : Devices) (Inv : Bound → d.State → Type 0)
    (step-Inv : (op : Op) (b : Bound) (s : d.State)
      → Inv b s
      → Inv (abstract_step d op b s) (exec d op (represent b) s).1) where
  step_type :
      (op : Op) (b : Bound) (s : d.State) → ((abstract_step d op b s).0 ≡ b.0) ⊎ (b.0 ≡ unknown)
  step_type reidentify (unknown, due) s = inr refl
  step_type reidentify (ahl, due) s = inl refl
  step_type reidentify (one_k, due) s = inl refl
  step_type (poll force) (unknown, due) s = inl refl
  step_type (poll force) (ahl, due) s = inl refl
  step_type (poll force) (one_k, due) s = inl refl
  step_type (read param) b s = inl refl
  step_type read_ar b s = inl refl
  step_type (write_ar value) b s = inl refl
  step_type (write param value) b s = inl refl
  step_type (write_read param value) b s = inl refl

  -- The proxy is one of the machine's, of the lift of `t` if that is known, and `Inv` holds.
  abbrev pub RunRule : LiftType → LiftProxy × d.State → Type 0
  RunRule t (p, s) = (b : Bound) × (p ≡ represent b) × Inv b s × ((b.0 ≡ t) ⊎ (t ≡ unknown))

  RunRule-earlier :
      (t t' : LiftType) (x : LiftProxy × d.State)
      → (t' ≡ t) ⊎ (t ≡ unknown)
      → RunRule t' x
      → RunRule t x
  RunRule-earlier t t' (p, s) (inr e) (b, e₁, inv, h) = (b, e₁, inv, inr e)
  RunRule-earlier t t' (p, s) (inl e) (b, e₁, inv, inl h) = (b, e₁, inv, inl (h ∙ e))
  RunRule-earlier t t' (p, s) (inl e) (b, e₁, inv, inr h) = (b, e₁, inv, inr (sym e ∙ h))

  pub run-RunRule :
      (ops : List Op) (b : Bound) (s : d.State) → Inv b s → RunRule b.0 (run d ops (represent b) s)
  unfolding run
  run-RunRule [] b s h = (b, refl, h, inl refl)
  run-RunRule (op ∷ ops) b s h =
      let b₁ = abstract_step d op b s in
      let s₁ = (exec d op (represent b) s).1 in
      RunRule-earlier b.0 b₁.0 (run d (op ∷ ops) (represent b) s) (step_type op b s) (
        subst (λ p. RunRule b₁.0 (run d ops p s₁)) (sym (exec-represent d op b s))
          (run-RunRule ops b₁ s₁ (step-Inv op b s h)))

  try_identify-RunRule :
      (b : Bound) (s : d.State)
      → Inv b s
      → let (_, p, s') = try_identify d (represent b) s in RunRule b.0 (p, s')
  unfolding try_identify identify_lift probe_modbus probe_rs232 reidentify_round exec
  try_identify-RunRule (unknown, due) s h = (
    identified_as (answer d s) (unknown, due),
    identify-represent d due s,
    step-Inv reidentify (unknown, due) s h,
    inr refl,
  )
  try_identify-RunRule (ahl, due) s h = ((ahl, due), refl, h, inl refl)
  try_identify-RunRule (one_k, due) s h = ((one_k, due), refl, h, inl refl)

  identify_times-RunRule :
      (n : ℕ) (b : Bound) (s : d.State) → Inv b s → RunRule b.0 (identify_times d n (represent b) s)
  unfolding identify_times
  identify_times-RunRule zero b s h = (b, refl, h, inl refl)
  identify_times-RunRule (suc n) b s h =
      let (found, p, s') = try_identify d (represent b) s in
      let tried = try_identify-RunRule b s h in
      elim (Bool-cases (identified d found)) [
        | inl e ↦ rw (e, identify_times) tried
        | inr e ↦
            let (b₁, same, inv, stays) = tried in
            rw (e, identify_times)
              (RunRule-earlier b.0 b₁.0 (identify_times d n p s') stays (
                subst (λ q. RunRule b₁.0 (identify_times d n q s')) (sym same)
                  (identify_times-RunRule n b₁ s' inv)))
      ]

  pub lifetime-RunRule :
      (ops : List Op) (s : d.State) → Inv (unknown, true) s → RunRule unknown (lifetime d ops s)
  unfolding create
  lifetime-RunRule ops s h =
      let (b, same, inv, _) = identify_times-RunRule 10 (unknown, true) s h in
      let (p, s') = create d s in
      RunRule-earlier unknown b.0 (run d ops p s') (inr refl)
        (subst (λ q. RunRule b.0 (run d ops q s')) (sym same) (run-RunRule ops b s' inv))

-- After `create` and any operations the proxy is unknown with both candidates, or bound to the handler
-- and the library of one lift type; and if it is bound, any further operations leave it bound to them.
pub lifetime-represent :
    (d : Devices) (ops more : List Op) (s : d.State)
    → let (p, s') = lifetime d ops s in
      let (p', s'') = run d more p s' in
      (b : Bound) × (b' : Bound) × (p ≡ represent b)
      × (p' ≡ represent b')
      × ((b'.0 ≡ b.0) ⊎ (b.0 ≡ unknown))
lifetime-represent d ops more s =
    let (p, s') = lifetime d ops s in
    let (b, same, _, _) = lifetime-RunRule d (λ b s. Unit) (λ op b s h. tt) ops s tt in
    let (b', same', _, stays) =
      subst (λ q. RunRule d (λ b s. Unit) (λ op b s h. tt) b.0 (run d more q s')) (sym same)
        (run-RunRule d (λ b s. Unit) (λ op b s h. tt) more b s' tt) in
    (b, b', same, same', stays)
