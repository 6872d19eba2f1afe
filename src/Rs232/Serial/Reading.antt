-- ===== src/Rs232/Serial/Reading.antt =====
-- src/liftApi/rs232_handler.py: `read_serial` comes to an end.
use Prim.{Unit, tt}
use gateway_nexy.Base.{
  ℕ, zero, suc, ◌+◌, ◌-◌, ◌<◌, ◌≤◌, Bool, true, false, not, ◌&&◌, Option, none, some, [], ◌∷◌, ◌++◌,
  ◌≡◌, ◌≢◌, arith, ltb, Bool-cases, inl, inr, if◌then◌else◌,
}
use mathlib.Core.Path.{subst}
use gateway_nexy.Base.Text.{Text}
use gateway_nexy.Codes.{serial_com_err}
use gateway_nexy.Rs232.Port.{Port, Rs232, failed, Waiting, bytes, serial_exception, decode_error}
use gateway_nexy.Rs232.Serial.{
  read_rounds, read_serial, ends_frame, nr_retries, Reading, keep_reading, read_more,
}

-- A clock: reading does not turn it back, and sleeping moves it on.
pub record IsClock (p : Port) : Type 0 where
  pub read_le : (s : p.State) → p.now s ≤ p.now (p.read s).1
  pub sleep_lt : (s : p.State) → p.now s < p.now (p.sleep s)

-- The loop has come to its end.
abbrev IsDoneResult : {A : Type 0} → Option A → Type 0
IsDoneResult none = ⊥
IsDoneResult (some result) = Unit {0}

abbrev IsDone : {A B : Type 0} → Option A × B → Type 0
IsDone x = IsDoneResult x.0

IsDone-if :
    {A B : Type 0} (b : Bool) (x y : Option A × B)
    → IsDone x
    → IsDone y
    → IsDone (if b then x else y)
IsDone-if true x y hx hy = hx
IsDone-if false x y hx hy = hy

later : (t a b : ℕ) → t ≤ a → a < b → t < b
later t a b h h' = omega arith

less_fuel : (deadline a b fuel : ℕ) → deadline ≤ a + suc fuel → a < b → deadline ≤ b + fuel
less_fuel deadline a b fuel h h' = omega arith

out_of_time :
    (i a deadline : ℕ) → deadline ≤ a + 0 → (ltb i nr_retries && ltb a deadline) ≡ true → ⊥
out_of_time i a deadline h e = ground arith

module _ (p : Port) (clock : IsClock p) where
  open p use {State, now, read, sleep}

  -- With the tries used up nothing more is read.
  last_round :
      (fuel deadline : ℕ) (rsp : Text) (i : ℕ) (s : State)
      → ltb i nr_retries ≡ false
      → IsDone (read_rounds p (suc fuel) deadline rsp i s)
  unfolding read_rounds
  last_round fuel deadline rsp i s h = rw h tt

  -- The loop goes on from a later time, or with the tries used up.
  keep_reading-IsDone :
      (continue : Reading p) (t : ℕ) (rsp : Text) (i : ℕ) (more : Text) (s : State)
      → t ≤ now s
      → ((rsp' : Text) (i' : ℕ) (s' : State) → t < now s' → IsDone (continue rsp' i' s'))
      → ((rsp' : Text) (i' : ℕ) (s' : State)
          → ltb i' nr_retries ≡ false
          → IsDone (continue rsp' i' s'))
      → IsDone (keep_reading p continue rsp i more s)
  keep_reading-IsDone continue t rsp i (c ∷ more) s ht h hl =
      h (rsp ++ (c ∷ more)) 0 (sleep s) (later t (now s) (now (sleep s)) ht (clock.sleep_lt s))
  keep_reading-IsDone continue t rsp i [] s ht h hl = elim (Bool-cases (ltb (suc i) nr_retries)) [
    | inl e ↦ rw e (h rsp (suc i) (sleep s) (later t (now s) (now (sleep s)) ht (clock.sleep_lt s)))
    | inr e ↦ rw e (hl rsp (suc i) s e)
  ]

  read_more-IsDone :
      (continue : Reading p) (t : ℕ) (rsp : Text) (i : ℕ) (waiting : Waiting) (s : State)
      → t ≤ now s
      → ((rsp' : Text) (i' : ℕ) (s' : State) → t < now s' → IsDone (continue rsp' i' s'))
      → ((rsp' : Text) (i' : ℕ) (s' : State)
          → ltb i' nr_retries ≡ false
          → IsDone (continue rsp' i' s'))
      → IsDone (read_more p continue rsp i waiting s)
  unfolding read_more
  read_more-IsDone continue t rsp i serial_exception s ht h hl = tt
  read_more-IsDone continue t rsp i decode_error s ht h hl = tt
  read_more-IsDone continue t rsp i (bytes more) s ht h hl =
      elim (Bool-cases (ends_frame (rsp ++ more))) [
        | inl e ↦ rw e tt
        | inr e ↦ rw e (keep_reading-IsDone continue t rsp i more s ht h hl)
      ]

  read_rounds-IsDone :
      (fuel deadline : ℕ) (rsp : Text) (i : ℕ) (s : State)
      → deadline ≤ now s + fuel
      → IsDone (read_rounds p (suc fuel) deadline rsp i s)
  unfolding read_rounds
  read_rounds-IsDone zero deadline rsp i s h =
      elim (Bool-cases (ltb i nr_retries && ltb (now s) deadline)) [
        | inl e ↦ absurd (out_of_time i (now s) deadline h e)
        | inr e ↦ rw e tt
      ]
  read_rounds-IsDone (suc fuel) deadline rsp i s h =
      elim (Bool-cases (ltb i nr_retries && ltb (now s) deadline)) [
        | inl e ↦ rw e (
            read_more-IsDone (read_rounds p (suc fuel) deadline) (now s) rsp i (read s).0 (read s).1
              (clock.read_le s)
              (λ rsp' i' s' hs.
                read_rounds-IsDone fuel deadline rsp' i' s'
                  (less_fuel deadline (now s) (now s') fuel h hs))
              (λ rsp' i' s' hl. last_round fuel deadline rsp' i' s' hl))
        | inr e ↦ rw e tt
      ]

  read_serial-IsDone : (deadline : ℕ) (r : Rs232 State) → IsDone (read_serial p deadline r)
  unfolding read_serial
  read_serial-IsDone deadline r =
      IsDone-if (not r.available) (some (failed serial_com_err), r)
        (
          (read_rounds p (suc (deadline - now r.port)) deadline [] 0 r.port).0,
          record r { port = (read_rounds p (suc (deadline - now r.port)) deadline [] 0 r.port).1 },
        )
        tt (read_rounds-IsDone (deadline - now r.port) deadline [] 0 r.port (omega arith))

  -- `read_serial` comes to an end and does not raise, whatever arrives: every round of its loop
  -- either is the last or sleeps, and the time that is left is enough fuel. The clock moves on while
  -- the handler sleeps and never runs back.
  pub read_serial_returns : (deadline : ℕ) (r : Rs232 State) → (read_serial p deadline r).0 ≢ none
  read_serial_returns deadline r h = subst IsDoneResult h (read_serial-IsDone deadline r)
