-- ===== src/Thousand/Doors/Totals.antt =====
-- src/lib/thousand_lib.py: the totals of the door open counters over one recalculation.
use mathlib.Core.Path.{subst}
use gateway_nexy.Base.{
  ◌≡◌, refl, sym, ◌∙◌, ◌⊎◌, inl, inr, ℕ, Bool, true, false, ◌||◌, Option, none, some, List, [], ◌∷◌,
  arith, Bool-cases, Option-cases,
}
use gateway_nexy.Base.Int.{ℤ, pos, eq_ℤ, ◌≤ℤ◌, ◌+ℤ◌, +ℤ_parts}
use gateway_nexy.Base.IntDict.{lookup, eq_ℤ-eq}
use gateway_nexy.Base.Text.{Text, int_of}
use gateway_nexy.Base.Text.Decimal.{int_of-str_nat}
use gateway_nexy.Codes.{Code, is_no_err}
use gateway_nexy.Modbus.Registers.{Val, int}
use gateway_nexy.Thousand.Signals.{
  SignalType, Signal, Response, validate_bytes, unpack_uint, unpack_checked, unpack_signal,
}
use gateway_nexy.Thousand.Packages.{params_door_open_count}
use gateway_nexy.Thousand.Protocol.{Database}
use gateway_nexy.Thousand.Lookup.{ThousandLib, store}
use gateway_nexy.Thousand.Updates.Rounds.{store-Reported_self, store-Reported_other}
use gateway_nexy.Thousand.Doors.{
  DoorRound, restarted, next_previous, next_total, with_counter, recalculate,
  door_open_count_recalculate,
}

le-+ℤ : (n : ℕ) (a : ℤ) → a ≤ℤ (pos n +ℤ a)
le-+ℤ n a = let parts = +ℤ_parts (pos n) a in omega arith

-- After a reading of n the total is at least what it was, and at least what was added to n.
next_total_ge :
    (n : ℕ) (previous total : ℤ)
    → (total ≤ℤ next_total (pos n) previous total)
      × (next_previous (pos n) previous total ≤ℤ next_total (pos n) previous total)
next_total_ge n previous total = elim (Bool-cases (restarted (pos n) previous total)) [
  | inl e ↦ rw e (le-+ℤ n total, le-+ℤ n total)
  | inr e ↦ rw e (ground arith, le-+ℤ n previous)
]

-- Each number of the first list is at most the one of the second list.
abbrev pub AllLe : List ℤ → List ℤ → Type 0
AllLe [] [] = Unit
AllLe [] (b ∷ ys) = ⊥
AllLe (a ∷ xs) [] = ⊥
AllLe (a ∷ xs) (b ∷ ys) = (a ≤ℤ b) × AllLe xs ys

AllLe-refl : (xs : List ℤ) → AllLe xs xs
AllLe-refl [] = tt
AllLe-refl (a ∷ xs) = (omega arith, AllLe-refl xs)

-- The parameter has a signal of the kind `uint`.
abbrev pub IsUint : Database → ℤ → Type 0
IsUint db p = (s : Signal) × (lookup p db ≡ some s) × (s.signal_type ≡ SignalType.uint)

abbrev pub AreUints : Database → List ℤ → Type 0
AreUints db [] = Unit
AreUints db (p ∷ ps) = IsUint db p × AreUints db ps

module _ (p : ℤ) (v : Val) (s : Signal) (db : Database) (found : lookup p db ≡ some s) where
  IsUint-store_self : IsUint db p → IsUint (store p v s db).1 p
  IsUint-store_self (t, at_p, kind) = elim (store-Reported_self p v s db found) [
    | inr (_, as_before) ↦ (t, as_before ∙ at_p, kind)
    | inl (_, s', v', was, _, now_is) ↦ (record s' { value = v' }, now_is, cc)
  ]

  IsUint-store : (k : ℤ) → IsUint db k → IsUint (store p v s db).1 k
  IsUint-store k (t, at_k, kind) = elim (Bool-cases (eq_ℤ k p)) [
    | inr other ↦ (t, (store-Reported_other p v s db found k other).1 ∙ at_k, kind)
    | inl same ↦
        let e = eq_ℤ-eq k p same in
        subst (IsUint (store p v s db).1) (sym e)
          (IsUint-store_self (subst (IsUint db) e (t, at_k, kind)))
  ]

  AreUints-store : (ks : List ℤ) → AreUints db ks → AreUints (store p v s db).1 ks
  AreUints-store [] h = tt
  AreUints-store (k ∷ ks) (h, hs) = (IsUint-store k h, AreUints-store ks hs)

-- What unpacking a `uint` can give.
abbrev UintRule : Option (Text × Code) → Type 0
UintRule none = Unit
UintRule (some (value, code)) =
    (is_no_err code ≡ false) ⊎ (n : ℕ) × (is_no_err code ≡ true) × (int_of value ≡ some (pos n))

unpack_signal-UintRule :
    (now : ℕ) (s : Signal) (response : Response)
    → s.signal_type ≡ SignalType.uint
    → UintRule (unpack_signal now s response)
unfolding unpack_signal unpack_checked
unpack_signal-UintRule now s response kind = elim (Bool-cases (validate_bytes s response)) [
  | inr bad ↦ rw (kind, unpack_signal, bad) (inl refl)
  | inl good ↦ elim (Option-cases (unpack_uint s response)) [
    | inl e ↦ rw (kind, unpack_signal, good, e) tt
    | inr (n, e) ↦ rw (kind, unpack_signal, good, e) (inr (n, refl, int_of-str_nat n))
  ]
]

abbrev TotalsRule : List ℤ → Option DoorRound → Type 0
TotalsRule totals none = Unit
TotalsRule totals (some (result, (previous', totals', reset), db)) =
    AllLe previous' totals' × AllLe totals totals'

with_counter-TotalsRule :
    (previous total total' : ℤ) (totals changed : List ℤ) (later : Option DoorRound)
    → total ≤ℤ total'
    → previous ≤ℤ total'
    → TotalsRule totals later
    → TotalsRule (total ∷ totals) (with_counter previous total' changed later)
with_counter-TotalsRule previous total total' totals changed none h h' rest = tt
with_counter-TotalsRule previous total total' totals changed
      (some ((changed', code), (previous', totals', reset), db)) h h' rest =
    ((h', rest.0), (h, rest.1))

module _ (now : ℕ) (response : Response) where
  recalculate-TotalsRule :
      (ps previouses totals : List ℤ) (reset : Bool) (db : Database)
      → AreUints db ps
      → AllLe previouses totals
      → TotalsRule totals (recalculate now response ps (previouses, totals, reset) db)
  unfolding recalculate
  recalculate-TotalsRule [] previouses totals reset db h le = (le, AllLe-refl totals)
  recalculate-TotalsRule (p ∷ ps) [] totals reset db h le = tt
  recalculate-TotalsRule (p ∷ ps) (previous ∷ previouses) [] reset db h le = tt
  recalculate-TotalsRule (p ∷ ps) (previous ∷ previouses) (total ∷ totals) reset db
        ((s, found, kind), hs) le =
      elim (Option-cases (unpack_signal now s response)) [
        | inl e ↦ rw (found, recalculate, e) tt
        | inr ((value, code), e) ↦
            elim (subst UintRule e (unpack_signal-UintRule now s response kind)) [
              | inl bad ↦ rw (found, recalculate, e, bad) (le, AllLe-refl (total ∷ totals))
              | inr (n, good, read) ↦
                  let grows = next_total_ge n previous total in
                  let v = int (next_total (pos n) previous total) in
                  rw (found, recalculate, e, good, read)
                    (with_counter-TotalsRule (next_previous (pos n) previous total) total
                      (next_total (pos n) previous total) totals (store p v s db).0
                      (recalculate now response ps
                        (previouses, totals, restarted (pos n) previous total || reset)
                        (store p v s db).1)
                      grows.0 grows.1
                      (recalculate-TotalsRule ps previouses totals _ (store p v s db).1
                        (AreUints-store p v s db found ps hs) le.1))
            ]
      ]

abbrev LibRule : ThousandLib → Option ((List ℤ × Code) × ThousandLib) → Type 0
LibRule lib none = Unit
LibRule lib (some (result, lib')) =
    AllLe lib'.previous_open_door_counters lib'.total_open_door_counters
    × AllLe lib.total_open_door_counters lib'.total_open_door_counters

door_open_count_recalculate-LibRule :
    (now : ℕ) (response : Response) (lib : ThousandLib)
    → AreUints lib.database params_door_open_count
    → AllLe lib.previous_open_door_counters lib.total_open_door_counters
    → LibRule lib (door_open_count_recalculate now response lib)
unfolding door_open_count_recalculate
door_open_count_recalculate-LibRule now response lib h le =
    elim (Option-cases (
      recalculate now response params_door_open_count
        (
          lib.previous_open_door_counters, lib.total_open_door_counters,
          lib.reset_saved_open_door_counter,
        )
        lib.database)) [
          | inl e ↦ rw (e, door_open_count_recalculate) tt
          | inr (round, e) ↦
              rw (e, door_open_count_recalculate)
                (subst (TotalsRule lib.total_open_door_counters) e (
                  recalculate-TotalsRule now response params_door_open_count _ _
                    lib.reset_saved_open_door_counter lib.database h le))
        ]

-- When the door counters are `uint` signals and no saved count is above its total, a recalculation
-- that returns, with or without an error, keeps this, and leaves no total below what it was before:
-- also where the counters that the lift sends are lower than the last ones, as after its restart.
pub door_open_count_recalculate-AllLe :
    (now : ℕ) (response : Response) (lib lib' : ThousandLib) (changed : List ℤ) (code : Code)
    → AreUints lib.database params_door_open_count
    → AllLe lib.previous_open_door_counters lib.total_open_door_counters
    → door_open_count_recalculate now response lib ≡ some ((changed, code), lib')
    → AllLe lib'.previous_open_door_counters lib'.total_open_door_counters
      × AllLe lib.total_open_door_counters lib'.total_open_door_counters
door_open_count_recalculate-AllLe now response lib lib' changed code h le ran =
    subst (LibRule lib) ran (door_open_count_recalculate-LibRule now response lib h le)
