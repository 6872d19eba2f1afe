-- ===== src/Rs232/Keeping/Lift.antt =====
-- src/liftApi/rs232_handler.py: the packages of the polls, and what `poll_lift` keeps.
use gateway_nexy.Base.{
  ℕ, zero, suc, ◌<◌, Bool, true, false, ◌&&◌, Option, none, some, List, [], ◌∷◌, ◌++◌, ◌≡◌, refl,
  arith, if◌then◌else◌,
}
use gateway_nexy.Base.Text.{Text, text, text_eq}
use gateway_nexy.Codes.{arg_type_err}
use gateway_nexy.Base.Int.{negsuc}
use gateway_nexy.Modbus.Registers.{int}
use gateway_nexy.Rs232.Port.{Port, Rs232}
use gateway_nexy.Rs232.Commands.{text_in}
use gateway_nexy.Rs232.Poll.{
  polled_packages, poll_of, poll_lift, file_packages, always_polled_packages,
}
use gateway_nexy.Rs232.Keeping.{IsWellFormed, if_keeps}
use gateway_nexy.Rs232.Keeping.Polling.{Keeps-poll_all}

-- The packages of a number of polls of type 0 from an index on.
unfoldable pub packages_of_polls : ℕ → ℕ → List Text
unfolding polled_packages
packages_of_polls zero i = []
packages_of_polls (suc n) i = elim (polled_packages false i) [
  | none ↦ []
  | some (packages, i') ↦ packages ++ packages_of_polls n i'
]

unfoldable pub are_in : List Text → List Text → Bool
are_in [] packages = true
are_in (name ∷ names) packages = text_in name packages && are_in names packages

-- Five polls of type 0 in a row ask for every package: those of every poll and the five files,
-- whichever file is next.
pub are_in-packages_of_polls :
    (i : ℕ)
    → i < 5
    → are_in (always_polled_packages ++ file_packages) (packages_of_polls 5 i) ≡ true
unfolding packages_of_polls are_in
are_in-packages_of_polls zero h = refl
are_in-packages_of_polls (suc zero) h = refl
are_in-packages_of_polls (suc (suc zero)) h = refl
are_in-packages_of_polls (suc (suc (suc zero))) h = refl
are_in-packages_of_polls (suc (suc (suc (suc zero)))) h = refl
are_in-packages_of_polls (suc (suc (suc (suc (suc i))))) h = ground arith

-- The index after a poll.
abbrev IsNext : Option (List Text × ℕ) → Type 0
IsNext none = Unit {0}
IsNext (some (packages, i)) = i < 5

polled_packages-IsNext : (all : Bool) (i : ℕ) → i < 5 → IsNext (polled_packages all i)
unfolding polled_packages
polled_packages-IsNext true i h = h
polled_packages-IsNext false zero h = ground arith
polled_packages-IsNext false (suc zero) h = ground arith
polled_packages-IsNext false (suc (suc zero)) h = ground arith
polled_packages-IsNext false (suc (suc (suc zero))) h = ground arith
polled_packages-IsNext false (suc (suc (suc (suc zero)))) h = ground arith
polled_packages-IsNext false (suc (suc (suc (suc (suc i))))) h = ground arith

module _ (p : Port) where
  open p use {State}

  poll_of-IsWellFormed :
      (packages : Option (List Text × ℕ)) (r : Rs232 State)
      → IsNext packages
      → IsWellFormed r
      → IsWellFormed (poll_of p packages r).1
  unfolding poll_of
  poll_of-IsWellFormed none r hi h = h
  poll_of-IsWellFormed (some (packages, i)) r hi h =
      Keeps-poll_all p packages (record r { polled_file_package = i })
        (record { index = hi; results = h.results })

  -- A poll keeps the index of the next file below 5 and at most 50 results of the frequency converter,
  -- whatever its argument and whatever the lift sends, and also where it raises.
  pub poll_lift-IsWellFormed :
      (args : List Text) (r : Rs232 State) → IsWellFormed r → IsWellFormed (poll_lift p args r).1
  unfolding poll_lift
  poll_lift-IsWellFormed [] r h = h
  poll_lift-IsWellFormed (a ∷ b ∷ args) r h = h
  poll_lift-IsWellFormed (poll_type ∷ []) r h =
      if_keeps IsWellFormed (text_eq poll_type (text "1"))
        (poll_of p (polled_packages true r.polled_file_package) r)
        (if text_eq poll_type (text "0")
          then poll_of p (polled_packages false r.polled_file_package) r
          else (some (int (negsuc 0), arg_type_err), r))
        (poll_of-IsWellFormed (polled_packages true r.polled_file_package) r
          (polled_packages-IsNext true r.polled_file_package h.index) h)
        (if_keeps IsWellFormed (text_eq poll_type (text "0"))
          (poll_of p (polled_packages false r.polled_file_package) r)
          (some (int (negsuc 0), arg_type_err), r)
          (poll_of-IsWellFormed (polled_packages false r.polled_file_package) r
            (polled_packages-IsNext false r.polled_file_package h.index) h)
          h)
