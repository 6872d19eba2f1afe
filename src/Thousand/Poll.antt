-- ===== src/Thousand/Poll.antt =====
-- src/lib/thousand_lib.py: `ThousandLib.poll_params`, over what `Rs232Handler.poll_lift` returns.
use gateway_nexy.Base.{
  ℕ, Bool, true, false, not, Option, none, some, List, [], ◌∷◌, ◌==◌, ◌||◌, ◌&&◌, if◌then◌else◌,
}
use gateway_nexy.Base.Int.{ℤ, negsuc}
use gateway_nexy.Base.Text.{Text, text, int_of}
use gateway_nexy.Codes.{Code, is_no_err}
use gateway_nexy.Modbus.Registers.{Val, str, int}
use gateway_nexy.Thousand.Lookup.{eq_val}
use gateway_nexy.Thousand.Virtual.{show_val}

-- `s.split(sep)` for one character.
unfoldable pub split_at : ℕ → Text → List Text
split_at sep [] = [] ∷ []
split_at sep (c ∷ s) = elim (split_at sep s) [
  | [] ↦ (c ∷ []) ∷ []
  | w ∷ ws ↦ if c == sep then [] ∷ (w ∷ ws) else (c ∷ w) ∷ ws
]

-- `[int(p) for p in parts if p]`; `none` is a `ValueError`.
unfoldable pub ints_of : List Text → Option (List ℤ)
ints_of [] = some []
ints_of ([] ∷ parts) = ints_of parts
ints_of ((c ∷ s) ∷ parts) = elim (int_of (c ∷ s)) [
  | none ↦ none
  | some v ↦ elim (ints_of parts) [ none ↦ none | some vs ↦ some (v ∷ vs) ]
]

abbrev is_partial_err : Code → Bool
is_partial_err Code.partial_err = true
is_partial_err _ = false

-- The parameters of a reply of `poll_lift`.
unfoldable pub changed_params : Val → Code → List ℤ
unfolding split_at ints_of
changed_params response code =
    if not (is_no_err code) && not (is_partial_err code)
    then []
    else if eq_val response (str (text "0")) || eq_val response (int (negsuc 0))
    then []
    else elim (ints_of (split_at b'x' (show_val response))) [ none ↦ [] | some ps ↦ ps ]

-- `poll_params`, where the handler polls with its state.
module _ {S : Type 0} (poll_lift : Text → S → (Val × Code) × S) where
  unfoldable pub poll_params : Bool → S → List ℤ × S
  unfolding changed_params
  poll_params force_read_all s =
      let ((response, code), s') = poll_lift (if force_read_all then text "1" else text "0") s in
      (changed_params response code, s')
