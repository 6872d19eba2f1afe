-- ===== src/Rs232/Split/Decoding.antt =====
-- src/liftApi/rs232_handler.py: the decoding of the frames of a response comes to an end.
use gateway_nexy.Base.{
  arith, ℕ, zero, suc, ◌<◌, ◌≤◌, Option, some, [], ◌∷◌, ◌≡◌, refl, Option-cases, Bool-cases, inl,
  inr, length,
}
use gateway_nexy.Base.Json.{Json}
use gateway_nexy.Base.Text.{Text, is_space}
use gateway_nexy.Rs232.Split.{decode_frames, skip_spaces}

-- A decoder that reads at least one character of a text that is not empty.
abbrev pub Consumes : (Text → Option (Json × Text)) → Type 0
Consumes raw_decode =
    (rsp : Text) (frame : Json) (rest : Text)
    → raw_decode rsp ≡ some (frame, rest)
    → length rest < length rsp

longer : (a b : ℕ) → a ≤ b → a ≤ suc b
longer a b h = omega arith

length-skip_spaces : (rsp : Text) → length (skip_spaces rsp) ≤ length rsp
length-skip_spaces [] = omega arith
length-skip_spaces (c ∷ rsp) = elim (Bool-cases (is_space c)) [
  | inl e ↦
      rw (e, skip_spaces) (longer (length (skip_spaces rsp)) (length rsp) (length-skip_spaces rsp))
  | inr e ↦ rw (e, skip_spaces) (omega arith)
]

fits : (a b c fuel : ℕ) → a ≤ b → b < suc c → suc c ≤ suc fuel → a ≤ fuel
fits a b c fuel h h' h'' = omega arith

module _ (raw_decode : Text → Option (Json × Text)) (consumes : Consumes raw_decode) where
  -- As many rounds as the response has characters are enough: with more of them the frames are the
  -- same. The decoder reads at least one character of a frame.
  pub decode_frames_fuel :
      (fuel more : ℕ) (rsp : Text)
      → length rsp ≤ fuel
      → length rsp ≤ more
      → decode_frames raw_decode fuel rsp ≡ decode_frames raw_decode more rsp
  unfolding decode_frames
  decode_frames_fuel fuel more [] h h' = refl
  decode_frames_fuel zero more (c ∷ rsp) h h' = ground arith
  decode_frames_fuel (suc fuel) zero (c ∷ rsp) h h' = ground arith
  decode_frames_fuel (suc fuel) (suc more) (c ∷ rsp) h h' =
      elim (Option-cases (raw_decode (c ∷ rsp))) [
        | inl e ↦ rw (e, decode_frames) refl
        | inr ((frame, rest), e) ↦
            rw
              (
                e,
                decode_frames,
                decode_frames_fuel fuel more (skip_spaces rest)
                    (fits (length (skip_spaces rest)) (length rest) (length rsp) fuel
                      (length-skip_spaces rest) (consumes (c ∷ rsp) frame rest e) h)
                    (fits (length (skip_spaces rest)) (length rest) (length rsp) more
                      (length-skip_spaces rest) (consumes (c ∷ rsp) frame rest e) h'),
              )
              refl
      ]
