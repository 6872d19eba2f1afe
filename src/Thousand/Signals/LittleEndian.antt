-- ===== src/Thousand/Signals/LittleEndian.antt =====
-- src/lib/thousand_lib.py: `__unpack_uint` against the value of a little-endian number.
use mathlib.Core.Path.{subst}
use gateway_nexy.Base.{
  ◌≡◌, refl, ap, ◌∙◌, ℕ, zero, suc, ◌+◌, ◌*◌, ◌<◌, ◌≤◌, true, some, List, [], ◌∷◌, ◌++◌, length,
  get_elem?, drop, arith,
}
use gateway_nexy.Base.Int.{pos}
use gateway_nexy.Base.Text.{str_nat}
use gateway_nexy.Codes.{no_err}
use gateway_nexy.Modbus.Registers.{int}
use gateway_nexy.Thousand.Signals.{
  Signal, SignalType, Response, are_bytes, validate_bytes, byte_at, uint_from, unpack_uint,
  unpack_signal, unpack_checked,
}

-- The number whose bytes are listed from the low one on.
abbrev pub little_endian : List ℕ → ℕ
little_endian [] = 0
little_endian (b ∷ bs) = b + 256 * little_endian bs

abbrev pub bytes_of : List ℕ → Response
bytes_of [] = []
bytes_of (b ∷ bs) = int (pos b) ∷ bytes_of bs

abbrev pub AllBytes : List ℕ → Type 0
AllBytes [] = Unit
AllBytes (b ∷ bs) = (b < 256) × AllBytes bs

-- The byte at an index is the next digit of the number.
little_endian-drop :
    (bs : List ℕ) (j : ℕ)
    → j < length bs
    → (b : ℕ) × (get_elem? bs j ≡ some b)
      × (little_endian (drop j bs) ≡ little_endian (drop (suc j) bs) * 256 + b)
little_endian-drop [] j h = absurd (omega arith)
little_endian-drop (b ∷ bs) zero h = (b, refl, omega arith)
little_endian-drop (b ∷ bs) (suc j) h = little_endian-drop bs j (omega arith)

byte_at-bytes_of :
    (before : Response) (bs : List ℕ) (after : Response) (j : ℕ)
    → j < length bs
    → byte_at (before ++ (bytes_of bs ++ after)) (length before + j) ≡ get_elem? bs j
byte_at-bytes_of [] [] after j h = absurd (omega arith)
byte_at-bytes_of [] (b ∷ bs) after zero h = refl
byte_at-bytes_of [] (b ∷ bs) after (suc j) h =
    let e : 0 + suc j ≡ suc (0 + j) = omega arith in
    ap (byte_at (int (pos b) ∷ (bytes_of bs ++ after))) e
    ∙ byte_at-bytes_of [] bs after j (omega arith)
byte_at-bytes_of (v ∷ before) bs after j h =
    let e : suc (length before) + j ≡ suc (length before + j) = omega arith in
    ap (byte_at (v ∷ (before ++ (bytes_of bs ++ after)))) e ∙ byte_at-bytes_of before bs after j h

uint_from-bytes :
    (response : Response) (start : ℕ) (bs : List ℕ) (i : ℕ)
    → ((j : ℕ) → j < length bs → byte_at response (start + j) ≡ get_elem? bs j)
    → i ≤ length bs
    → uint_from response start i (little_endian (drop i bs)) ≡ some (little_endian bs)
unfolding uint_from
uint_from-bytes response start bs zero h bound = refl
uint_from-bytes response start bs (suc i) h bound =
    let (b, at, digit) = little_endian-drop bs i (omega arith) in
    rw (h i (omega arith) ∙ at, uint_from)
      (rw (← digit) (uint_from-bytes response start bs i h (omega arith)))

are_bytes-bytes_of :
    (bs : List ℕ) (after : Response)
    → AllBytes bs
    → are_bytes (length bs) (bytes_of bs ++ after) ≡ true
are_bytes-bytes_of [] after h = refl
are_bytes-bytes_of (b ∷ bs) after (h, hs) = ground (arith, are_bytes-bytes_of bs after hs)

drop-append :
    (before : Response) (after : Response) → drop (length before) (before ++ after) ≡ after
drop-append [] after = refl
drop-append (v ∷ before) after = drop-append before after

little_endian-drop_all : (bs : List ℕ) → little_endian (drop (length bs) bs) ≡ 0
little_endian-drop_all [] = refl
little_endian-drop_all (b ∷ bs) = little_endian-drop_all bs

uint_from-little_endian :
    (before : Response) (bs : List ℕ) (after : Response)
    → uint_from (before ++ (bytes_of bs ++ after)) (length before) (length bs) 0
      ≡ some (little_endian bs)
uint_from-little_endian before bs after =
    let response = before ++ (bytes_of bs ++ after) in
    subst (λ acc. uint_from response (length before) (length bs) acc ≡ some (little_endian bs))
      (little_endian-drop_all bs)
      (uint_from-bytes response (length before) bs (length bs) (byte_at-bytes_of before bs after)
        (omega arith))

-- Where the bytes of a `uint` signal stand in a response at the signal's place, the signal unpacks to
-- the number that they are in little-endian order, without an error.
pub unpack_signal-little_endian :
    (now : ℕ) (s : Signal) (before : Response) (bs : List ℕ) (after : Response)
    → s.signal_type ≡ SignalType.uint
    → s.byte_start ≡ length before
    → s.byte_size ≡ length bs
    → AllBytes bs
    → unpack_signal now s (before ++ (bytes_of bs ++ after))
      ≡ some (str_nat (little_endian bs), no_err)
unfolding unpack_signal validate_bytes unpack_checked unpack_uint
unpack_signal-little_endian now s before bs after kind start size h =
    rw (kind, start, size, drop-append before (bytes_of bs ++ after))
      (rw (are_bytes-bytes_of bs after h) (rw (uint_from-little_endian before bs after) refl))
