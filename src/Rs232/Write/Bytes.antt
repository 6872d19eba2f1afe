-- ===== src/Rs232/Write/Bytes.antt =====
-- src/liftApi/rs232_handler.py: the bytes that a write puts into a file's data.
use Prim.{Unit, tt}
use gateway_nexy.Base.{
  ℕ, zero, suc, ◌+◌, ◌/◌, ◌%◌, ◌^◌, ◌<◌, ◌≤◌, Option, none, some, List, [], ◌∷◌, ◌++◌, ◌≡◌, refl,
  sym, ap, ◌∙◌, arith, ltb, ltb→lt, length, length-take, take, drop, Bool-cases, Option-cases, ◌⊎◌,
  inl, inr, ◌↔◌,
}
use mathlib.Core.Path.{subst}
use gateway_nexy.Base.Int.{ℤ, pos, negsuc}
use gateway_nexy.Base.Json.{Json, number, Jsons, nil, cons}
use gateway_nexy.Base.Text.{str_nat}
use gateway_nexy.Codes.{no_err}
use gateway_nexy.Thousand.Signals.{Signal, SignalType, Response, unpack_signal}
use gateway_nexy.Thousand.Signals.LittleEndian.{
  little_endian, bytes_of, AllBytes, unpack_signal-little_endian,
}
use gateway_nexy.Rs232.Requests.{to_response, to_item}
use gateway_nexy.Rs232.Write.{set_item, replace_bytes, replace_param}

-- The bytes of a number, the low one first.
abbrev pub bytes_le : ℕ → ℕ → List ℕ
bytes_le zero v = []
bytes_le (suc n) v = v % 256 ∷ bytes_le n (v / 256)

length-bytes_le : (n v : ℕ) → length (bytes_le n v) ≡ n
length-bytes_le zero v = refl
length-bytes_le (suc n) v = ap suc (length-bytes_le n (v / 256))

bytes_le-AllBytes : (n v : ℕ) → AllBytes (bytes_le n v)
bytes_le-AllBytes zero v = tt
bytes_le-AllBytes (suc n) v = (omega arith, bytes_le-AllBytes n (v / 256))

little_endian-bytes_le : (n v : ℕ) → v < 256 ^ n → little_endian (bytes_le n v) ≡ v
little_endian-bytes_le zero v h = omega arith
little_endian-bytes_le (suc n) v h =
    rw (little_endian-bytes_le n (v / 256) (omega arith)) (omega arith)

-- What is written: the bytes stand in place of as many of the data, and the rest is as it was.
IsWritten : ℕ → ℕ → ℕ → Jsons → Option Jsons → Type 0
IsWritten start n v xs none = length (to_response xs) < start + n
IsWritten start n v xs (some ys) =
    (to_response ys
      ≡ take start (to_response xs)
        ++ (bytes_of (bytes_le n v) ++ drop (start + n) (to_response xs)))
    × (0 < n → start + n ≤ length (to_response xs))

abbrev with_head : Json → Option Jsons → Option Jsons
with_head x none = none
with_head x (some ys) = some (cons x ys)

-- The bytes after the first item.
replace_bytes-cons :
    (start n v : ℕ) (x : Json) (xs : Jsons)
    → replace_bytes (suc start) n v (cons x xs) ≡ with_head x (replace_bytes start n v xs)
unfolding replace_bytes
replace_bytes-cons start zero v x xs = refl
replace_bytes-cons start (suc n) v x xs =
    elim (Option-cases (set_item start (number (pos (v % 256))) xs)) [
      | inl e ↦ rw (e, replace_bytes) refl
      | inr (ys, e) ↦ rw (e, replace_bytes) (replace_bytes-cons (suc start) n (v / 256) x ys)
    ]

suc_plus : (a b : ℕ) → suc a + b ≡ suc (a + b)
suc_plus a b = omega arith

zero_plus : (b : ℕ) → 0 + suc b ≡ suc (0 + b)
zero_plus b = omega arith

suc_bound : (a b l : ℕ) → a + b ≤ l → suc a + b ≤ suc l
suc_bound a b l h = omega arith

bound_at : (b l : ℕ) → 0 + suc b ≤ l → 0 + suc (suc b) ≤ suc l
bound_at b l h = omega arith

first_bound : (b l : ℕ) → (0 < b → 0 + b ≤ l) → 0 + suc b ≤ suc l
first_bound zero l h = omega arith
first_bound (suc b) l h = bound_at b l (h (omega arith))

with_head-IsWritten :
    (start n v : ℕ) (x : Json) (xs : Jsons) (written : Option Jsons)
    → IsWritten start n v xs written
    → IsWritten (suc start) n v (cons x xs) (with_head x written)
unfolding IsWritten
with_head-IsWritten start n v x xs none h = omega arith
with_head-IsWritten start n v x xs (some ys) h =
    (rw (suc_plus start n) (ap (λ l. to_item x ∷ l) h.0), λ hn. suc_bound start n _ (h.1 hn))

-- At the front the first byte takes the place of an item.
with_head_byte-IsWritten :
    (n v : ℕ) (x : Json) (xs : Jsons) (written : Option Jsons)
    → IsWritten 0 n (v / 256) xs written
    → IsWritten 0 (suc n) v (cons x xs) (with_head (number (pos (v % 256))) written)
unfolding IsWritten
with_head_byte-IsWritten n v x xs none h = omega arith
with_head_byte-IsWritten n v x xs (some ys) h = (
  rw (zero_plus n) (ap (λ l. to_item (number (pos (v % 256))) ∷ l) h.0),
  λ hn. first_bound n (length (to_response xs)) h.1,
)

replace_bytes-IsWritten :
    (start n v : ℕ) (xs : Jsons) → IsWritten start n v xs (replace_bytes start n v xs)
unfolding replace_bytes IsWritten
replace_bytes-IsWritten zero zero v xs = (refl, λ hn. ground arith)
replace_bytes-IsWritten zero (suc n) v nil = ground arith
replace_bytes-IsWritten zero (suc n) v (cons x xs) =
    rw (replace_bytes-cons 0 n (v / 256) (number (pos (v % 256))) xs) (
      with_head_byte-IsWritten n v x xs (replace_bytes 0 n (v / 256) xs)
        (replace_bytes-IsWritten 0 n (v / 256) xs))
replace_bytes-IsWritten (suc start) zero v nil = (rw (suc_plus start 0) refl, λ hn. ground arith)
replace_bytes-IsWritten (suc start) (suc n) v nil = ground arith
replace_bytes-IsWritten (suc start) n v (cons x xs) = rw (replace_bytes-cons start n v x xs) (
    with_head-IsWritten start n v x xs (replace_bytes start n v xs)
      (replace_bytes-IsWritten start n v xs))

-- A value that does not fit in the bytes, or bytes that the data does not have.
abbrev pub IsRefused : Signal → ℤ → Jsons → Type 0
IsRefused signal (negsuc v) xs = Unit {0}
IsRefused signal (pos v) xs =
    (256 ^ signal.byte_size ≤ v) ⊎ (length (to_response xs) < signal.byte_start + signal.byte_size)

IsReplaced : Signal → ℕ → Jsons → Option Jsons → Type 0
IsReplaced signal v xs none = IsRefused signal (pos v) xs
IsReplaced signal v xs (some ys) =
    (v < 256 ^ signal.byte_size) × IsWritten signal.byte_start signal.byte_size v xs (some ys)

IsWritten-IsReplaced :
    (signal : Signal) (v : ℕ) (xs : Jsons) (written : Option Jsons)
    → v < 256 ^ signal.byte_size
    → IsWritten signal.byte_start signal.byte_size v xs written
    → IsReplaced signal v xs written
unfolding IsReplaced IsWritten
IsWritten-IsReplaced signal v xs none hv h = inr h
IsWritten-IsReplaced signal v xs (some ys) hv h = (hv, h)

replace_param-IsReplaced :
    (signal : Signal) (v : ℕ) (xs : Jsons)
    → IsReplaced signal v xs (replace_param signal (pos v) xs)
unfolding replace_param IsReplaced
replace_param-IsReplaced signal v xs = elim (Bool-cases (ltb v (256 ^ signal.byte_size))) [
  | inl e ↦ rw e (
      IsWritten-IsReplaced signal v xs (replace_bytes signal.byte_start signal.byte_size v xs)
        (ltb→lt v (256 ^ signal.byte_size) e)
        (replace_bytes-IsWritten signal.byte_start signal.byte_size v xs))
  | inr e ↦ rw e (inl (ground arith))
]

-- The items before the bytes.
length-before :
    (start n : ℕ) (response : Response)
    → 0 < n
    → start + n ≤ length response
    → start ≡ length (take start response)
length-before start n response hn h = rw (length-take start response) (omega arith)

unpack_written :
    (now : ℕ) (signal : Signal) (v : ℕ) (xs ys : Jsons)
    → signal.signal_type ≡ SignalType.uint
    → 0 < signal.byte_size
    → IsReplaced signal v xs (some ys)
    → unpack_signal now signal (to_response ys) ≡ some (str_nat v, no_err)
unfolding IsReplaced IsWritten
unpack_written now signal v xs ys ht hn h = rw (h.1.0) (
    unpack_signal-little_endian now signal (take signal.byte_start (to_response xs))
      (bytes_le signal.byte_size v) (drop (signal.byte_start + signal.byte_size) (to_response xs))
      ht (length-before signal.byte_start signal.byte_size (to_response xs) hn (h.1.1 hn))
      (sym (length-bytes_le signal.byte_size v)) (bytes_le-AllBytes signal.byte_size v)
    ∙ ap (λ k. some (str_nat k, no_err)) (little_endian-bytes_le signal.byte_size v h.0))

-- The bytes of a written parameter are read back as the value that was written, and every other
-- item of the file's data is as it was. The parameter is an unsigned number of one byte or more.
pub unpack_signal-replace_param :
    (now : ℕ) (signal : Signal) (v : ℕ) (xs ys : Jsons)
    → signal.signal_type ≡ SignalType.uint
    → 0 < signal.byte_size
    → replace_param signal (pos v) xs ≡ some ys
    → (unpack_signal now signal (to_response ys) ≡ some (str_nat v, no_err))
      × (to_response ys
          ≡ take signal.byte_start (to_response xs)
            ++ (bytes_of (bytes_le signal.byte_size v)
                ++ drop (signal.byte_start + signal.byte_size) (to_response xs)))
unfolding IsReplaced IsWritten
unpack_signal-replace_param now signal v xs ys ht hn h =
    let written = subst (IsReplaced signal v xs) h (replace_param-IsReplaced signal v xs) in
    (unpack_written now signal v xs ys ht hn written, written.1.0)

not_both : (a b : ℕ) → a < b → b ≤ a → ⊥
not_both a b h h' = omega arith

-- What a replaced parameter excludes.
IsRefused-IsReplaced :
    (signal : Signal) (v : ℕ) (xs ys : Jsons)
    → 0 < signal.byte_size
    → IsReplaced signal v xs (some ys)
    → IsRefused signal (pos v) xs
    → ⊥
unfolding IsReplaced IsWritten
IsRefused-IsReplaced signal v xs ys hn h (inl big) = not_both v (256 ^ signal.byte_size) h.0 big
IsRefused-IsReplaced signal v xs ys hn h (inr short) =
    not_both (length (to_response xs)) (signal.byte_start + signal.byte_size) short (h.1.1 hn)

refused_param :
    (signal : Signal) (v : ℕ) (xs : Jsons)
    → 0 < signal.byte_size
    → IsRefused signal (pos v) xs
    → replace_param signal (pos v) xs ≡ none
refused_param signal v xs hn refused = elim (Option-cases (replace_param signal (pos v) xs)) [
  | inl e ↦ e
  | inr (ys, e) ↦ absurd (
      IsRefused-IsReplaced signal v xs ys hn
        (subst (IsReplaced signal v xs) e (replace_param-IsReplaced signal v xs)) refused)
]

-- The replacing of a parameter's bytes raises exactly where the value is negative or does not fit in
-- the parameter's bytes, or where the file's data ends before them. The parameter has a byte or more.
pub replace_param-none_iff :
    (signal : Signal) (z : ℤ) (xs : Jsons)
    → 0 < signal.byte_size
    → (replace_param signal z xs ≡ none) ↔ IsRefused signal z xs
unfolding IsReplaced replace_param
replace_param-none_iff signal (negsuc v) xs hn = (λ _. tt, λ _. refl)
replace_param-none_iff signal (pos v) xs hn = (
  λ e. subst (IsReplaced signal v xs) e (replace_param-IsReplaced signal v xs),
  refused_param signal v xs hn,
)
