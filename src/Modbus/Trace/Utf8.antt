-- ===== src/Modbus/Trace/Utf8.antt =====
-- `bytes.decode("utf-8")`, for the file name in src/liftApi/modbus_handler.py.
use gateway_nexy.Base.{
  ◌≡◌, refl, ℕ, zero, suc, ◌+◌, ◌-◌, ◌*◌, ◌&&◌, Option, none, some, List, [], ◌∷◌, leb, ltb,
  if◌then◌else◌,
}
use gateway_nexy.Base.Text.{Text}

abbrev cons : ℕ → Option Text → Option Text
cons c none = none
cons c (some s) = some (c ∷ s)

-- The rest of a text: the continuation bytes that the character still needs, the range of the next
-- one, and the bits read so far.
utf8_from : ℕ → ℕ → ℕ → ℕ → List ℕ → Option Text
utf8_from zero lo hi acc [] = some []
utf8_from (suc n) lo hi acc [] = none
utf8_from (suc zero) lo hi acc (c ∷ s) =
    let rest = utf8_from 0 0 0 0 s in
    if leb lo c && leb c hi then cons (acc * 64 + (c - 0x80)) rest else none
utf8_from (suc (suc n)) lo hi acc (c ∷ s) =
    let rest = utf8_from (suc n) 0x80 0xBF (acc * 64 + (c - 0x80)) s in
    if leb lo c && leb c hi then rest else none
utf8_from zero lo hi acc (c ∷ s) =
    let plain = utf8_from 0 0 0 0 s in
    let two = utf8_from 1 0x80 0xBF (c - 0xC0) s in
    let three =
      utf8_from 2 (if leb c 0xE0 then 0xA0 else 0x80)
        (if leb 0xED c && leb c 0xED then 0x9F else 0xBF) (c - 0xE0) s in
    let four =
      utf8_from 3 (if leb c 0xF0 then 0x90 else 0x80) (if leb 0xF4 c then 0x8F else 0xBF) (c - 0xF0)
        s in
    if ltb c 0x80
    then cons c plain
    else if ltb c 0xC2
    then none
    else if ltb c 0xE0
    then two
    else if ltb c 0xF0
    then three
    else if ltb c 0xF5
    then four
    else none

unfoldable pub utf8_decode : List ℕ → Option Text
unfolding utf8_from
utf8_decode s = utf8_from 0 0 0 0 s

utf8_1 : utf8_decode (104 ∷ 0xC3 ∷ 0xA5 ∷ 0xE2 ∷ 0x82 ∷ 0xAC ∷ []) ≡ some (104 ∷ 0xE5 ∷ 0x20AC ∷ [])
unfolding utf8_decode
utf8_1 = refl
