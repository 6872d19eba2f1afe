-- ===== src/Ahl/Tables.antt =====
-- src/lib/ahl_lib.py: the polling tables, the default push lists and the decoding of the change
-- flags. Bit 0 of both tables leaves out parameter 2, the register of the flags.
pub mod Coverage
use gateway_nexy.Base.{
  ℕ, ◌+◌, ◌-◌, ◌*◌, List, [], ◌∷◌, ◌++◌, leb, ltb, ◌==◌, if◌then◌else◌, range_from,
}
use gateway_nexy.Base.Int.{ℤ, bit_set}

-- The groups 0 to 7, which both tables share.
abbrev low_group : ℕ → List ℕ
low_group bit =
    if bit == 0
    then 0 ∷ 1 ∷ range_from 3 13
    else if leb bit 4
    then range_from (bit * 16) 16
    else if bit == 5
    then range_from 80 14
    else range_from (bit * 16 - 2) 16

-- `_OLD_POLLING_TABLE.get(bit, [])`.
unfoldable pub old_polling_table : ℕ → List ℕ
old_polling_table bit =
    if ltb bit 8
    then low_group bit
    else if bit == 8
    then 126 ∷ range_from 353 15
    else if ltb bit 31
    then range_from (224 + bit * 16) 16
    else []

-- `_NEW_POLLING_TABLE.get(bit, [])`.
unfoldable pub new_polling_table : ℕ → List ℕ
new_polling_table bit =
    if ltb bit 8
    then low_group bit
    else if bit == 8
    then 126 ∷ 127 ∷ 128 ∷ 129 ∷ range_from 353 12
    else if ltb bit 21
    then range_from (bit * 16 - 14) 16
    else if bit == 21
    then range_from 322 12 ++ 335 ∷ 336 ∷ 338 ∷ 339 ∷ []
    else if bit == 22
    then 340 ∷ 344 ∷ 345 ∷ (range_from 347 6 ++ range_from 365 7)
    else if ltb bit 31
    then range_from (4 + bit * 16) 16
    else []

abbrev pub default_on_change_params : List ℕ
default_on_change_params =
    5 ∷ 6 ∷ 7 ∷ 8 ∷ 9 ∷ 10 ∷ 11 ∷ 12 ∷ 13 ∷ 14 ∷ 15 ∷ 16 ∷ 17 ∷ 20 ∷ 25 ∷ 32 ∷ 33 ∷ 34 ∷ 37 ∷ 38
    ∷ 39 ∷ 40 ∷ 41 ∷ 42 ∷ 43 ∷ 60 ∷ 97 ∷ 99 ∷ 100 ∷ 101 ∷ 107 ∷ 108 ∷ 109 ∷ 111 ∷ 353 ∷ 357 ∷ 360
    ∷ 362 ∷ 364 ∷ 375 ∷ 376 ∷ 377 ∷ 378 ∷ 379 ∷ 380 ∷ 381 ∷ 127 ∷ 129 ∷ 130 ∷ 131 ∷ 132 ∷ 133 ∷ 134
    ∷ 135 ∷ 136 ∷ 137 ∷ 138 ∷ 139 ∷ 140 ∷ 143 ∷ 147 ∷ 151 ∷ 155 ∷ 159 ∷ 163 ∷ 167 ∷ 171 ∷ 175 ∷ 179
    ∷ 183 ∷ 187 ∷ 191 ∷ 195 ∷ 199 ∷ 203 ∷ 207 ∷ 211 ∷ 215 ∷ 219 ∷ 223 ∷ 227 ∷ 231 ∷ 235 ∷ 239 ∷ 243
    ∷ 247 ∷ 251 ∷ 255 ∷ 259 ∷ 263 ∷ 267 ∷ 271 ∷ 275 ∷ 279 ∷ 283 ∷ 287 ∷ 291 ∷ 295 ∷ 299 ∷ 303 ∷ 307
    ∷ 311 ∷ 315 ∷ 319 ∷ 323 ∷ 327 ∷ 329 ∷ 330 ∷ 331 ∷ 332 ∷ 333 ∷ 335 ∷ 336 ∷ 347 ∷ 348 ∷ 349 ∷ 350
    ∷ 351 ∷ []

abbrev pub default_daily_params : List ℕ
default_daily_params = 18 ∷ 19 ∷ 46 ∷ 48 ∷ 50 ∷ 52 ∷ 54 ∷ 56 ∷ 58 ∷ 59 ∷ 88 ∷ 89 ∷ 352 ∷ []

-- The loop of `decode_change_flags` over the given bits.
unfoldable pub decode_bits : (ℕ → List ℕ) → ℤ → List ℕ → List ℕ
decode_bits table bitmask [] = []
decode_bits table bitmask (bit ∷ bits) =
    (if bit_set bitmask bit then table bit else []) ++ decode_bits table bitmask bits

-- `decode_change_flags` of a library with the given table.
unfoldable pub decode_change_flags : (ℕ → List ℕ) → ℤ → List ℕ
unfolding decode_bits
decode_change_flags table bitmask = decode_bits table bitmask (range_from 0 31)
