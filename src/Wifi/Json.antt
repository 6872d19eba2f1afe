-- ===== src/Wifi/Json.antt =====
-- What src/bluetoothApi uses of Python's `json.dumps`, with compact separators, and of `repr`.
use gateway_nexy.Base.{
  ℕ, ◌+◌, ◌-◌, ◌/◌, ◌%◌, not, ◌&&◌, ◌||◌, List, [], ◌∷◌, ◌++◌, leb, ltb, ◌==◌, elem, if◌then◌else◌,
}
use gateway_nexy.Base.Text.{Text, text}

-- A lower-case hexadecimal digit.
abbrev hex_char : ℕ → ℕ
hex_char d = if ltb d 10 then b'0' + d else b'a' + d - 10

-- The two last hexadecimal digits.
abbrev hex_byte : ℕ → Text
hex_byte c = hex_char (c / 16 % 16) ∷ hex_char (c % 16) ∷ []

-- `\u` and four digits.
abbrev unicode_escape : ℕ → Text
unicode_escape c = 92 ∷ 117 ∷ (hex_byte (c / 256) ++ hex_byte c)

-- The escape of a character that JSON text does not show as it is; beyond 16 bits, the surrogates.
abbrev escape_char : ℕ → Text
escape_char c =
    if c == 10
    then text "\\n"
    else if c == 13
    then text "\\r"
    else if c == 9
    then text "\\t"
    else if c == 8
    then text "\\b"
    else if c == 12
    then text "\\f"
    else if ltb c 0x10000
    then unicode_escape c
    else unicode_escape (0xD800 + (c - 0x10000) / 1024 % 1024)
      ++ unicode_escape (0xDC00 + (c - 0x10000) % 1024)

-- A character inside a JSON string.
unfoldable pub json_char : ℕ → Text
json_char c =
    if c == 34 || c == 92
    then 92 ∷ c ∷ []
    else if leb 32 c && leb c 126
    then c ∷ []
    else escape_char c

unfoldable pub json_chars : Text → Text
unfolding json_char
json_chars [] = []
json_chars (c ∷ s) = json_char c ++ json_chars s

-- A JSON string.
unfoldable pub json_text : Text → Text
json_text s = 34 ∷ (json_chars s ++ 34 ∷ [])

-- `"name":` in front of a value.
abbrev pub json_field : Text → Text → Text
json_field name value = 34 ∷ (name ++ 34 ∷ 58 ∷ value)

abbrev pub json_more : List Text → Text
json_more [] = []
json_more (y ∷ ys) = 44 ∷ (y ++ json_more ys)

-- Values with commas between them.
unfoldable pub json_join : List Text → Text
json_join [] = []
json_join (x ∷ xs) = x ++ json_more xs

unfoldable pub json_object : List Text → Text
unfolding json_join
json_object fields = 123 ∷ (json_join fields ++ 125 ∷ [])

unfoldable pub json_list : List Text → Text
unfolding json_join
json_list values = 91 ∷ (json_join values ++ 93 ∷ [])

-- A character inside `repr` of a text that is quoted by `quote`.
abbrev pub repr_char : ℕ → ℕ → Text
repr_char quote c =
    if c == quote || c == 92
    then 92 ∷ c ∷ []
    else if c == 10
    then text "\\n"
    else if c == 13
    then text "\\r"
    else if c == 9
    then text "\\t"
    else if ltb c 32 || c == 127
    then text "\\x" ++ hex_byte c
    else c ∷ []

abbrev pub repr_chars : ℕ → Text → Text
repr_chars quote [] = []
repr_chars quote (c ∷ s) = repr_char quote c ++ repr_chars quote s

-- `repr(s)`, where the characters beyond ASCII are printable.
unfoldable pub repr : Text → Text
repr s =
    let quote = if elem 39 s && not (elem 34 s) then 34 else 39 in
    quote ∷ (repr_chars quote s ++ quote ∷ [])
