-- ===== src/Proxy/Twin.antt =====
-- src/liftApi/lift_proxy.py: what the desired properties of the device twin set. `none` is an
-- exception that leaves the method.
use mathlib.Core.Path.{subst}
use gateway_nexy.Base.{
  ◌≡◌, ◌⊎◌, Bool-cases, Option-cases, inl, inr, refl, Bool, true, false, Option, none, some, List,
  [], ◌∷◌, if◌then◌else◌,
}
use gateway_nexy.Base.Int.{ℤ, pos, ltb_ℤ}
use gateway_nexy.Base.Text.{Text, text, int_of}
use gateway_nexy.Base.Json.{
  Json, null, boolean, number, fraction, infinity, not_a_number, string, array, object, Jsons, nil,
  cons, Fields, field_of, truncated,
}

-- What a conversion by `int` gives: the result, a `TypeError` or a `ValueError`, which the methods
-- catch, or an `OverflowError`, which they do not.
pub data Converted {ℓ} (A : Type ℓ) : Type ℓ where
  converted : A → Converted A
  refused overflow : Converted A

abbrev pub read_as : Option ℤ → Converted ℤ
read_as none = refused
read_as (some z) = converted z

-- `int(value)`
unfoldable pub int_of_json : Json → Converted ℤ
unfolding int_of
int_of_json null = refused
int_of_json (boolean true) = converted (pos 1)
int_of_json (boolean false) = converted (pos 0)
int_of_json (number z) = converted z
int_of_json (fraction z k) = converted (truncated z k)
int_of_json (infinity negative) = overflow
int_of_json not_a_number = refused
int_of_json (string s) = read_as (int_of s)
int_of_json (array xs) = refused
int_of_json (object entries) = refused

abbrev with_int : ℤ → Converted (List ℤ) → Converted (List ℤ)
with_int z (converted zs) = converted (z ∷ zs)
with_int z refused = refused
with_int z overflow = overflow

-- `[int(p) for p in xs]`
unfoldable pub ints_of_json : Jsons → Converted (List ℤ)
unfolding int_of_json
ints_of_json nil = converted []
ints_of_json (cons x xs) = elim (int_of_json x) [
  | converted z ↦ with_int z (ints_of_json xs)
  | refused ↦ refused
  | overflow ↦ overflow
]

-- `desired_properties.get(name, {}).get(key)`, where a missing key gives `null`; `none` is the
-- `AttributeError` of a value that is not an object.
unfoldable pub get_in : Text → Text → Fields → Option Json
get_in name key desired = elim (field_of name desired) [
  | none ↦ some null
  | some value ↦ elim value [
    | object entries ↦ elim (field_of key entries) [ none ↦ some null | some v ↦ some v ]
    | null ↦ none
    | boolean b ↦ none
    | number z ↦ none
    | fraction z k ↦ none
    | infinity negative ↦ none
    | not_a_number ↦ none
    | string s ↦ none
    | array xs ↦ none
  ]
]

-- The value where it is positive, or the default; `none` is an exception.
abbrev pub positive_or : ℤ → Converted ℤ → Option ℤ
positive_or default refused = some default
positive_or default overflow = none
positive_or default (converted z) = some (if ltb_ℤ (pos 0) z then z else default)

-- `_get_interval`, where the desired properties are absent without a desired handler.
unfoldable pub get_interval : Option Fields → Text → ℤ → Option ℤ
unfolding get_in int_of_json
get_interval none key default = some default
get_interval (some desired) key default = elim (get_in (text "intervals") key desired) [
  | none ↦ none
  | some value ↦ positive_or default (int_of_json value)
]

-- A list of the twin, where it is a list that is not empty; any other value gives the default.
unfoldable pub twin_list : Json → Converted (List ℤ)
unfolding ints_of_json
twin_list (array (cons x xs)) = ints_of_json (cons x xs)
twin_list _ = refused

abbrev pub list_or : List ℤ → Converted (List ℤ) → Option (List ℤ)
list_or default (converted ps) = some ps
list_or default refused = some default
list_or default overflow = none

-- `_get_param_push_list` of a library whose list is `default`.
unfoldable pub get_param_push_list : Option Fields → Text → List ℤ → Option (List ℤ)
unfolding get_in twin_list
get_param_push_list none list_type default = some default
get_param_push_list (some desired) list_type default =
    elim (get_in (text "paramPush") list_type desired) [
      | none ↦ none
      | some value ↦ list_or default (twin_list value)
    ]

abbrev pub is_infinity : Option Json → Bool
is_infinity (some (infinity negative)) = true
is_infinity _ = false

-- Whether the twin's `intervals` makes the reading of a key raise: it is not an object, or the value
-- of the key is an infinity.
abbrev pub is_unreadable : Text → Option Json → Bool
is_unreadable key none = false
is_unreadable key (some (object entries)) = is_infinity (field_of key entries)
is_unreadable key (some _) = true

-- A positive interval, or an exception.
abbrev IntervalRule : Bool → Option ℤ → Type 0
IntervalRule raises none = raises ≡ true
IntervalRule raises (some z) = (ltb_ℤ (pos 0) z ≡ true) × (raises ≡ false)

positive_or-converted :
    (default z : ℤ)
    → ltb_ℤ (pos 0) default ≡ true
    → ltb_ℤ (pos 0) (if ltb_ℤ (pos 0) z then z else default) ≡ true
positive_or-converted default z h = elim (Bool-cases (ltb_ℤ (pos 0) z)) [
  | inl e ↦ rw (e, e) refl
  | inr e ↦ rw e h
]

positive_or-IntervalRule :
    (default : ℤ) (value : Json)
    → ltb_ℤ (pos 0) default ≡ true
    → IntervalRule (is_infinity (some value)) (positive_or default (int_of_json value))
unfolding int_of_json
positive_or-IntervalRule default null h = (h, refl)
positive_or-IntervalRule default (boolean true) h = (positive_or-converted default (pos 1) h, refl)
positive_or-IntervalRule default (boolean false) h = (positive_or-converted default (pos 0) h, refl)
positive_or-IntervalRule default (number z) h = (positive_or-converted default z h, refl)
positive_or-IntervalRule default (fraction z k) h =
    (positive_or-converted default (truncated z k) h, refl)
positive_or-IntervalRule default (infinity negative) h = refl
positive_or-IntervalRule default not_a_number h = (h, refl)
positive_or-IntervalRule default (string s) h = elim (Option-cases (int_of s)) [
  | inl e ↦ rw e (h, refl)
  | inr (z, e) ↦ rw e (positive_or-converted default z h, refl)
]
positive_or-IntervalRule default (array xs) h = (h, refl)
positive_or-IntervalRule default (object entries) h = (h, refl)

module _ (key : Text) (desired : Fields) (default : ℤ) (h : ltb_ℤ (pos 0) default ≡ true) where
  get_interval-IntervalRule :
      (o : Option Json)
      → field_of (text "intervals") desired ≡ o
      → IntervalRule (is_unreadable key o) (get_interval (some desired) key default)
  unfolding get_interval get_in int_of_json
  get_interval-IntervalRule none e = rw (e, get_interval, get_in) (h, refl)
  get_interval-IntervalRule (some null) e = rw (e, get_interval, get_in) refl
  get_interval-IntervalRule (some (boolean b)) e = rw (e, get_interval, get_in) refl
  get_interval-IntervalRule (some (number z)) e = rw (e, get_interval, get_in) refl
  get_interval-IntervalRule (some (fraction z k)) e = rw (e, get_interval, get_in) refl
  get_interval-IntervalRule (some (infinity negative)) e = rw (e, get_interval, get_in) refl
  get_interval-IntervalRule (some not_a_number) e = rw (e, get_interval, get_in) refl
  get_interval-IntervalRule (some (string s)) e = rw (e, get_interval, get_in) refl
  get_interval-IntervalRule (some (array xs)) e = rw (e, get_interval, get_in) refl
  get_interval-IntervalRule (some (object entries)) e = elim (Option-cases (field_of key entries)) [
    | inl missing ↦ rw (e, get_interval, get_in, missing) (h, refl)
    | inr (v, found) ↦ rw (e, get_interval, get_in, found) (positive_or-IntervalRule default v h)
  ]

-- Where the default is positive, either `_get_interval` gives a positive number, or it raises; and
-- it raises exactly where `intervals` is present and not an object, or the value of the key in it is
-- an infinity, as of 1e999.
pub get_interval-positive :
    (desired : Fields) (key : Text) (default : ℤ)
    → ltb_ℤ (pos 0) default ≡ true
    → ((z : ℤ) × (get_interval (some desired) key default ≡ some z)
        × (ltb_ℤ (pos 0) z ≡ true)
        × (is_unreadable key (field_of (text "intervals") desired) ≡ false))
      ⊎ ((get_interval (some desired) key default ≡ none)
          × (is_unreadable key (field_of (text "intervals") desired) ≡ true))
get_interval-positive desired key default h =
    let rule =
      get_interval-IntervalRule key desired default h (field_of (text "intervals") desired) refl in
    elim (Option-cases (get_interval (some desired) key default)) [
      | inl raised ↦ inr (raised, subst (IntervalRule _) raised rule)
      | inr (z, e) ↦
          inl (z, e, (subst (IntervalRule _) e rule).0, (subst (IntervalRule _) e rule).1)
    ]
