-- ===== src/Ahl/Tables/Coverage.antt =====
-- src/lib/ahl_lib.py: which parameters the change flags select.
use gateway_nexy.Base.{
  ℕ, zero, suc, ◌+◌, ◌≤◌, ◌<◌, ◌≡◌, refl, inl, inr, ◌↔◌, Bool, true, false, List, [], ◌∷◌, ◌++◌,
  arith, In, In-append_left, In-append_right, In-append_cases, range_from, Bool-cases, ◌==◌,
  if◌then◌else◌,
}
use gateway_nexy.Base.Int.{ℤ, bit_set}
use gateway_nexy.Base.Distinct.{
  Distinct, distinct, distinct-Distinct, Distinct-tail, Distinct-append,
}
use gateway_nexy.Ahl.Tables.{old_polling_table, new_polling_table, decode_bits, decode_change_flags}

-- A group that the flags select: the bit is set, and the parameter stands in its group.
pub record Flagged (table : ℕ → List ℕ) (bitmask : ℤ) (param : ℕ) : Type 0 where
  pub bit : ℕ
  pub in_range : bit < 31
  pub is_set : bit_set bitmask bit ≡ true
  pub in_group : In param (table bit)

In-if : (t : Bool) (a : ℕ) (xs : List ℕ) → In a (if t then xs else []) → (t ≡ true) × In a xs
In-if true a xs h = (refl, h)
In-if false a xs h = absurd h

decode_bits_sound :
    (table : ℕ → List ℕ) (bitmask : ℤ) (param n k : ℕ)
    → In param (decode_bits table bitmask (range_from n k))
    → (bit : ℕ) × (bit < n + k) × (bit_set bitmask bit ≡ true) × In param (table bit)
unfolding decode_bits
decode_bits_sound table bitmask param n zero h = absurd h
decode_bits_sound table bitmask param n (suc k) h =
    let rest = decode_bits table bitmask (range_from (suc n) k) in
    let later = decode_bits_sound table bitmask param (suc n) k in
    elim (In-append_cases param (if bit_set bitmask n then table n else []) rest h) [
      | inl here ↦
          (let (set, i) = In-if (bit_set bitmask n) param (table n) here in
            (n, omega arith, set, i))
      | inr there ↦ (let (bit, lt, set, i) = later there in (bit, omega arith, set, i))
    ]

decode_bits_complete :
    (table : ℕ → List ℕ) (bitmask : ℤ) (param n k bit : ℕ)
    → n ≤ bit
    → bit < n + k
    → bit_set bitmask bit ≡ true
    → In param (table bit)
    → In param (decode_bits table bitmask (range_from n k))
unfolding decode_bits
decode_bits_complete table bitmask param n zero bit low high set h = absurd (omega arith)
decode_bits_complete table bitmask param n (suc k) bit low high set h =
    elim (Bool-cases (n == bit)) [
      | inl e ↦
          (let same : n ≡ bit = ground arith in
            rw same (rw set (In-append_left param (table bit) _ h)))
      | inr e ↦ In-append_right param _ _ (
          decode_bits_complete table bitmask param (suc n) k bit (ground arith) (omega arith) set h)
    ]

-- `decode_change_flags` selects a parameter exactly when the bit of one of its groups is set, for
-- every table and every value of the flags.
pub decode_change_flags_iff :
    (table : ℕ → List ℕ) (bitmask : ℤ) (param : ℕ)
    → In param (decode_change_flags table bitmask) ↔ Flagged table bitmask param
unfolding decode_change_flags
decode_change_flags_iff table bitmask param = (
  λ h.
      let (bit, lt, set, i) = decode_bits_sound table bitmask param 0 31 h in
      record { bit = bit; in_range = omega arith; is_set = set; in_group = i },
  λ f.
      decode_bits_complete table bitmask param 0 31 f.bit (omega arith) (omega (arith, f.in_range))
        f.is_set f.in_group,
)

-- Without duplicates in the concatenated groups there are none in the selected ones.
all_groups : (ℕ → List ℕ) → List ℕ → List ℕ
all_groups table [] = []
all_groups table (bit ∷ bits) = table bit ++ all_groups table bits

all_groups_old : distinct (all_groups old_polling_table (range_from 0 31)) ≡ true
unfolding all_groups old_polling_table distinct
all_groups_old = refl

all_groups_new : distinct (all_groups new_polling_table (range_from 0 31)) ≡ true
unfolding all_groups new_polling_table distinct
all_groups_new = refl

decode_bits-sub :
    (table : ℕ → List ℕ) (bitmask : ℤ) (bits : List ℕ) (a : ℕ)
    → In a (decode_bits table bitmask bits)
    → In a (all_groups table bits)
unfolding decode_bits all_groups
decode_bits-sub table bitmask [] a h = h
decode_bits-sub table bitmask (bit ∷ bits) a h =
    elim (In-append_cases a (if bit_set bitmask bit then table bit else []) _ h) [
      | inl here ↦ In-append_left a (table bit) _ (In-if _ a (table bit) here).1
      | inr there ↦ In-append_right a (table bit) _ (decode_bits-sub table bitmask bits a there)
    ]

decode_bits-Distinct :
    (table : ℕ → List ℕ) (bitmask : ℤ) (bits : List ℕ)
    → Distinct (all_groups table bits)
    → Distinct (decode_bits table bitmask bits)
unfolding decode_bits all_groups
decode_bits-Distinct table bitmask [] h = tt
decode_bits-Distinct table bitmask (bit ∷ bits) h =
    let rest = decode_bits-Distinct table bitmask bits (Distinct-tail (table bit) _ h) in
    elim (Bool-cases (bit_set bitmask bit)) [
      | inl t ↦ rw t (
          Distinct-append (table bit) (all_groups table bits) (decode_bits table bitmask bits)
            (decode_bits-sub table bitmask bits) h rest)
      | inr t ↦ rw t rest
    ]

-- Whatever the flags are, no parameter is selected twice, so a poll reads each at most once.
pub decode_change_flags-Distinct :
    (bitmask : ℤ)
    → Distinct (decode_change_flags old_polling_table bitmask)
      × Distinct (decode_change_flags new_polling_table bitmask)
unfolding decode_change_flags
decode_change_flags-Distinct bitmask = (
  decode_bits-Distinct old_polling_table bitmask (range_from 0 31)
      (distinct-Distinct _ all_groups_old),
  decode_bits-Distinct new_polling_table bitmask (range_from 0 31)
      (distinct-Distinct _ all_groups_new),
)
