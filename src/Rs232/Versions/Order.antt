-- ===== src/Rs232/Versions/Order.antt =====
-- src/liftApi/rs232_handler.py: the order of the versions.
use gateway_nexy.Base.{
  arith, Bool, true, false, some, [], ◌∷◌, ◌≡◌, refl, sym, ◌∙◌, ◌⊎◌, inl, inr, ◌↔◌, Bool-cases,
  if◌then◌else◌,
}
use gateway_nexy.Base.Int.{ℤ, pos, negsuc, ltb_ℤ}
use gateway_nexy.Base.Text.{Text, int_of}
use gateway_nexy.Modbus.Registers.{Val, str, int}
use gateway_nexy.Thousand.Lookup.{eq_val}
use gateway_nexy.Rs232.Versions.{
  int_val, Version, is_below, compare_versions, versions_reached, required_version,
}

true_ne_false : true ≡ false → ⊥
true_ne_false h = ground arith

-- The main number counts first, then the sub number.
abbrev pub IsBelow : Version → Version → Type 0
IsBelow (main, sub) (main', sub') =
    (ltb_ℤ main main' ≡ true) ⊎ ((main ≡ main') × (ltb_ℤ sub sub' ≡ true))

is_below_iff : (a b : Version) → (is_below a b ≡ true) ↔ IsBelow a b
unfolding is_below
is_below_iff (pos m, sub) (pos m', sub') = ground arith
is_below_iff (pos m, sub) (negsuc m', sub') = ground arith
is_below_iff (negsuc m, sub) (pos m', sub') = ground arith
is_below_iff (negsuc m, sub) (negsuc m', sub') = ground arith

-- An installed version is reached where it is not below the required one.
abbrev pub Reaches : Version → Version → Type 0
Reaches installed required = IsBelow installed required → ⊥

is_below-Reaches : (a b : Version) → (is_below a b ≡ false) ↔ Reaches a b
is_below-Reaches a b = elim (Bool-cases (is_below a b)) [
  | inl e ↦ (λ e'. absurd (true_ne_false (sym e ∙ e')), λ h. absurd (h ((is_below_iff a b).0 e)))
  | inr e ↦ (λ _ below. true_ne_false (sym ((is_below_iff a b).1 below) ∙ e), λ _. e)
]

read_version : (a : Val) (z : ℤ) → int_val a ≡ some z → eq_val a (str []) ≡ false
unfolding int_of
read_version (str []) z h = ground arith
read_version (str (c ∷ s)) z h = refl
read_version (int y) z h = refl

compared :
    (a b : Bool)
    → ((if a then false else if b then false else true) ≡ true) ↔ ((a ≡ false) × (b ≡ false))
compared a b = ground arith

-- The versions of the two boards are reached exactly where neither is below the required one, the
-- main number first and the sub number where the main ones are equal. All values and both required
-- versions are numbers.
pub versions_reached_iff :
    (a b c d : Val) (u1 u16 : Version) (u1_required u16_required : Text) (v1 v16 : Version)
    → int_val a ≡ some u1.0
    → int_val b ≡ some u1.1
    → int_val c ≡ some u16.0
    → int_val d ≡ some u16.1
    → required_version u1_required ≡ some v1
    → required_version u16_required ≡ some v16
    → (versions_reached a b c d (u1_required, u16_required) ≡ true)
      ↔ (Reaches u1 v1 × Reaches u16 v16)
unfolding versions_reached compare_versions
versions_reached_iff a b c d u1 u16 u1_required u16_required v1 v16 ha hb hc hd h1 h16 =
    rw
      (
        read_version a u1.0 ha,
        read_version b u1.1 hb,
        read_version c u16.0 hc,
        read_version d u16.1 hd,
        ha,
        hb,
        hc,
        hd,
        h1,
        h16,
      )
      (
        λ h. (
          (is_below-Reaches u1 v1).0 ((compared (is_below u1 v1) (is_below u16 v16)).0 h).0,
          (is_below-Reaches u16 v16).0 ((compared (is_below u1 v1) (is_below u16 v16)).0 h).1,
        ),
        λ h.
            (compared (is_below u1 v1) (is_below u16 v16)).1
              ((is_below-Reaches u1 v1).1 h.0, (is_below-Reaches u16 v16).1 h.1),
      )
