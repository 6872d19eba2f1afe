-- ===== src/Thousand/Updates/Rounds.antt =====
-- src/lib/thousand_lib.py: what one round of `get_updated_params` changes and reports.
use mathlib.Core.Path.{subst}
use gateway_nexy.Base.{
  ◌≡◌, ◌≢◌, ◌⊎◌, inl, inr, refl, ap, sym, ◌∙◌, true, false, Option, none, some, List, ◌∷◌, ◌++◌,
  arith, Bool-cases, Option-cases,
}
use gateway_nexy.Base.Int.{ℤ, eq_ℤ}
use gateway_nexy.Base.IntDict.{
  lookup, elem, elem-append, eq_ℤ-eq, eq_ℤ_self, lookup-update_self, lookup-update_ne,
}
use gateway_nexy.Base.Text.{Text}
use gateway_nexy.Codes.{Code, is_no_err}
use gateway_nexy.Modbus.Registers.{Val, str}
use gateway_nexy.Thousand.Signals.{Signal}
use gateway_nexy.Thousand.Protocol.{Database}
use gateway_nexy.Thousand.Lookup.{eq_val, store}
use gateway_nexy.Thousand.Updates.{Round, keep_value}

-- The parameter is reported and has another value, or it is not reported and is as it was.
abbrev pub Reported : ℤ → List ℤ → Database → Database → Type 0
Reported k changed db db' =
    ((elem k changed ≡ true)
      × (s : Signal) × (v : Val) × (lookup k db ≡ some s)
      × (eq_val s.value v ≡ false)
      × (lookup k db' ≡ some (record s { value = v })))
    ⊎ ((elem k changed ≡ false) × (lookup k db' ≡ lookup k db))

ne_of_eq_ℤ : (a b : ℤ) → eq_ℤ a b ≡ false → a ≢ b
ne_of_eq_ℤ a b h q = cc (eq_ℤ_self a, ap (eq_ℤ a) q)

module _ (p : ℤ) (v : Val) (s : Signal) (db : Database) (found : lookup p db ≡ some s) where
  pub store-Reported_self : Reported p (store p v s db).0 db (store p v s db).1
  unfolding store
  store-Reported_self = elim (Bool-cases (eq_val s.value v)) [
    | inl e ↦ inr (rw e refl, rw e refl)
    | inr e ↦
        inl (rw e (rw (eq_ℤ_self p) refl), s, v, found, e, rw e (lookup-update_self p _ db found))
  ]

  pub store-Reported_other :
      (k : ℤ)
      → eq_ℤ k p ≡ false
      → (elem k (store p v s db).0 ≡ false) × (lookup k (store p v s db).1 ≡ lookup k db)
  unfolding store
  store-Reported_other k other = elim (Bool-cases (eq_val s.value v)) [
    | inl e ↦ (rw e refl, rw e refl)
    | inr e ↦ (rw e (rw other refl), rw e (lookup-update_ne k p _ db (ne_of_eq_ℤ k p other)))
  ]

-- A round for one parameter touches this one only.
abbrev pub OnlyAt : ℤ → List ℤ → Database → Database → Type 0
OnlyAt p changed db db' =
    Reported p changed db db'
    × ((k : ℤ) → eq_ℤ k p ≡ false → (elem k changed ≡ false) × (lookup k db' ≡ lookup k db))

abbrev pub KeepsRule : ℤ → Database → Option Round → Type 0
KeepsRule p db none = Unit
KeepsRule p db (some (changed, err, db')) = OnlyAt p changed db db'

pub keep_value-KeepsRule :
    (p : ℤ) (reply : Text × Code) (err : Code) (db : Database)
    → KeepsRule p db (keep_value p reply err db)
unfolding keep_value
keep_value-KeepsRule p (value, code) err db = elim (Bool-cases (is_no_err code)) [
  | inr bad ↦ rw bad (inr (refl, refl), λ k e. (refl, refl))
  | inl good ↦ elim (Option-cases (lookup p db)) [
    | inl missing ↦ rw (good, missing, keep_value) tt
    | inr (s, found) ↦
        rw (good, found, keep_value)
          (
            store-Reported_self p (str value) s db found,
            store-Reported_other p (str value) s db found,
          )
  ]
]

-- A run over some parameters touches these only, and reports what it changes.
abbrev pub OnlyIn : List ℤ → List ℤ → Database → Database → Type 0
OnlyIn ps changed db db' =
    ((k : ℤ) → Reported k changed db db')
    × ((k : ℤ) → elem k ps ≡ false → (elem k changed ≡ false) × (lookup k db' ≡ lookup k db))

module _ (p : ℤ) (ps c c' : List ℤ) (db db₁ db₂ : Database) (fresh : elem p ps ≡ false) where
  Reported-then : (k : ℤ) → OnlyAt p c db db₁ → OnlyIn ps c' db₁ db₂ → Reported k (c ++ c') db db₂
  Reported-then k (here, others) (rest, outside) = elim (Bool-cases (eq_ℤ k p)) [
    | inl same ↦ subst (λ x. Reported x (c ++ c') db db₂) (sym (eq_ℤ-eq k p same)) at_p
    | inr other ↦ elim (rest k) [
      | inl (reported, s, v, was, differs, now_is) ↦ inl (
        rw (elem-append k c c') (rw ((others k other).0, reported) refl),
        s,
        v,
        sym (others k other).1 ∙ was,
        differs,
        now_is,
      )
      | inr (kept, same) ↦
          inr (
            rw (elem-append k c c') (rw ((others k other).0, kept) refl),
            same ∙ (others k other).1,
          )
    ]
  ]
    where
      at_p : Reported p (c ++ c') db db₂
      at_p = elim here [
        | inl (reported, s, v, was, differs, now_is) ↦ inl (
          rw (elem-append p c c') (rw reported refl),
          s,
          v,
          was,
          differs,
          (outside p fresh).1 ∙ now_is,
        )
        | inr (kept, same) ↦ inr (
          rw (elem-append p c c') (rw (kept, (outside p fresh).0) refl),
          (outside p fresh).1 ∙ same,
        )
      ]

  pub OnlyIn-then : OnlyAt p c db db₁ → OnlyIn ps c' db₁ db₂ → OnlyIn (p ∷ ps) (c ++ c') db db₂
  OnlyIn-then here rest = (
    λ k. Reported-then k here rest,
    λ k e. elim (Bool-cases (eq_ℤ k p)) [
      | inl same ↦ cc
      | inr other ↦
          let (not_c, same) = here.1 k other in
          let after = rest.1 k (ground arith) in
          (rw (elem-append k c c') (rw (not_c, after.0) refl), after.1 ∙ same)
    ],
  )
