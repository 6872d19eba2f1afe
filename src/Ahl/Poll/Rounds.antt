-- ===== src/Ahl/Poll/Rounds.antt =====
-- src/lib/ahl_lib.py: what one round of `poll_params` changes and reports.
use mathlib.Core.Path.{subst}
use gateway_nexy.Base.{
  ℕ, ◌≡◌, ◌≢◌, inl, inr, refl, true, false, Option, none, some, List, [], ◌∷◌, arith, In,
  Bool-cases, Option-cases, ◌∙◌, sym, ap,
}
use gateway_nexy.Base.Int.{ℤ, pos, negsuc, eq_ℤ}
use gateway_nexy.Base.Dict.{lookup, update, keys, lookup-update_self, lookup-update_ne, keys-update}
use gateway_nexy.Ahl.Database.{Database, AhlParam, eq_value, set_param}

-- The cached value of a parameter; `none` where it is not set or not in the database.
abbrev pub value_of : Option AhlParam → Option ℤ
value_of none = none
value_of (some q) = q.value

abbrev pub cached : Database → ℕ → Option ℤ
cached db p = value_of (lookup p db)

pub eq_ℤ-eq : (u v : ℤ) → eq_ℤ u v ≡ true → u ≡ v
eq_ℤ-eq (pos a) (pos b) h = ground arith
eq_ℤ-eq (negsuc a) (negsuc b) h = ground arith
eq_ℤ-eq (pos a) (negsuc b) h = cc
eq_ℤ-eq (negsuc a) (pos b) h = cc

eq_ℤ-refl : (u : ℤ) → eq_ℤ u u ≡ true
eq_ℤ-refl (pos a) = ground arith
eq_ℤ-refl (negsuc a) = ground arith

eq_value-ne : (o : Option ℤ) (v : ℤ) → eq_value o v ≡ false → o ≢ some v
eq_value-ne none v h = λ e. cc
eq_value-ne (some u) v h = λ e. ground (arith, eq_ℤ-refl v)

-- What one round does: nothing, or a new value for its parameter.
pub data Round (param : ℕ) (db : Database) (updated : List ℕ) (db' : Database) : Type 0 where
  kept : updated ≡ [] → db' ≡ db → Round param db updated db'
  changed :
      (q : AhlParam) (v : ℤ)
      → lookup param db ≡ some q
      → q.value ≢ some v
      → updated ≡ param ∷ []
      → db' ≡ update param (record q { value = some v }) db
      → Round param db updated db'

pub set_param-Round :
    (param : ℕ) (v : ℤ) (db : Database)
    → let ((updated, _), db') = set_param db param v in Round param db updated db'
unfolding set_param
set_param-Round param v db = elim (Option-cases (lookup param db)) [
  | inl e ↦ kept (ground arith) (ground arith)
  | inr (q, e) ↦ elim (Bool-cases (eq_value q.value v)) [
    | inl same ↦ kept (ground arith) (ground arith)
    | inr other ↦ changed q v e (eq_value-ne q.value v other) (ground arith) (ground arith)
  ]
]

-- The other parameters keep their entries, and the changed one has its new value.
pub Round-others :
    {param : ℕ} {db db' : Database} {updated : List ℕ} (p : ℕ)
    → Round param db updated db'
    → p ≢ param
    → lookup p db' ≡ lookup p db
Round-others p (kept u e) ne = ap (lookup p) e
Round-others {param} {db} p (changed q v l n u e) ne =
    ap (lookup p) e ∙ lookup-update_ne p param (record q { value = some v }) db ne

pub Round-In :
    {param : ℕ} {db db' : Database} {updated : List ℕ} (p : ℕ)
    → Round param db updated db'
    → In p updated
    → p ≡ param
Round-In p (kept u e) i = absurd (subst (In p) u i)
Round-In p (changed q v l n u e) i = elim (subst (In p) u i) [ inl h ↦ h | inr h ↦ absurd h ]

Round-changed :
    {param : ℕ} {db db' : Database} {updated : List ℕ}
    → Round param db updated db'
    → In param updated
    → cached db param ≢ cached db' param
Round-changed {param} (kept u e) i = absurd (subst (In param) u i)
Round-changed {param} {db} (changed q v l n u e) i = λ h. n (
    sym (ap value_of l)
    ∙ h
    ∙ ap value_of
        (ap (lookup param) e ∙ lookup-update_self param (record q { value = some v }) {w = q} db l))

pub Round-cached :
    {param : ℕ} {db db' : Database} {updated : List ℕ} (p : ℕ)
    → Round param db updated db'
    → In p updated
    → cached db p ≢ cached db' p
Round-cached {param} {db} {db'} {updated} p round i =
    let e = Round-In p round i in
    subst (λ x. cached db x ≢ cached db' x) (sym e)
      (Round-changed round (subst (λ x. In x updated) e i))

pub Round-same :
    {param : ℕ} {db db' : Database} {updated : List ℕ}
    → Round param db updated db'
    → ¬ In param updated
    → db' ≡ db
Round-same (kept u e) n = e
Round-same {param} (changed q v l m u e) n = absurd (n (subst (In param) (sym u) (inl refl)))

pub Round-keys :
    {param : ℕ} {db db' : Database} {updated : List ℕ}
    → Round param db updated db'
    → keys db' ≡ keys db
Round-keys (kept u e) = ap keys e
Round-keys {param} {db} (changed q v l n u e) =
    ap keys e ∙ keys-update param (record q { value = some v }) db
