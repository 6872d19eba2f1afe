-- ===== src/Ahl/Poll/Sweep.antt =====
-- src/lib/ahl_lib.py: what a forced full read of `poll_params` asks the lift for.
use gateway_nexy.Base.{
  append_assoc, append_empty, ℕ, ◌≡◌, refl, ◌∙◌, ◌↔◌, inl, inr, Bool, true, false, not, ◌&&◌, List,
  [], ◌∷◌, ◌++◌, ◌||◌, map, arith, elem, In, range_from, if◌then◌else◌, Bool-cases, Option-cases,
  sym,
}
use gateway_nexy.Base.Int.{pos}
use gateway_nexy.Base.Dict.{lookup, keys, elem-lookup}
use gateway_nexy.Base.Distinct.{Distinct, distinct, distinct-Distinct, In-elem, elem-In}
use gateway_nexy.Base.Text.{Text, text, str_nat}
use gateway_nexy.Codes.{is_no_err}
use gateway_nexy.Ahl.Tables.{old_polling_table, new_polling_table, decode_change_flags}
use gateway_nexy.Ahl.Database.{Database, param_ids}
use gateway_nexy.Ahl.Poll.{Reader, AhlLib, poll_one, poll_all, candidates, poll_params}
use gateway_nexy.Ahl.Poll.Rounds.{Round-keys}
use gateway_nexy.Ahl.Poll.Changes.{poll_one-Round}

-- The same handler with a record of the arguments of every read, in order.
abbrev pub recorded : Reader → Reader
recorded r = record {
  State = r.State × List (List Text);
  read_parameter =
      λ args s. let (reply, s') = r.read_parameter args s.0 in (reply, (s', s.1 ++ (args ∷ [])));
}

abbrev pub ask : ℕ → List Text
ask param = str_nat param ∷ []

-- The numbers that are keys.
abbrev known : List ℕ → List ℕ → List ℕ
known ids [] = []
known ids (param ∷ params) = if elem param ids then param ∷ known ids params else known ids params

module _ (r : Reader) where
  -- A round asks for a parameter of the database, and for nothing else.
  poll_one-requests :
      (param : ℕ) (db : Database) (s : r.State) (asked : List (List Text))
      → (poll_one (recorded r) param db (s, asked)).2.1
        ≡ (if elem param (keys db) then asked ++ (ask param ∷ []) else asked)
  unfolding poll_one
  poll_one-requests param db s asked = elim (Option-cases (lookup param db)) [
    | inl e ↦ rw (e, poll_one, elem-lookup param db e) refl
    | inr (q, e) ↦ elim (Bool-cases (is_no_err (r.read_parameter (ask param) s).0.1)) [
      | inl good ↦ rw (e, poll_one, elem-lookup param db e, good) refl
      | inr bad ↦ rw (e, poll_one, elem-lookup param db e, bad) refl
    ]
  ]

  poll_all-requests :
      (params : List ℕ) (db : Database) (s : r.State) (asked : List (List Text))
      → (poll_all (recorded r) params db (s, asked)).2.1 ≡ asked ++ map ask (known (keys db) params)
  unfolding poll_all
  poll_all-requests [] db s asked = sym (append_empty asked)
  poll_all-requests (param ∷ params) db s asked =
      let (updated, db', s') = poll_one (recorded r) param db (s, asked) in
      let same_keys = Round-keys (poll_one-Round (recorded r) param db (s, asked)) in
      let later = poll_all-requests params db' s'.0 s'.1 in
      elim (Bool-cases (elem param (keys db))) [
        | inl e ↦ rw e (
            later
            ∙ rw (same_keys, poll_one-requests param db s asked, e)
                (append_assoc asked (ask param) (map ask (known (keys db) params))))
        | inr e ↦ rw e (later ∙ rw (same_keys, poll_one-requests param db s asked, e) refl)
      ]

abbrev pub table_of : Bool → ℕ → List ℕ
table_of new_table = if new_table then new_polling_table else old_polling_table

-- The parameters that no group of the table holds.
abbrev pub never_read : Bool → List ℕ
never_read new_table =
    if new_table then 2 ∷ 334 ∷ 341 ∷ 342 ∷ 343 ∷ 346 ∷ [] else 2 ∷ range_from 127 226

-- The parameters that a full read goes through.
abbrev swept : Bool → List ℕ
swept new_table = known param_ids (decode_change_flags (table_of new_table) (pos 0x7FFFFFFF))

all_of : (ℕ → Bool) → List ℕ → Bool
all_of test [] = true
all_of test (p ∷ ps) = test p && all_of test ps

all_of-In :
    (test : ℕ → Bool) (ps : List ℕ) (p : ℕ) → all_of test ps ≡ true → In p ps → test p ≡ true
unfolding all_of
all_of-In test [] p h i = absurd i
all_of-In test (q ∷ ps) p h (inl e) = rw e (ground arith)
all_of-In test (q ∷ ps) p h (inr i) = all_of-In test ps p (ground arith) i

is_read : Bool → ℕ → Bool
is_read new_table p = elem p param_ids && not (elem p (never_read new_table))

is_swept_or_not_read : Bool → ℕ → Bool
is_swept_or_not_read new_table p = elem p (swept new_table) || elem p (never_read new_table)

swept_are_read : (new_table : Bool) → all_of (is_read new_table) (swept new_table) ≡ true
unfolding all_of is_read param_ids decode_change_flags new_polling_table old_polling_table
swept_are_read true = refl
swept_are_read false = refl

others_are_not_read : (new_table : Bool) → all_of (is_swept_or_not_read new_table) param_ids ≡ true
unfolding all_of is_swept_or_not_read param_ids decode_change_flags new_polling_table
    old_polling_table
others_are_not_read true = refl
others_are_not_read false = refl

swept-distinct : (new_table : Bool) → distinct (swept new_table) ≡ true
unfolding distinct param_ids decode_change_flags new_polling_table old_polling_table
swept-distinct true = refl
swept-distinct false = refl

swept_iff :
    (new_table : Bool) (p : ℕ)
    → In p (swept new_table) ↔ (In p param_ids × (¬ In p (never_read new_table)))
unfolding is_read is_swept_or_not_read
swept_iff new_table p = (
  (λ i.
      let read = all_of-In (is_read new_table) (swept new_table) p (swept_are_read new_table) i in
      (
        elem-In p param_ids (ground (arith, read)),
        λ n. ground (arith, read, In-elem p (never_read new_table) n),
      )),
  (λ h. elem-In p (swept new_table) (elim (Bool-cases (elem p (never_read new_table))) [
    | inl e ↦ absurd (h.1 (elem-In p (never_read new_table) e))
    | inr e ↦ ground (
      arith,
      all_of-In (is_swept_or_not_read new_table) param_ids p (others_are_not_read new_table) h.0,
    )
  ])),
)

-- A forced full read, with either table and a database of all parameters, asks the handler for
-- parameter 2 and then once for every parameter of the database but 2, 334, 341, 342, 343 and 346
-- with the new table, and but 2 and 127 to 352 with the old one; and it asks for nothing else,
-- whatever the lift answers.
pub full_read_requests :
    (r : Reader) (lib : AhlLib) (new_table : Bool) (s : r.State)
    → keys lib.database ≡ param_ids
    → lib.polling_table ≡ table_of new_table
    → (params : List ℕ) × ((poll_params (recorded r) lib true (s, [])).2.1
        ≡ (text "2" ∷ []) ∷ map ask params)
      × Distinct params
      × ((p : ℕ) → In p params ↔ (In p param_ids × (¬ In p (never_read new_table))))
unfolding poll_params candidates
full_read_requests r lib new_table s hk ht = (
  swept new_table,
  poll_all-requests r (decode_change_flags lib.polling_table (pos 0x7FFFFFFF)) lib.database
        (r.read_parameter (text "2" ∷ []) s).1 ((text "2" ∷ []) ∷ [])
      ∙ rw (hk, ht) refl,
  distinct-Distinct (swept new_table) (swept-distinct new_table),
  swept_iff new_table,
)
