-- ===== src/Modbus/Upgrade/Transfer.antt =====
-- src/liftApi/modbus_handler.py: which records `write_upgrade_package` has transferred.
use gateway_nexy.Base.{
  ◌≡◌, refl, sym, ap, ◌∙◌, ◌⊎◌, inl, inr, ℕ, zero, suc, ◌+◌, ◌*◌, ◌≤◌, Bool, true, false, Option,
  none, some, List, [], ◌∷◌, ◌++◌, length, drop, length-drop, length-take, take-append-drop, arith,
  Bool-cases, Option-cases, if◌then◌else◌,
}
use gateway_nexy.Base.Int.{pos}
use gateway_nexy.Base.Text.{Text}
use gateway_nexy.Codes.{no_err}
use gateway_nexy.Modbus.Bus.{Log, logged}
use gateway_nexy.Modbus.Connection.{World}
use gateway_nexy.Modbus.Upgrade.{
  Bytes, UpgradeBus, write_accepted, records_of, get_record_data, max_tries, write_record,
  write_records, write_package, write_checked_package, validate_up_file,
}

-- The bytes of all records.
abbrev pub joined : List Bytes → Bytes
joined [] = []
joined (r ∷ rs) = r ++ joined rs

-- Records of at least one byte and at most a request's.
abbrev pub Fit : List Bytes → Type 0
Fit [] = Unit
Fit (r ∷ rs) = (1 ≤ length r) × (length r ≤ 244) × Fit rs

joined-records_of : (n : ℕ) (file : Bytes) → length file ≤ n → joined (records_of n file) ≡ file
unfolding records_of
joined-records_of zero [] h = refl
joined-records_of zero (b ∷ file) h = ground arith
joined-records_of (suc n) [] h = refl
joined-records_of (suc n) (b ∷ file) h =
    rw (joined-records_of n (drop 244 (b ∷ file)) (rw length-drop (omega arith)))
      (take-append-drop 244 (b ∷ file))

records_of-Fit : (n : ℕ) (file : Bytes) → Fit (records_of n file)
unfolding records_of
records_of-Fit zero file = search
records_of-Fit (suc n) [] = search
records_of-Fit (suc n) (b ∷ file) =
    let size = length-take 244 (b ∷ file) in
    (omega arith, omega arith, records_of-Fit n (drop 244 (b ∷ file)))

-- The same interface with a record of the accepted writes, the last one first, and with the requests
-- counted.
abbrev pub tracked : UpgradeBus → UpgradeBus
tracked u = record {
  bus = logged u.bus;
  upgrade_package_path = u.upgrade_package_path;
  read_file = λ path s. let (file, i) = u.read_file path s.inner in (file, record s { inner = i });
  hex_dump = λ path s. let (out, i) = u.hex_dump path s.inner in (out, record s { inner = i });
  write_data = λ n bytes s.
      let (reply, i) = u.write_data n bytes s.inner in
      (
        reply,
        record s {
          inner = i;
          reads = suc s.reads;
          writes = if write_accepted reply then (n, bytes) ∷ s.writes else s.writes;
        },
      );
}

-- The log of writes after the records from a number on.
abbrev pub sent : ℕ → List Bytes → List (ℕ × Bytes) → List (ℕ × Bytes)
sent n [] writes = writes
sent n (r ∷ rs) writes = sent (suc n) rs ((n, r) ∷ writes)

-- A transfer that has failed, or that has left this log.
abbrev pub Sent : {S : Type 0} → List (ℕ × Bytes) → Bool × World (Log S) → Type 0
Sent writes (done, w) = (done ≡ false) ⊎ (w.bus.writes ≡ writes)

Sent-to :
    {S : Type 0} {a b : List (ℕ × Bytes)} (r : Bool × World (Log S)) → a ≡ b → Sent a r → Sent b r
Sent-to r e (inl h) = inl h
Sent-to r e (inr h) = inr (h ∙ e)

module _ (u : UpgradeBus) where
  write_record-Sent :
      (next : World (Log u.bus.State) → Bool × World (Log u.bus.State))
      (f : List (ℕ × Bytes) → List (ℕ × Bytes)) (tries n : ℕ) (r : Bytes)
      (w : World (Log u.bus.State))
      → ((w' : World (Log u.bus.State)) → Sent (f w'.bus.writes) (next w'))
      → Sent (f ((n, r) ∷ w.bus.writes)) (write_record (tracked u) next tries n r w)
  unfolding write_record
  write_record-Sent next f zero n r w h = inl refl
  write_record-Sent next f (suc tries) n r w h =
      let w' = record w { bus = ((tracked u).write_data n r w.bus).1 } in
      elim (Bool-cases (write_accepted (u.write_data n r w.bus.inner).0)) [
        | inl e ↦
            rw (e, write_record)
              (Sent-to (next w')
                (ap f (ap (λ b. if b then (n, r) ∷ w.bus.writes else w.bus.writes) e)) (h w'))
        | inr e ↦
            rw (e, write_record)
              (Sent-to (write_record (tracked u) next tries n r w')
                (ap f (ap (λ b. (n, r) ∷ (if b then (n, r) ∷ w.bus.writes else w.bus.writes)) e))
                (write_record-Sent next f tries n r w' h))
      ]

  write_records-Sent :
      (n : ℕ) (rs : List Bytes) (w : World (Log u.bus.State))
      → Sent (sent n rs w.bus.writes) (write_records (tracked u) n rs w)
  unfolding write_records
  write_records-Sent n [] w = inr refl
  write_records-Sent n (r ∷ rs) w =
      write_record-Sent (write_records (tracked u) (suc n) rs) (sent (suc n) rs) max_tries n r w
        (write_records-Sent (suc n) rs)

  write_record-reads :
      (next : World (Log u.bus.State) → Bool × World (Log u.bus.State)) (m tries n : ℕ) (r : Bytes)
      (w : World (Log u.bus.State))
      → ((w' : World (Log u.bus.State)) → (next w').1.bus.reads ≤ w'.bus.reads + m)
      → (write_record (tracked u) next tries n r w).1.bus.reads ≤ w.bus.reads + (tries + m)
  unfolding write_record
  write_record-reads next m zero n r w h = omega arith
  write_record-reads next m (suc tries) n r w h =
      let w' = record w { bus = ((tracked u).write_data n r w.bus).1 } in
      elim (Bool-cases (write_accepted (u.write_data n r w.bus.inner).0)) [
        | inl e ↦ let others = h w' in rw (e, write_record) (omega arith)
        | inr e ↦
            let others = write_record-reads next m tries n r w' h in
            rw (e, write_record) (omega arith)
      ]

  -- A transfer makes at most 20 requests for each of its records.
  pub write_records-reads :
      (n : ℕ) (rs : List Bytes) (w : World (Log u.bus.State))
      → (write_records (tracked u) n rs w).1.bus.reads ≤ w.bus.reads + 20 * length rs
  unfolding write_records
  write_records-reads n [] w = omega arith
  write_records-reads n (r ∷ rs) w =
      let h =
        write_record-reads (write_records (tracked u) (suc n) rs) (20 * length rs) max_tries n r w
          (write_records-reads (suc n) rs) in
      omega (arith, h)

  write_checked_package-sent :
      (filename : Text) (out : Option Text) (rs : List Bytes) (w' w'' : World (Log u.bus.State))
      → (write_checked_package (tracked u) filename out rs w' w'').0 ≡ (pos 0, no_err)
      → (validate_up_file filename ≡ true)
        × ((write_checked_package (tracked u) filename out rs w' w'').1.bus.writes
            ≡ sent 0 rs w''.bus.writes)
  unfolding write_checked_package
  write_checked_package-sent filename out rs w' w'' e =
      let h = write_records-Sent 0 rs w'' in ground (arith, h)

  -- The worlds after the file is read and after its hex dump.
  abbrev read_world : Text → World (Log u.bus.State) → World (Log u.bus.State)
  read_world path w = record w { bus = ((tracked u).read_file path w.bus).1 }

  abbrev dump_of : Text → World (Log u.bus.State) → Option Text × Log u.bus.State
  dump_of path w = (tracked u).hex_dump path (read_world path w).bus

  write_package-none :
      (filename path : Text) (w : World (Log u.bus.State))
      → (get_record_data (u.read_file path w.bus.inner).0).0 ≡ none
      → (write_package (tracked u) filename path w).0.0 ≡ pos 1
  unfolding write_package
  write_package-none filename path w e = rw (e, write_package) refl

  write_package-some :
      (filename path : Text) (w : World (Log u.bus.State)) (records : List Bytes)
      → (get_record_data (u.read_file path w.bus.inner).0).0 ≡ some records
      → write_package (tracked u) filename path w
        ≡ write_checked_package
            (tracked u)
            filename
            (dump_of path w).0
            records
            (read_world path w)
            (record w { bus = (dump_of path w).1 })
  unfolding write_package write_checked_package
  write_package-some filename path w records e = rw (e, write_package) refl

  get_record_data-some :
      (read : Option Bytes) (records : List Bytes)
      → (get_record_data read).0 ≡ some records
      → (file : Bytes) × (read ≡ some file) × (joined records ≡ file) × Fit records
  unfolding get_record_data
  get_record_data-some none records e = ground arith
  get_record_data-some (some []) records e = ground arith
  get_record_data-some (some (b ∷ file)) records e =
      let same : records_of (suc (length file)) (b ∷ file) ≡ records = cc in
      (
        b ∷ file,
        refl,
        rw (← same) (joined-records_of (suc (length file)) (b ∷ file) (omega arith)),
        rw (← same) (records_of-Fit (suc (length file)) (b ∷ file)),
      )

  -- When a package is reported as transferred, the file exists and has a valid name, and the accepted
  -- writes are the records of the file in order, from number 0 on, each of 1 to 244 bytes, and joined
  -- they are the bytes of the file.
  pub transfer_is_complete :
      (filename path : Text) (w : World (Log u.bus.State))
      → (write_package (tracked u) filename path w).0 ≡ (pos 0, no_err)
      → (file : Bytes) × (records : List Bytes) × ((u.read_file path w.bus.inner).0 ≡ some file)
        × (validate_up_file filename ≡ true)
        × (joined records ≡ file)
        × Fit records
        × ((write_package (tracked u) filename path w).1.bus.writes ≡ sent 0 records w.bus.writes)
  transfer_is_complete filename path w e =
      elim (Option-cases (get_record_data (u.read_file path w.bus.inner).0).0) [
        | inl none_read ↦
            (let missing = write_package-none filename path w none_read in
              ground (arith, missing, e))
        | inr (records, some_read) ↦
            let (file, found, same, fit) =
              get_record_data-some (u.read_file path w.bus.inner).0 records some_read in
            let eq = write_package-some filename path w records some_read in
            let sent_all =
              write_checked_package-sent filename (dump_of path w).0 records (read_world path w)
                (record w { bus = (dump_of path w).1 }) (ap (λ r. r.0) (sym eq) ∙ e) in
            (file, records, found, sent_all.0, same, fit, ap (λ r. r.1.bus.writes) eq ∙ sent_all.1)
      ]
