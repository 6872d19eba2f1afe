-- ===== src/Modbus/Read/Effects.antt =====
-- src/liftApi/modbus_handler.py: what `read_parameter` does to the bus, and what it may report.
use gateway_nexy.Base.{
  ℕ, zero, suc, ◌+◌, ◌≤◌, ◌≡◌, ◌≢◌, ◌⊎◌, ◌∙◌, if◌then◌else◌, Bool, ◌*◌, ◌||◌, true, false, some,
  List, [], ◌∷◌, arith,
}
use gateway_nexy.Base.Int.{IsInt32, c_int32-IsInt32, pos, negsuc}
use gateway_nexy.Base.Text.{Text, str_nat}
use gateway_nexy.Modbus.Registers.RoundTrip.{convert_param_addr-str_nat, parse_int_value-str_nat}
use gateway_nexy.Modbus.Connection.Lifecycle.{
  admit, checked-eq-admit, admit-writes, admit-reads, admit-open, IsValid,
}
use gateway_nexy.Codes.{Code, is_no_err, is_lcm_err, no_err, link_err}
use gateway_nexy.Modbus.Bus.{Bus, Log, logged}
use gateway_nexy.Modbus.Registers.{
  validate_read_param_response, ReadReply, convert_param_addr, str, send,
}
use gateway_nexy.Modbus.Connection.{World, Reply}
use gateway_nexy.Modbus.Read.{
  serial_read_param, read_tries, read_parameter_body, read_parameter, validate_inputs, head_text,
  is_zero,
}

-- A reply that reports no error carries a signed 32-bit value.
pub validate_read_param_response-IsInt32 :
    (reply : ReadReply)
    → (validate_read_param_response reply).1 ≡ no_err
    → IsInt32 (validate_read_param_response reply).0
unfolding validate_read_param_response
validate_read_param_response-IsInt32 ReadReply.failed e = cc
validate_read_param_response-IsInt32 ReadReply.malformed e = cc
validate_read_param_response-IsInt32 (ReadReply.response true fc rs) e = cc
validate_read_param_response-IsInt32 (ReadReply.response false fc []) e = cc
validate_read_param_response-IsInt32 (ReadReply.response false fc (r ∷ [])) e = cc
validate_read_param_response-IsInt32 (ReadReply.response false fc (r ∷ s ∷ [])) e =
    ground (arith, c_int32-IsInt32 (pos (r * 65536 + s)))
validate_read_param_response-IsInt32 (ReadReply.response false fc (r ∷ s ∷ t ∷ rs)) e = cc

-- No further attempt is made after this code.
abbrev pub is_decisive : Code → Bool
is_decisive code = is_no_err code || is_lcm_err code

more_reads : (a a' k : ℕ) → a' ≤ a + 1 → a' ≤ a + suc k
more_reads a a' k h = omega arith

reads_then : (a a' a'' k : ℕ) → a' ≤ a + 1 → a'' ≤ a' + k → a'' ≤ a + suc k
reads_then a a' a'' k h h' = omega arith

module _ (b : Bus) where
  -- From the world `w` no write was requested and at most `k` reads were; the connection stayed
  -- as it was.
  pub record OnlyReads (k : ℕ) (w w' : World (Log b.State)) : Type 0 where
    pub writes_same : w'.bus.writes ≡ w.bus.writes
    pub reads_bounded : w'.bus.reads ≤ w.bus.reads + k

  serial_read_param-OnlyReads :
      (p : Text) (w : World (Log b.State)) → OnlyReads 1 w (serial_read_param (logged b) p w).1
  unfolding serial_read_param
  serial_read_param-OnlyReads p w = ground arith

  serial_read_param-has_client :
      (p : Text) (w : World (Log b.State))
      → (serial_read_param (logged b) p w).1.has_client ≡ w.has_client
  unfolding serial_read_param
  serial_read_param-has_client p w = ground arith

  serial_read_param-reads :
      (p : Text) {addr : ℕ} (w : World (Log b.State))
      → convert_param_addr (str p) send ≡ some addr
      → w.has_client ≡ true
      → (serial_read_param (logged b) p w).1.bus.reads ≡ w.bus.reads + 1
  unfolding serial_read_param
  serial_read_param-reads p w e h = ground arith

  OnlyReads-if :
      (k : ℕ) (w : World (Log b.State)) (test : Bool) (x y : Reply × World (Log b.State))
      → OnlyReads k w x.1
      → OnlyReads k w y.1
      → OnlyReads k w (if test then x else y).1
  OnlyReads-if k w true x y hx hy = hx
  OnlyReads-if k w false x y hx hy = hy

  OnlyReads-more : (k : ℕ) (w w' : World (Log b.State)) → OnlyReads 1 w w' → OnlyReads (suc k) w w'
  OnlyReads-more k w w' h = record {
    writes_same = h.writes_same;
    reads_bounded = more_reads w.bus.reads w'.bus.reads k h.reads_bounded;
  }

  OnlyReads-then :
      (k : ℕ) (w w' w'' : World (Log b.State))
      → OnlyReads 1 w w'
      → OnlyReads k w' w''
      → OnlyReads (suc k) w w''
  OnlyReads-then k w w' w'' h h' = record {
    writes_same = h'.writes_same ∙ h.writes_same;
    reads_bounded =
        reads_then w.bus.reads w'.bus.reads w''.bus.reads k h.reads_bounded h'.reads_bounded;
  }

  read_tries-OnlyReads :
      (k : ℕ) (p : Text) (ret : Reply) (w : World (Log b.State))
      → OnlyReads k w (read_tries (logged b) k p ret w).1
  unfolding read_tries
  read_tries-OnlyReads zero p ret w = ground arith
  read_tries-OnlyReads (suc k) p ret w =
      let (reply, w') = serial_read_param (logged b) p w in
      let ret' = validate_read_param_response reply in
      let first = serial_read_param-OnlyReads p w in
      OnlyReads-if (suc k) w (is_no_err ret'.1 || is_lcm_err ret'.1) (ret', w')
        (read_tries (logged b) k p ret' w') (OnlyReads-more k w w' first)
        (OnlyReads-then k w w' (read_tries (logged b) k p ret' w').1 first
          (read_tries-OnlyReads k p ret' w'))

  read_tries-IsInt32 :
      (k : ℕ) (p : Text) (ret : Reply) (w : World (Log b.State))
      → (ret.1 ≡ no_err → IsInt32 ret.0)
      → (read_tries (logged b) k p ret w).0.1 ≡ no_err
      → IsInt32 (read_tries (logged b) k p ret w).0.0
  unfolding read_tries
  read_tries-IsInt32 zero p ret w h e = h e
  read_tries-IsInt32 (suc k) p ret w h e =
      let (reply, w') = serial_read_param (logged b) p w in
      ground (
        arith,
        validate_read_param_response-IsInt32 reply,
        read_tries-IsInt32 k p (validate_read_param_response reply) w'
            (validate_read_param_response-IsInt32 reply),
      )

  -- A result that is not decisive comes after all the rounds.
  read_tries-exhausts :
      (k : ℕ) (p : Text) {addr : ℕ} (ret : Reply) (w : World (Log b.State))
      → convert_param_addr (str p) send ≡ some addr
      → w.has_client ≡ true
      → is_decisive (read_tries (logged b) k p ret w).0.1 ≡ false
      → (read_tries (logged b) k p ret w).1.bus.reads ≡ w.bus.reads + k
  unfolding read_tries
  read_tries-exhausts zero p ret w e h d = omega arith
  read_tries-exhausts (suc k) p ret w e h d =
      let (reply, w') = serial_read_param (logged b) p w in
      ground (
        arith,
        serial_read_param-has_client p w,
        serial_read_param-reads p w e h,
        read_tries-exhausts k p (validate_read_param_response reply) w' e,
      )

  read_parameter_body-OnlyReads :
      (par : List Text) (w : World (Log b.State))
      → OnlyReads 3 w (read_parameter_body (logged b) par w).1
  unfolding read_parameter_body
  read_parameter_body-OnlyReads par w =
      ground (arith, read_tries-OnlyReads 3 (head_text par) (validate_inputs par 1) w)

  validate_inputs-ne_zero :
      (par : List Text)
      → is_zero (validate_inputs par 1).0 ≡ false
      → (validate_inputs par 1).1 ≢ no_err
  unfolding validate_inputs
  validate_inputs-ne_zero par h = ground arith

  validate_inputs-zero :
      (par : List Text) → (validate_inputs par 1).1 ≡ no_err → IsInt32 (validate_inputs par 1).0
  unfolding validate_inputs
  validate_inputs-zero par h = ground arith

  read_parameter_body-IsInt32 :
      (par : List Text) (w : World (Log b.State))
      → (read_parameter_body (logged b) par w).0.1 ≡ no_err
      → IsInt32 (read_parameter_body (logged b) par w).0.0
  unfolding read_parameter_body
  read_parameter_body-IsInt32 par w = ground (
    arith,
    validate_inputs-zero par,
    read_tries-IsInt32 3 (head_text par) (validate_inputs par 1) w (validate_inputs-zero par),
  )

  validate_inputs-str_nat : (n : ℕ) → validate_inputs (str_nat n ∷ []) 1 ≡ (pos 0, no_err)
  unfolding validate_inputs
  validate_inputs-str_nat n = ground (arith, parse_int_value-str_nat n)

  read_parameter_body-exhausts :
      (n : ℕ) (w : World (Log b.State))
      → w.has_client ≡ true
      → is_decisive (read_parameter_body (logged b) (str_nat n ∷ []) w).0.1 ≡ false
      → (read_parameter_body (logged b) (str_nat n ∷ []) w).1.bus.reads ≡ w.bus.reads + 3
  unfolding read_parameter_body
  read_parameter_body-exhausts n w h =
      rw (validate_inputs-str_nat n)
        (read_tries-exhausts 3 (str_nat n) (pos 0, no_err) w (convert_param_addr-str_nat n) h)

  -- `read_parameter` requests no write and at most three reads, and a value that it reports without
  -- an error is a signed 32-bit number.
  pub read_parameter_effects :
      (par : List Text) (w : World (Log b.State))
      → let (ret, w') = read_parameter (logged b) par w in
        OnlyReads 3 w w' × ((is_no_err ret.1 ≡ false) ⊎ IsInt32 ret.0)
  unfolding read_parameter
  read_parameter_effects par w =
      let (go, w') = admit (logged b) w in
      rw checked-eq-admit (
        ground (
          arith,
          admit-writes b w,
          admit-reads b w,
          read_parameter_body-OnlyReads par w',
          read_parameter_body-IsInt32 par w',
        ))

  -- A handler gives up on a parameter number only after three requests: an error other than
  -- `LCM_ERR`, or `LINK_ERR` when the port is gone, is reported after exactly three.
  pub read_parameter_retries :
      (n : ℕ) (w : World (Log b.State))
      → IsValid w
      → is_decisive (read_parameter (logged b) (str_nat n ∷ []) w).0.1 ≡ false
      → let (ret, w') = read_parameter (logged b) (str_nat n ∷ []) w in
        (ret.1 ≡ link_err) ⊎ (w'.bus.reads ≡ w.bus.reads + 3)
  unfolding read_parameter
  read_parameter_retries n w v d =
      let (go, w') = admit (logged b) w in
      let q =
        checked-eq-admit (logged b) (negsuc 0, link_err)
          (read_parameter_body (logged b) (str_nat n ∷ [])) w in
      rw q (
        ground (
          arith,
          admit-reads b w,
          admit-open (logged b) w v,
          read_parameter_body-exhausts n w',
          rw q at d,
        ))
