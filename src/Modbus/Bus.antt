-- ===== src/Modbus/Bus.antt =====
-- The RS485 bus as src/liftApi/modbus_handler.py uses it: pymodbus, the device file and the disk
-- synchronisation are not part of the repository, so the handler takes them as this interface.
use mathlib.Core.Path.{subst}
use gateway_nexy.Base.{ℕ, suc, Bool, List, ◌∷◌, ◌≡◌, ◌⊎◌, inl, inr}
use gateway_nexy.Modbus.Registers.{ReadReply, WriteReply}

-- A call that raises in pymodbus gives the reply `failed`.
pub record Bus : Type 1 where
  pub State : Type 0
  -- `os.path.exists` of the device file
  pub port_exists : State → Bool × State
  -- `client.connect()` of a new client, and `client.close()`
  pub connect : State → State
  pub close_client : State → State
  -- `read_holding_registers(address, count=2)`
  pub read_registers : ℕ → State → ReadReply × State
  -- `write_registers(address, values)`
  pub write_registers : ℕ → List ℕ → State → WriteReply × State
  -- the shell command that synchronises the disk
  pub sync : State → State

-- A write request: the address and the registers.
abbrev pub Write : Type 0
Write = ℕ × List ℕ

-- The same bus with a record of every write request, the latest first, and of the number of read
-- requests.
pub record Log (S : Type 0) : Type 0 where
  pub inner : S
  pub writes : List Write
  pub reads : ℕ

abbrev pub logged : Bus → Bus
logged b = record {
  State = Log b.State;
  port_exists = λ s. let (found, i) = b.port_exists s.inner in (found, record s { inner = i });
  connect = λ s. record s { inner = b.connect s.inner };
  close_client = λ s. record s { inner = b.close_client s.inner };
  read_registers = λ addr s.
      let (reply, i) = b.read_registers addr s.inner in
      (reply, record s { inner = i; reads = suc s.reads });
  write_registers = λ addr values s.
      let (reply, i) = b.write_registers addr values s.inner in
      (reply, record s { inner = i; writes = (addr, values) ∷ s.writes });
  sync = λ s. record s { inner = b.sync s.inner };
}

-- `new` is `old` with at most `k` more entries, all of them with `P`.
pub data Added (P : Write → Type 0) (old : List Write) : ℕ → List Write → Type 0 where
  same : {k : ℕ} → Added P old k old
  more :
      {k : ℕ} {new : List Write} {e : Write}
      → P e
      → Added P old k new
      → Added P old (suc k) (e ∷ new)

pub Added-below :
    {P : Write → Type 0} (e : Write) {old new : List Write} {k : ℕ}
    → P e
    → Added P (e ∷ old) k new
    → Added P old (suc k) new
Added-below e p same = more p same
Added-below e p (more q a) = more q (Added-below e p a)

pub Added-suc :
    {P : Write → Type 0} {old new : List Write} {k : ℕ}
    → Added P old k new
    → Added P old (suc k) new
Added-suc same = same
Added-suc (more q a) = more q (Added-suc a)

pub Added-from :
    {P : Write → Type 0} {old mid new : List Write} {k : ℕ}
    → mid ≡ old
    → Added P mid k new
    → Added P old k new
Added-from {P} {new = new} {k = k} e a = subst (λ m. Added P m k new) e a

-- One step that adds at most one entry, then others.
pub Added-step :
    {P : Write → Type 0} (old mid new : List Write) (k : ℕ)
    → (mid ≡ old) ⊎ ((e : Write) × P e × (mid ≡ e ∷ old))
    → Added P mid k new
    → Added P old (suc k) new
Added-step {P} old mid new k (inl h) a = Added-suc (subst (λ m. Added P m k new) h a)
Added-step {P} old mid new k (inr (e, p, h)) a = Added-below e p (subst (λ m. Added P m k new) h a)

-- What `Added` says may be replaced by what follows from it.
pub Added-map :
    {P Q : Write → Type 0}
    → ((e : Write) → P e → Q e)
    → {old new : List Write} {k : ℕ} → Added P old k new
    → Added Q old k new
Added-map f same = same
Added-map f (more {e = e} q a) = more (f e q) (Added-map f a)
