-- ===== src/Protocol/SenderRules.antt =====
-- The rules for the sending thread, and what it means that a program follows them.
use oneshot.Prelude.{ℕ, ◌≡◌, Bool, true, false}
use oneshot.Atomic.{acq_rel, releases, AtomicOp, load, swap, fetch_add, fetch_xor}
use oneshot.Program.{
  Program, Action, ret, unreachable, out_of_fuel, atomic, act, take_message, read_message,
  take_waker, now, write_message, drop_message, dealloc, unpark,
}
use oneshot.Protocol.Phases.{
  SenderPhase, alive, claimed, holding, notifying, finished, owner, released, final_state,
}
use oneshot.Waker.{ReceiverWaker}
use oneshot.States

-- After an operation that ends the sender's part, `sent` or not: what it found decides.
abbrev pub EndRule : Bool → Bool → (ℕ → SenderPhase → Type 0) → Type 0
EndRule sent true Φ = Φ States.disconnected (owner sent)
EndRule sent false Φ =
    Φ States.disconnected (owner sent)
    × Φ States.empty (finished sent)
    × Φ States.receiving (claimed sent)

abbrev pub AtomicRule : SenderPhase → AtomicOp → (ℕ → SenderPhase → Type 0) → Type 0
AtomicRule (alive written true) (load o) Φ = Φ States.disconnected (alive written true)
AtomicRule (alive written false) (load o) Φ =
    Φ States.disconnected (alive written true)
    × Φ States.empty (alive written false)
    × Φ States.receiving (alive written false)
AtomicRule (alive true closed) (fetch_add v o) Φ = (v ≡ 1) × (o ≡ acq_rel) × EndRule true closed Φ
AtomicRule (alive false closed) (fetch_xor v o) Φ = (v ≡ 1) × (o ≡ acq_rel) × EndRule false closed Φ
AtomicRule (holding sent w) (swap v o) Φ =
    (v ≡ final_state sent) × (releases o ≡ true) × ((found : ℕ) → Φ found (notifying sent w))
AtomicRule _ _ Φ = ⊥

module _ {T : Type 0} (m : T) where
  abbrev pub ActRule : SenderPhase → Action T → (SenderPhase → Type 0) → Type 0
  ActRule (alive false closed) (write_message n) Φ = (n ≡ m) × Φ (alive true closed)
  ActRule (notifying sent v) (unpark w) Φ = (w ≡ v) × Φ (finished sent)
  ActRule (owner true) drop_message Φ = Φ (owner false)
  ActRule (owner false) dealloc Φ = Φ released
  ActRule _ _ Φ = ⊥

  -- A program keeps to the rules from a phase on, and ends in a phase and with a result of `Q`. It
  -- never reaches a panic.
  abbrev pub Sends : {R : Type 0} → (R → SenderPhase → Type 0) → SenderPhase → Program T R → Type 0
  Sends Q σ (ret r) = Q r σ
  Sends Q σ unreachable = ⊥
  Sends Q σ out_of_fuel = ⊥
  Sends Q σ (atomic op k) = AtomicRule σ op (λ v σ'. Sends Q σ' (k v))
  Sends Q σ (act a p) = ActRule σ a (λ σ'. Sends Q σ' p)
  Sends Q (owner true) (take_message k) = Sends Q (owner false) (k m)
  Sends Q (owner true) (read_message k) = Sends Q (owner true) (k m)
  Sends Q (claimed sent) (take_waker k) = (w : ReceiverWaker) → Sends Q (holding sent w) (k w)
  Sends Q σ (now k) = (t : ℕ) → Sends Q σ (k t)
  Sends Q _ _ = ⊥
