-- ===== src/Soundness/SenderAtomic.antt =====
-- An effect of the sender keeps the two phases and the memory in agreement.
use oneshot.Prelude.{ℕ, ◌≡◌, Bool, true, false, arith}
use oneshot.Atomic.{acq_rel, Ordering, AtomicOp, load, swap, fetch_add, fetch_xor}
use oneshot.Memory.{Memory, after_atomic}
use oneshot.Memory.HappensBefore.{sender}
use oneshot.Protocol.Phases.{
  SenderPhase, alive, claimed, holding, notifying, finished, owner, ReceiverPhase, idle, armed,
  receiving, expired, dropped,
}
use oneshot.Protocol.Agreement.{Agree}
use oneshot.Waker.{ReceiverWaker}
use oneshot.Protocol.SenderRules.{AtomicRule, EndRule}

module _ {T : Type 0} (m : T) where
  abbrev pub AtomicKeeps : (ℕ → SenderPhase → Type 0) → ReceiverPhase → AtomicOp → Memory T → Type 0
  AtomicKeeps Φ ρ op mem =
      (σ : SenderPhase) × (mem.freed ≡ false)
      × Agree m σ ρ (after_atomic sender op mem)
      × Φ mem.state σ

  module _ (Φ : ℕ → SenderPhase → Type 0) (mem : Memory T) where
    load-Keeps :
        (written closed : Bool) (ρ : ReceiverPhase) (o : Ordering)
        → Agree m (alive written closed) ρ mem
        → AtomicRule (alive written closed) (load o) Φ
        → AtomicKeeps Φ ρ (load o) mem
    load-Keeps written true dropped o a h =
        (alive written true, ground arith, ground arith, rw a.0.state_is h)
    load-Keeps written true idle o a h = cc
    load-Keeps written true (armed w) o a h = cc
    load-Keeps written true (receiving w awake seen) o a h = cc
    load-Keeps written false dropped o a h =
        (alive written true, ground arith, ground arith, rw a.0.state_is h.0)
    load-Keeps written false idle o a h =
        (alive written false, ground arith, ground arith, rw a.0.state_is h.1)
    load-Keeps written false (armed w) o a h =
        (alive written false, ground arith, ground arith, rw a.0.state_is h.1)
    load-Keeps written false (receiving w awake seen) o a h =
        (alive written false, ground arith, ground arith, rw a.0.state_is h.2)
    load-Keeps _ _ _ o a h = elim a [ ]

    fetch_add-Keeps :
        (closed : Bool) (ρ : ReceiverPhase)
        → Agree m (alive true closed) ρ mem
        → EndRule true closed Φ
        → AtomicKeeps Φ ρ (fetch_add 1 acq_rel) mem
    fetch_add-Keeps true dropped a h = (owner true, ground arith, ground arith, rw a.0.state_is h)
    fetch_add-Keeps false dropped a h =
        (owner true, ground arith, ground arith, rw a.0.state_is h.0)
    fetch_add-Keeps false idle a h =
        (finished true, ground arith, ground arith, rw a.0.state_is h.1)
    fetch_add-Keeps false (armed w) a h =
        (finished true, ground arith, ground arith, rw a.0.state_is h.1)
    fetch_add-Keeps false (receiving w awake seen) a h =
        (claimed true, ground arith, ground arith, rw a.0.state_is h.2)
    fetch_add-Keeps true idle a h = cc
    fetch_add-Keeps true (armed w) a h = cc
    fetch_add-Keeps true (receiving w awake seen) a h = cc
    fetch_add-Keeps _ _ a h = elim a [ ]

    fetch_xor-Keeps :
        (closed : Bool) (ρ : ReceiverPhase)
        → Agree m (alive false closed) ρ mem
        → EndRule false closed Φ
        → AtomicKeeps Φ ρ (fetch_xor 1 acq_rel) mem
    fetch_xor-Keeps true dropped a h = (owner false, ground arith, ground arith, rw a.0.state_is h)
    fetch_xor-Keeps false dropped a h =
        (owner false, ground arith, ground arith, rw a.0.state_is h.0)
    fetch_xor-Keeps false idle a h =
        (finished false, ground arith, ground arith, rw a.0.state_is h.1)
    fetch_xor-Keeps false (armed w) a h =
        (finished false, ground arith, ground arith, rw a.0.state_is h.1)
    fetch_xor-Keeps false (receiving w awake seen) a h =
        (claimed false, ground arith, ground arith, rw a.0.state_is h.2)
    fetch_xor-Keeps true idle a h = cc
    fetch_xor-Keeps true (armed w) a h = cc
    fetch_xor-Keeps true (receiving w awake seen) a h = cc
    fetch_xor-Keeps _ _ a h = elim a [ ]

    swap-Keeps :
        (sent : Bool) (w : ReceiverWaker) (ρ : ReceiverPhase) (v : ℕ) (o : Ordering)
        → Agree m (holding sent w) ρ mem
        → AtomicRule (holding sent w) (swap v o) Φ
        → AtomicKeeps Φ ρ (swap v o) mem
    swap-Keeps sent w (receiving u awake seen) v o a h =
        (notifying sent w, ground arith, ground arith, h.2 mem.state)
    swap-Keeps sent w (expired u awake) v o a h =
        (notifying sent w, ground arith, ground arith, h.2 mem.state)
    swap-Keeps _ _ _ v o a h = elim a [ ]

    pub atomic-Keeps :
        (σ : SenderPhase) (ρ : ReceiverPhase) (op : AtomicOp)
        → Agree m σ ρ mem
        → AtomicRule σ op Φ
        → AtomicKeeps Φ ρ op mem
    atomic-Keeps (alive written true) ρ (load o) a h = load-Keeps written true ρ o a h
    atomic-Keeps (alive written false) ρ (load o) a h = load-Keeps written false ρ o a h
    atomic-Keeps (alive true closed) ρ (fetch_add v o) a h =
        rw (h.0, h.1) (fetch_add-Keeps closed ρ a h.2)
    atomic-Keeps (alive false closed) ρ (fetch_xor v o) a h =
        rw (h.0, h.1) (fetch_xor-Keeps closed ρ a h.2)
    atomic-Keeps (holding sent w) ρ (swap v o) a h = swap-Keeps sent w ρ v o a h
    atomic-Keeps _ ρ _ a h = elim h [ ]
