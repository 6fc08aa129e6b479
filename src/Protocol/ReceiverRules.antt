-- ===== src/Protocol/ReceiverRules.antt =====
-- The rules for the receiving thread, and what it means that a program follows them.
use oneshot.Prelude.{ℕ, ◌≡◌, ◌⊎◌, Bool, true, false}
use oneshot.Atomic.{acq_rel, acquires, releases, AtomicOp, load, store, swap, compare_exchange}
use oneshot.Memory.{Slot, uninit, init, Model, interleaving}
use oneshot.Program.{
  Program, Action, ret, unreachable, out_of_fuel, atomic, act, take_message, now, fence,
  drop_message, write_waker, drop_waker, dealloc, park, park_timeout, spin_loop, unpark,
}
use oneshot.Protocol.Phases.{
  ReceiverPhase, idle, armed, receiving, expired, got, over, dropped, released, Sync, synced,
  sync_of, sync_read, sync_store, CanTake,
}
use oneshot.Waker.{ReceiverWaker, thread}
use oneshot.States

-- The sender was found to be through: with its message in the channel, or without.
abbrev pub FoundFinal :
    ℕ → ℕ → Slot ReceiverWaker → Sync → Bool → (ℕ → ReceiverPhase → Type 0) → Type 0
FoundFinal after_message after_close waker y visible Φ =
    Φ States.message (got after_message waker y visible)
    × Φ States.disconnected (over false after_close waker y)

-- An answer that is ruled out when the sender was seen to be waking the receiver.
abbrev pub Unless : Bool → Type 0 → Type 0
Unless true P = Unit
Unless false P = P

abbrev pub AtomicRule : ReceiverPhase → AtomicOp → (ℕ → ReceiverPhase → Type 0) → Type 0
AtomicRule idle (load o) Φ =
    Φ States.empty idle
    × FoundFinal States.message States.disconnected uninit (sync_of (acquires o)) false Φ
AtomicRule idle (swap v o) Φ =
    (v ≡ States.disconnected)
    × (o ≡ acq_rel)
    × Φ States.empty dropped
    × FoundFinal States.disconnected States.disconnected uninit synced false Φ
AtomicRule (armed w) (swap v o) Φ =
    (v ≡ States.receiving)
    × (releases o ≡ true)
    × Φ States.empty (receiving w false false)
    × FoundFinal States.receiving States.receiving (init w) (sync_of (acquires o)) false Φ
AtomicRule (armed w) (compare_exchange c n s f) Φ =
    (c ≡ States.empty)
    × (n ≡ States.receiving)
    × (releases s ≡ true)
    × Φ States.empty (receiving w false false)
    × FoundFinal States.message States.disconnected (init w) (sync_of (acquires f)) false Φ
AtomicRule (receiving w awake seen) (load o) Φ =
    Unless seen (Φ States.receiving (receiving w false false))
    × Φ States.unparking (receiving w false true)
    × FoundFinal States.message States.disconnected uninit (sync_of (acquires o)) false Φ
AtomicRule (receiving w awake seen) (swap v o) Φ =
    (v ≡ States.empty)
    × (acquires o ≡ true)
    × Unless seen (Φ States.receiving (armed w))
    × Φ States.unparking (expired w false)
    × FoundFinal States.empty States.empty uninit synced false Φ
AtomicRule (receiving w awake seen) (compare_exchange c n s f) Φ =
    (c ≡ States.receiving)
    × (n ≡ States.empty)
    × Unless seen (Φ States.receiving (armed w))
    × Φ States.unparking (receiving w false true)
    × FoundFinal States.message States.disconnected uninit (sync_of (acquires f)) false Φ
AtomicRule (expired w awake) (load o) Φ =
    Φ States.empty (expired w false)
    × FoundFinal States.message States.disconnected uninit (sync_of (acquires o)) true Φ
AtomicRule (got s waker y visible) (load o) Φ = Φ s (got s waker (sync_read (acquires o) y) visible)
AtomicRule (got s waker y visible) (store v o) Φ = Φ s (got v waker (sync_store y) visible)
AtomicRule (got s waker y visible) (swap v o) Φ =
    Φ s (got v waker (sync_read (acquires o) y) visible)
AtomicRule (over b s waker y) (load o) Φ = Φ s (over b s waker (sync_read (acquires o) y))
AtomicRule (over b s waker y) (store v o) Φ = Φ s (over b v waker (sync_store y))
AtomicRule (over b s waker y) (swap v o) Φ = Φ s (over b v waker (sync_read (acquires o) y))
AtomicRule _ _ Φ = ⊥

module _ {T : Type 0} (model : Model) where
  -- In the release-acquire model the channel is freed only after all accesses of the sender.
  abbrev pub ActRule : ReceiverPhase → Action T → (ReceiverPhase → Type 0) → Type 0
  ActRule idle (write_waker w) Φ = Φ (armed w)
  ActRule (armed w) drop_waker Φ = Φ idle
  ActRule (receiving w awake seen) park Φ =
      (w ≡ thread) × (awake ≡ false) × Φ (receiving w true seen)
  ActRule (receiving w awake seen) (park_timeout d) Φ = Φ (receiving w true seen)
  ActRule (expired w awake) park Φ = (w ≡ thread) × (awake ≡ false) × Φ (expired w true)
  ActRule (got s waker y visible) (fence o) Φ = (acquires o ≡ true) × Φ (got s waker synced visible)
  ActRule (got s (init w) y visible) drop_waker Φ = Φ (got s uninit y visible)
  ActRule (got s waker y visible) drop_message Φ = CanTake y visible × Φ (over true s waker y)
  ActRule (over b s waker y) (fence o) Φ = (acquires o ≡ true) × Φ (over b s waker synced)
  ActRule (over b s (init w) y) drop_waker Φ = Φ (over b s uninit y)
  ActRule (over b s uninit y) dealloc Φ = ((model ≡ interleaving) ⊎ (y ≡ synced)) × Φ (released b)
  ActRule ρ spin_loop Φ = Φ ρ
  ActRule ρ (unpark w) Φ = Φ ρ
  ActRule _ _ Φ = ⊥

  -- A program keeps to the rules from a phase on, when the message that arrives, if any, is `m`. It
  -- ends with a result and in a phase of `Q`, and never reaches a panic.
  abbrev pub Receives :
      {R : Type 0} → T → (R → ReceiverPhase → Type 0) → ReceiverPhase → Program T R → Type 0
  Receives m Q ρ (ret r) = Q r ρ
  Receives m Q ρ unreachable = ⊥
  Receives m Q ρ out_of_fuel = Unit
  Receives m Q ρ (atomic op k) = AtomicRule ρ op (λ v ρ'. Receives m Q ρ' (k v))
  Receives m Q ρ (act a p) = ActRule ρ a (λ ρ'. Receives m Q ρ' p)
  Receives m Q (got s waker y visible) (take_message k) =
      CanTake y visible × Receives m Q (over true s waker y) (k m)
  Receives m Q ρ (now k) = (t : ℕ) → Receives m Q ρ (k t)
  Receives m Q _ _ = ⊥
