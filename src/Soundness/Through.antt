-- ===== src/Soundness/Through.antt =====
-- The receiver meets a sender that is through with the channel: what it can rely on from then on.
use oneshot.Prelude.{ℕ, ◌≡◌, Bool, true, false, arith}
use oneshot.Atomic.{Ordering, relaxed, acquires, AtomicOp, load, store, swap}
use oneshot.Memory.{Memory, Slot, uninit, init, after_atomic}
use oneshot.Memory.HappensBefore.{receiver}
use oneshot.Protocol.Phases.{
  SenderPhase, notifying, finished, ReceiverPhase, got, over, Sync, synced, carried, detached,
  sync_read, sync_store,
}
use oneshot.Protocol.Agreement.{Agree, AgreeFinal, Synced, WakerSeen, MessageSeen}
use oneshot.Waker.{ReceiverWaker}

module _ {T : Type 0} (mem after : Memory T) where
  pub WakerSeen-mono :
      (mem.views.receiver.seen.waker ≡ true → after.views.receiver.seen.waker ≡ true)
      → (s : Slot ReceiverWaker) → WakerSeen s mem
      → WakerSeen s after
  WakerSeen-mono grows uninit h = tt
  WakerSeen-mono grows (init w) h = grows h

  pub MessageSeen-mono :
      (mem.views.receiver.seen.message ≡ true → after.views.receiver.seen.message ≡ true)
      → (visible : Bool) → MessageSeen visible mem
      → MessageSeen visible after
  MessageSeen-mono grows true h = grows h
  MessageSeen-mono grows false h = tt

-- What an operation of the receiver does to its synchronisation with the sender.
module _ {T : Type 0} (mem : Memory T) where
  pub Synced-load :
      (o : Ordering) (y : Sync)
      → Synced y mem
      → Synced (sync_read (acquires o) y) (after_atomic receiver (load o) mem)
  Synced-load relaxed synced h = ground arith
  Synced-load _ carried h = ground arith
  Synced-load _ detached h = ground arith
  Synced-load _ synced h = ground arith

  pub Synced-store :
      (v : ℕ) (o : Ordering) (y : Sync)
      → Synced y mem
      → Synced (sync_store y) (after_atomic receiver (store v o) mem)
  Synced-store v o synced h = ground arith
  Synced-store v o carried h = ground arith
  Synced-store v o detached h = ground arith

  pub Synced-swap :
      (v : ℕ) (o : Ordering) (y : Sync)
      → Synced y mem
      → Synced (sync_read (acquires o) y) (after_atomic receiver (swap v o) mem)
  Synced-swap v relaxed synced h = ground arith
  Synced-swap v _ carried h = ground arith
  Synced-swap v _ detached h = ground arith
  Synced-swap v _ synced h = ground arith

module _ {T : Type 0} (m : T) where
  abbrev pub AgreeAlone : Bool → ReceiverPhase → Memory T → Type 0
  AgreeAlone sent (got s waker y visible) mem = AgreeFinal m sent (got s waker y visible) mem
  AgreeAlone sent (over b s waker y) mem = AgreeFinal m sent (over b s waker y) mem
  AgreeAlone sent (ReceiverPhase.released b) mem = AgreeFinal m sent (ReceiverPhase.released b) mem
  AgreeAlone sent _ mem = ⊥

  pub notified :
      (sent : Bool) (v : ReceiverWaker) (ρ : ReceiverPhase) (after : Memory T)
      → AgreeAlone sent ρ after
      → Agree m (notifying sent v) ρ after
  notified sent v (got s waker y visible) after a = a
  notified sent v (over b s waker y) after a = a
  notified sent v (ReceiverPhase.released b) after a = a
  notified sent v _ after a = elim a [ ]

  pub ended :
      (sent : Bool) (ρ : ReceiverPhase) (after : Memory T)
      → AgreeAlone sent ρ after
      → Agree m (finished sent) ρ after
  ended sent (got s waker y visible) after a = a
  ended sent (over b s waker y) after a = a
  ended sent (ReceiverPhase.released b) after a = a
  ended sent _ after a = elim a [ ]

  -- The sender is through, whether it still has to wake the receiver or not.
  pub record Through (σ : SenderPhase) (ρ : ReceiverPhase) (mem : Memory T) : Type 0 where
    pub sent : Bool
    pub final : AgreeFinal m sent ρ mem
    pub lift :
        (ρ' : ReceiverPhase) (after : Memory T) → AgreeAlone sent ρ' after → Agree m σ ρ' after

  pub got-Through :
      (σ : SenderPhase) (s : ℕ) (waker : Slot ReceiverWaker) (y : Sync) (visible : Bool)
      (mem : Memory T)
      → Agree m σ (got s waker y visible) mem
      → Through σ (got s waker y visible) mem
  got-Through (notifying sent v) s waker y visible mem a = record {
    sent = sent;
    final = a;
    lift = notified sent v;
  }
  got-Through (finished sent) s waker y visible mem a = record {
    sent = sent;
    final = a;
    lift = ended sent;
  }
  got-Through _ s waker y visible mem a = elim a [ ]

  pub over-Through :
      (σ : SenderPhase) (b : Bool) (s : ℕ) (waker : Slot ReceiverWaker) (y : Sync) (mem : Memory T)
      → Agree m σ (over b s waker y) mem
      → Through σ (over b s waker y) mem
  over-Through (notifying sent v) b s waker y mem a = record {
    sent = sent;
    final = a;
    lift = notified sent v;
  }
  over-Through (finished sent) b s waker y mem a = record {
    sent = sent;
    final = a;
    lift = ended sent;
  }
  over-Through _ b s waker y mem a = elim a [ ]

  abbrev pub AloneKeeps : (ℕ → ReceiverPhase → Type 0) → Bool → AtomicOp → Memory T → Type 0
  AloneKeeps Φ sent op mem =
      (ρ : ReceiverPhase) × (mem.freed ≡ false)
      × AgreeAlone sent ρ (after_atomic receiver op mem)
      × Φ mem.state ρ
