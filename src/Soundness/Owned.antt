-- ===== src/Soundness/Owned.antt =====
-- The receiver uses a channel that it has found the sender to be through with.
use oneshot.Prelude.{ℕ, Bool, arith}
use oneshot.Atomic.{Ordering, acquires, load, store, swap}
use oneshot.Memory.{Memory, Slot}
use oneshot.Protocol.Phases.{ReceiverPhase, got, over, Sync, sync_read, sync_store}
use oneshot.Protocol.Agreement.{AgreeFinal}
use oneshot.Waker.{ReceiverWaker}
use oneshot.Soundness.Through.{
  WakerSeen-mono, MessageSeen-mono, Synced-load, Synced-store, Synced-swap, AloneKeeps,
}

module _ {T : Type 0} (m : T) (Φ : ℕ → ReceiverPhase → Type 0) (mem : Memory T) where
  pub got_load :
      (sent : Bool) (s : ℕ) (waker : Slot ReceiverWaker) (y : Sync) (visible : Bool) (o : Ordering)
      → AgreeFinal m sent (got s waker y visible) mem
      → Φ s (got s waker (sync_read (acquires o) y) visible)
      → AloneKeeps m Φ sent (load o) mem
  got_load sent s waker y visible o a h = (
    got s waker (sync_read (acquires o) y) visible,
    ground arith,
    (
      ground arith,
      Synced-load mem o y a.1,
      WakerSeen-mono mem _ (ground arith) waker a.2,
      MessageSeen-mono mem _ (ground arith) visible a.3,
      a.4,
    ),
    rw a.0.state_is h,
  )

  pub got_store :
      (sent : Bool) (s : ℕ) (waker : Slot ReceiverWaker) (y : Sync) (visible : Bool) (v : ℕ)
      (o : Ordering)
      → AgreeFinal m sent (got s waker y visible) mem
      → Φ s (got v waker (sync_store y) visible)
      → AloneKeeps m Φ sent (store v o) mem
  got_store sent s waker y visible v o a h = (
    got v waker (sync_store y) visible,
    ground arith,
    (
      ground arith,
      Synced-store mem v o y a.1,
      WakerSeen-mono mem _ (ground arith) waker a.2,
      MessageSeen-mono mem _ (ground arith) visible a.3,
      a.4,
    ),
    rw a.0.state_is h,
  )

  pub got_swap :
      (sent : Bool) (s : ℕ) (waker : Slot ReceiverWaker) (y : Sync) (visible : Bool) (v : ℕ)
      (o : Ordering)
      → AgreeFinal m sent (got s waker y visible) mem
      → Φ s (got v waker (sync_read (acquires o) y) visible)
      → AloneKeeps m Φ sent (swap v o) mem
  got_swap sent s waker y visible v o a h = (
    got v waker (sync_read (acquires o) y) visible,
    ground arith,
    (
      ground arith,
      Synced-swap mem v o y a.1,
      WakerSeen-mono mem _ (ground arith) waker a.2,
      MessageSeen-mono mem _ (ground arith) visible a.3,
      a.4,
    ),
    rw a.0.state_is h,
  )

  pub over_load :
      (sent b : Bool) (s : ℕ) (waker : Slot ReceiverWaker) (y : Sync) (o : Ordering)
      → AgreeFinal m sent (over b s waker y) mem
      → Φ s (over b s waker (sync_read (acquires o) y))
      → AloneKeeps m Φ sent (load o) mem
  over_load sent b s waker y o a h = (
    over b s waker (sync_read (acquires o) y),
    ground arith,
    (ground arith, Synced-load mem o y a.1, WakerSeen-mono mem _ (ground arith) waker a.2, a.3),
    rw a.0.state_is h,
  )

  pub over_store :
      (sent b : Bool) (s : ℕ) (waker : Slot ReceiverWaker) (y : Sync) (v : ℕ) (o : Ordering)
      → AgreeFinal m sent (over b s waker y) mem
      → Φ s (over b v waker (sync_store y))
      → AloneKeeps m Φ sent (store v o) mem
  over_store sent b s waker y v o a h = (
    over b v waker (sync_store y),
    ground arith,
    (ground arith, Synced-store mem v o y a.1, WakerSeen-mono mem _ (ground arith) waker a.2, a.3),
    rw a.0.state_is h,
  )

  pub over_swap :
      (sent b : Bool) (s : ℕ) (waker : Slot ReceiverWaker) (y : Sync) (v : ℕ) (o : Ordering)
      → AgreeFinal m sent (over b s waker y) mem
      → Φ s (over b v waker (sync_read (acquires o) y))
      → AloneKeeps m Φ sent (swap v o) mem
  over_swap sent b s waker y v o a h = (
    over b v waker (sync_read (acquires o) y),
    ground arith,
    (ground arith, Synced-swap mem v o y a.1, WakerSeen-mono mem _ (ground arith) waker a.2, a.3),
    rw a.0.state_is h,
  )
