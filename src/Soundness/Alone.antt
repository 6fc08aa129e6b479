-- ===== src/Soundness/Alone.antt =====
-- The receiver finds that the sender is through with the channel.
use oneshot.Prelude.{ℕ, ◌≡◌, Bool, true, false, arith}
use oneshot.Atomic.{Ordering, acquires, releases, acq_rel, load, swap, compare_exchange}
use oneshot.Memory.{Memory, uninit, init}
use oneshot.Protocol.Phases.{
  ReceiverPhase, idle, armed, receiving, expired, got, over, synced, sync_of,
}
use oneshot.Protocol.Agreement.{AgreeFinal}
use oneshot.Protocol.ReceiverRules.{FoundFinal}
use oneshot.Waker.{ReceiverWaker}
use oneshot.States
use oneshot.Soundness.Through.{AloneKeeps}

module _ {T : Type 0} (m : T) (Φ : ℕ → ReceiverPhase → Type 0) (mem : Memory T) where
  pub idle_load :
      (sent : Bool) (o : Ordering)
      → AgreeFinal m sent idle mem
      → FoundFinal States.message States.disconnected uninit (sync_of (acquires o)) false Φ
      → AloneKeeps m Φ sent (load o) mem
  idle_load true o a h = (
    got States.message uninit (sync_of (acquires o)) false,
    ground arith,
    ground arith,
    rw a.0.state_is h.0,
  )
  idle_load false o a h = (
    over false States.disconnected uninit (sync_of (acquires o)),
    ground arith,
    ground arith,
    rw a.0.state_is h.1,
  )

  pub idle_swap :
      (sent : Bool)
      → AgreeFinal m sent idle mem
      → FoundFinal States.disconnected States.disconnected uninit synced false Φ
      → AloneKeeps m Φ sent (swap States.disconnected acq_rel) mem
  idle_swap true a h =
      (got States.disconnected uninit synced false, ground arith, ground arith, rw a.0.state_is h.0)
  idle_swap false a h = (
    over false States.disconnected uninit synced,
    ground arith,
    ground arith,
    rw a.0.state_is h.1,
  )

  pub armed_swap :
      (sent : Bool) (w : ReceiverWaker) (o : Ordering)
      → releases o ≡ true
      → AgreeFinal m sent (armed w) mem
      → FoundFinal States.receiving States.receiving (init w) (sync_of (acquires o)) false Φ
      → AloneKeeps m Φ sent (swap States.receiving o) mem
  armed_swap true w o r a h = (
    got States.receiving (init w) (sync_of (acquires o)) false,
    ground arith,
    ground arith,
    rw a.0.state_is h.0,
  )
  armed_swap false w o r a h = (
    over false States.receiving (init w) (sync_of (acquires o)),
    ground arith,
    ground arith,
    rw a.0.state_is h.1,
  )

  pub armed_exchange :
      (sent : Bool) (w : ReceiverWaker) (s f : Ordering)
      → AgreeFinal m sent (armed w) mem
      → FoundFinal States.message States.disconnected (init w) (sync_of (acquires f)) false Φ
      → AloneKeeps m Φ sent (compare_exchange States.empty States.receiving s f) mem
  armed_exchange true w s f a h = (
    got States.message (init w) (sync_of (acquires f)) false,
    ground arith,
    ground arith,
    rw a.0.state_is h.0,
  )
  armed_exchange false w s f a h = (
    over false States.disconnected (init w) (sync_of (acquires f)),
    ground arith,
    ground arith,
    rw a.0.state_is h.1,
  )

  pub receiving_load :
      (sent : Bool) (w : ReceiverWaker) (awake seen : Bool) (o : Ordering)
      → AgreeFinal m sent (receiving w awake seen) mem
      → FoundFinal States.message States.disconnected uninit (sync_of (acquires o)) false Φ
      → AloneKeeps m Φ sent (load o) mem
  receiving_load true w awake seen o a h = (
    got States.message uninit (sync_of (acquires o)) false,
    ground arith,
    ground arith,
    rw a.0.state_is h.0,
  )
  receiving_load false w awake seen o a h = (
    over false States.disconnected uninit (sync_of (acquires o)),
    ground arith,
    ground arith,
    rw a.0.state_is h.1,
  )

  pub receiving_swap :
      (sent : Bool) (w : ReceiverWaker) (awake seen : Bool) (o : Ordering)
      → acquires o ≡ true
      → AgreeFinal m sent (receiving w awake seen) mem
      → FoundFinal States.empty States.empty uninit synced false Φ
      → AloneKeeps m Φ sent (swap States.empty o) mem
  receiving_swap true w awake seen o r a h =
      (got States.empty uninit synced false, ground arith, ground arith, rw a.0.state_is h.0)
  receiving_swap false w awake seen o r a h =
      (over false States.empty uninit synced, ground arith, ground arith, rw a.0.state_is h.1)

  pub receiving_exchange :
      (sent : Bool) (w : ReceiverWaker) (awake seen : Bool) (s f : Ordering)
      → AgreeFinal m sent (receiving w awake seen) mem
      → FoundFinal States.message States.disconnected uninit (sync_of (acquires f)) false Φ
      → AloneKeeps m Φ sent (compare_exchange States.receiving States.empty s f) mem
  receiving_exchange true w awake seen s f a h = (
    got States.message uninit (sync_of (acquires f)) false,
    ground arith,
    ground arith,
    rw a.0.state_is h.0,
  )
  receiving_exchange false w awake seen s f a h = (
    over false States.disconnected uninit (sync_of (acquires f)),
    ground arith,
    ground arith,
    rw a.0.state_is h.1,
  )

  pub expired_load :
      (sent : Bool) (w : ReceiverWaker) (awake : Bool) (o : Ordering)
      → AgreeFinal m sent (expired w awake) mem
      → FoundFinal States.message States.disconnected uninit (sync_of (acquires o)) true Φ
      → AloneKeeps m Φ sent (load o) mem
  expired_load true w awake o a h = (
    got States.message uninit (sync_of (acquires o)) true,
    ground arith,
    ground arith,
    rw a.0.state_is h.0,
  )
  expired_load false w awake o a h = (
    over false States.disconnected uninit (sync_of (acquires o)),
    ground arith,
    ground arith,
    rw a.0.state_is h.1,
  )
