-- ===== src/Soundness/Waking.antt =====
-- Waking a receiver, consuming its token and the passing of time keep the agreement.
use oneshot.Prelude.{ℕ, ◌+◌, ◌≡◌, refl, subst, Bool, true, false, arith}
use oneshot.Memory.{Memory, Slot, uninit, init}
use oneshot.Memory
use oneshot.Protocol.Phases.{
  SenderPhase, alive, claimed, holding, notifying, finished, owner, ReceiverPhase, idle, armed,
  receiving, expired, got, over, dropped, Sync, synced, carried, detached,
}
use oneshot.Protocol.Agreement.{Woken, Roused, Agree, AgreeFinal, Synced, WakerSeen, MessageSeen}
use oneshot.Waker.{ReceiverWaker, thread, task}

module _ {T : Type 0} where
  Woken-wake : (w : ReceiverWaker) (mem : Memory T) → Woken w (Memory.wake w mem)
  Woken-wake thread mem = refl
  Woken-wake (task i) mem = ground arith

  Roused-wake_self :
      (v w : ReceiverWaker) (awake : Bool) (mem : Memory T)
      → v ≡ w
      → Roused awake w (Memory.wake v mem)
  Roused-wake_self v w true mem e = tt
  Roused-wake_self v w false mem e = subst (λ u. Woken u (Memory.wake v mem)) e (Woken-wake v mem)

  Roused-wake :
      (v w : ReceiverWaker) (awake : Bool) (mem : Memory T)
      → Roused awake w mem
      → Roused awake w (Memory.wake v mem)
  Roused-wake v w true mem r = tt
  Roused-wake thread thread false mem r = refl
  Roused-wake thread (task i) false mem r = r
  Roused-wake (task j) thread false mem r = r
  Roused-wake (task j) (task i) false mem r = ground arith

  -- What the agreement reads of the memory, but for the wake-ups.
  pub record Same (mem after : Memory T) : Type 0 where
    pub state : after.state ≡ mem.state
    pub message : after.message ≡ mem.message
    pub waker : after.waker ≡ mem.waker
    pub freed : after.freed ≡ mem.freed
    pub leaks : after.leaks ≡ mem.leaks
    pub views : after.views ≡ mem.views

  module _ (m : T) {mem after : Memory T} (same : Same mem after) where
    Synced-same : (y : Sync) → Synced y mem → Synced y after
    Synced-same synced h = ground arith
    Synced-same carried h = ground arith
    Synced-same detached h = ground arith

    WakerSeen-same : (s : Slot ReceiverWaker) → WakerSeen s mem → WakerSeen s after
    WakerSeen-same uninit h = tt
    WakerSeen-same (init w) h = ground arith

    MessageSeen-same : (visible : Bool) → MessageSeen visible mem → MessageSeen visible after
    MessageSeen-same true h = ground arith
    MessageSeen-same false h = tt

    AgreeFinal-same :
        (sent : Bool) (ρ : ReceiverPhase) → AgreeFinal m sent ρ mem → AgreeFinal m sent ρ after
    AgreeFinal-same sent (got s waker y visible) a = (
      ground arith,
      Synced-same y a.1,
      WakerSeen-same waker a.2,
      MessageSeen-same visible a.3,
      a.4,
    )
    AgreeFinal-same sent (over b s waker y) a =
        (ground arith, Synced-same y a.1, WakerSeen-same waker a.2, a.3)
    AgreeFinal-same sent dropped a = elim a [ ]
    AgreeFinal-same sent _ a = ground arith

    -- So a change of the token, the woken tasks or the clock alone keeps the agreement, if it keeps
    -- what was due to the receiver.
    pub Agree-same :
        ((w : ReceiverWaker) (awake : Bool) → Roused awake w mem → Roused awake w after)
        → (σ : SenderPhase) (ρ : ReceiverPhase) → Agree m σ ρ mem
        → Agree m σ ρ after
    Agree-same rouse (alive written closed) idle a = ground arith
    Agree-same rouse (alive written closed) (armed w) a = ground arith
    Agree-same rouse (alive written closed) (receiving w awake seen) a = ground arith
    Agree-same rouse (alive written closed) dropped a = ground arith
    Agree-same rouse (claimed sent) (receiving w awake seen) a = ground arith
    Agree-same rouse (claimed sent) (expired w awake) a = ground arith
    Agree-same rouse (holding sent v) (receiving w awake seen) a = ground arith
    Agree-same rouse (holding sent v) (expired w awake) a = ground arith
    Agree-same rouse (notifying sent v) (receiving w awake seen) a = ground arith
    Agree-same rouse (notifying sent v) (expired w awake) a = ground arith
    Agree-same rouse (notifying sent v) dropped a = elim a [ ]
    Agree-same rouse (notifying sent v) (got s waker y visible) a =
        AgreeFinal-same sent (got s waker y visible) a
    Agree-same rouse (notifying sent v) (over b s waker y) a =
        AgreeFinal-same sent (over b s waker y) a
    Agree-same rouse (notifying sent v) _ a = ground arith
    Agree-same rouse (finished sent) (receiving w awake seen) a =
        (AgreeFinal-same sent (receiving w awake seen) a.0, rouse w awake a.1)
    Agree-same rouse (finished sent) (expired w awake) a =
        (AgreeFinal-same sent (expired w awake) a.0, rouse w awake a.1)
    Agree-same rouse (finished sent) (got s waker y visible) a =
        AgreeFinal-same sent (got s waker y visible) a
    Agree-same rouse (finished sent) (over b s waker y) a =
        AgreeFinal-same sent (over b s waker y) a
    Agree-same rouse (finished sent) dropped a = elim a [ ]
    Agree-same rouse (finished sent) _ a = ground arith
    Agree-same rouse (owner full) dropped a = ground arith
    Agree-same rouse SenderPhase.released dropped a = ground arith
    Agree-same rouse _ _ a = elim a [ ]

  wake-Same : (v : ReceiverWaker) (mem : Memory T) → Same mem (Memory.wake v mem)
  wake-Same thread mem = ground arith
  wake-Same (task i) mem = ground arith

  pub wake-Agree :
      (m : T) (v : ReceiverWaker) (σ : SenderPhase) (ρ : ReceiverPhase) (mem : Memory T)
      → Agree m σ ρ mem
      → Agree m σ ρ (Memory.wake v mem)
  wake-Agree m v σ ρ mem a =
      Agree-same m (wake-Same v mem) (λ w awake. Roused-wake v w awake mem) σ ρ a

  -- The sender's wake-up pays what is due to the receiver.
  pub unpark-Agree :
      (m : T) (sent : Bool) (v : ReceiverWaker) (ρ : ReceiverPhase) (mem : Memory T)
      → Agree m (notifying sent v) ρ mem
      → Agree m (finished sent) ρ (Memory.wake v mem)
  unpark-Agree m sent v (receiving w awake seen) mem a = (
    AgreeFinal-same m (wake-Same v mem) sent (receiving w awake seen) a.0,
    Roused-wake_self v w awake mem a.1,
  )
  unpark-Agree m sent v (expired w awake) mem a = (
    AgreeFinal-same m (wake-Same v mem) sent (expired w awake) a.0,
    Roused-wake_self v w awake mem a.1,
  )
  unpark-Agree m sent v idle mem a = AgreeFinal-same m (wake-Same v mem) sent idle a
  unpark-Agree m sent v (armed w) mem a = AgreeFinal-same m (wake-Same v mem) sent (armed w) a
  unpark-Agree m sent v (got s waker y visible) mem a =
      AgreeFinal-same m (wake-Same v mem) sent (got s waker y visible) a
  unpark-Agree m sent v (over b s waker y) mem a =
      AgreeFinal-same m (wake-Same v mem) sent (over b s waker y) a
  unpark-Agree m sent v dropped mem a = elim a [ ]
  unpark-Agree m sent v (ReceiverPhase.released b) mem a =
      AgreeFinal-same m (wake-Same v mem) sent (ReceiverPhase.released b) a

  pub time-Agree :
      (m : T) (ticks : ℕ) (σ : SenderPhase) (ρ : ReceiverPhase) (mem : Memory T)
      → Agree m σ ρ mem
      → Agree m σ ρ (record mem { clock = mem.clock + ticks })
  time-Agree m ticks σ ρ mem a =
      Agree-same m (ground arith) (λ w awake r. time-Roused w awake r) σ ρ a
    where
      time-Roused :
          (w : ReceiverWaker) (awake : Bool)
          → Roused awake w mem
          → Roused awake w (record mem { clock = mem.clock + ticks })
      time-Roused w true r = tt
      time-Roused thread false r = r
      time-Roused (task i) false r = r
