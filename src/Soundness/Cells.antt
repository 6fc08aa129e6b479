-- ===== src/Soundness/Cells.antt =====
-- The receiver's accesses to the message, to the waker and to its park token keep the two phases and
-- the memory in agreement.
use oneshot.Prelude.{◌≡◌, Bool, true, false, arith}
use oneshot.Atomic.{Ordering, acquires}
use oneshot.Memory.{Memory, Slot, uninit, init, fence}
use oneshot.Memory.HappensBefore.{receiver, message_cell, waker_cell}
use oneshot.Protocol.Phases.{
  SenderPhase, alive, claimed, holding, notifying, finished, idle, armed, receiving, expired, Sync,
  synced, carried, detached, CanTake,
}
use oneshot.Protocol.Agreement.{Agree, Synced, MessageSeen}
use oneshot.Soundness.Access.{touched}
use oneshot.Waker.{ReceiverWaker}

module _ {T : Type 0} (m : T) (mem : Memory T) where
  -- What an access to the waker needs: the channel, what the field holds, and to have seen all
  -- accesses of the sender to it.
  pub record WakerAccessible (waker : Slot ReceiverWaker) : Type 0 where
    pub live : mem.freed ≡ false
    pub seen : mem.views.receiver.seen.waker ≡ true
    pub holds : mem.waker ≡ waker

  pub idle-Accessible : (σ : SenderPhase) → Agree m σ idle mem → WakerAccessible uninit
  idle-Accessible (alive written closed) a = ground arith
  idle-Accessible (notifying sent v) a = ground arith
  idle-Accessible (finished sent) a = ground arith
  idle-Accessible _ a = elim a [ ]

  pub armed-Accessible :
      (σ : SenderPhase) (w : ReceiverWaker) → Agree m σ (armed w) mem → WakerAccessible (init w)
  armed-Accessible (alive written closed) w a = ground arith
  armed-Accessible (notifying sent v) w a = ground arith
  armed-Accessible (finished sent) w a = ground arith
  armed-Accessible _ w a = elim a [ ]

  abbrev pub stored : Slot ReceiverWaker → Memory T
  stored slot = record (touched receiver waker_cell mem) { waker = slot }

  abbrev pub emptied : Memory T
  emptied = record (touched receiver message_cell mem) { message = uninit }

  pub write_waker-Agree :
      (σ : SenderPhase) (w : ReceiverWaker)
      → Agree m σ idle mem
      → Agree m σ (armed w) (stored (init w))
  write_waker-Agree (alive written closed) w a = ground arith
  write_waker-Agree (notifying sent v) w a = ground arith
  write_waker-Agree (finished sent) w a = ground arith
  write_waker-Agree _ w a = elim a [ ]

  pub drop_waker-Agree :
      (σ : SenderPhase) (w : ReceiverWaker)
      → Agree m σ (armed w) mem
      → Agree m σ idle (stored uninit)
  drop_waker-Agree (alive written closed) w a = ground arith
  drop_waker-Agree (notifying sent v) w a = ground arith
  drop_waker-Agree (finished sent) w a = ground arith
  drop_waker-Agree _ w a = elim a [ ]

  -- Consuming the token wakes the receiver.
  pub receiving-consume :
      (σ : SenderPhase) (w : ReceiverWaker) (awake seen : Bool)
      → Agree m σ (receiving w awake seen) mem
      → Agree m σ (receiving w true seen) (record mem { token = false })
  receiving-consume (alive written closed) w awake seen a = ground arith
  receiving-consume (claimed sent) w awake seen a = ground arith
  receiving-consume (holding sent v) w awake seen a = ground arith
  receiving-consume (notifying sent v) w awake seen a = ground arith
  receiving-consume (finished sent) w awake seen a = ground arith
  receiving-consume _ w awake seen a = elim a [ ]

  pub expired-consume :
      (σ : SenderPhase) (w : ReceiverWaker) (awake : Bool)
      → Agree m σ (expired w awake) mem
      → Agree m σ (expired w true) (record mem { token = false })
  expired-consume (claimed sent) w awake a = ground arith
  expired-consume (holding sent v) w awake a = ground arith
  expired-consume (notifying sent v) w awake a = ground arith
  expired-consume (finished sent) w awake a = ground arith
  expired-consume _ w awake a = elim a [ ]

  -- Once alone, the receiver may take what is in the fields.
  pub Synced-fence :
      (o : Ordering) (y : Sync)
      → acquires o ≡ true
      → Synced y mem
      → Synced synced (fence receiver o mem)
  Synced-fence o synced e h = ground arith
  Synced-fence o carried e h = ground arith
  Synced-fence o detached e h = ground arith

  pub Synced-stored : (slot : Slot ReceiverWaker) (y : Sync) → Synced y mem → Synced y (stored slot)
  Synced-stored slot synced h = ground arith
  Synced-stored slot carried h = ground arith
  Synced-stored slot detached h = ground arith

  pub Synced-emptied : (y : Sync) → Synced y mem → Synced y emptied
  Synced-emptied synced h = ground arith
  Synced-emptied carried h = ground arith
  Synced-emptied detached h = ground arith

  pub CanTake-seen :
      (y : Sync) (visible : Bool)
      → CanTake y visible
      → Synced y mem
      → MessageSeen visible mem
      → mem.views.receiver.seen.message ≡ true
  CanTake-seen synced visible c h v = h.message
  CanTake-seen carried true c h v = v
  CanTake-seen detached true c h v = v
  CanTake-seen _ false c h v = ground arith
