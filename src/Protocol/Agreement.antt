-- ===== src/Protocol/Agreement.antt =====
-- What a pair of phases says of the memory.
use oneshot.Prelude.{ℕ, ◌≡◌, Bool, true, false, ◌||◌, ◌==◌, if◌then◌else◌, List, [], ◌∷◌}
use oneshot.Waker.{ReceiverWaker, thread, task}
use oneshot.Memory.{Memory, Slot, uninit, init}
use oneshot.Protocol.Phases.{
  SenderPhase, alive, claimed, holding, notifying, finished, owner, ReceiverPhase, idle, armed,
  receiving, expired, got, over, dropped, Sync, synced, carried, detached, final_state,
}
use oneshot.States

abbrev pub has_task : ℕ → List ℕ → Bool
has_task i [] = false
has_task i (j ∷ js) = (j == i) || has_task i js

module _ {T : Type 0} where
  -- The waker has been woken, and the wake-up was not consumed.
  abbrev pub Woken : ReceiverWaker → Memory T → Type 0
  Woken thread mem = mem.token ≡ true
  Woken (task i) mem = has_task i mem.woken ≡ true

  abbrev pub Roused : Bool → ReceiverWaker → Memory T → Type 0
  Roused true w mem = Unit
  Roused false w mem = Woken w mem

  pub record Shape (state : ℕ) (message : Slot T) (waker : Slot ReceiverWaker) (mem : Memory T)
      : Type 0 where
    pub state_is : mem.state ≡ state
    pub message_is : mem.message ≡ message
    pub waker_is : mem.waker ≡ waker
    pub live : mem.freed ≡ false
    pub tight : mem.leaks ≡ 0

  pub record Freed (mem : Memory T) : Type 0 where
    pub gone : mem.freed ≡ true
    pub tight : mem.leaks ≡ 0

  abbrev SenderSeenMessage : Memory T → Type 0
  SenderSeenMessage mem = mem.views.sender.seen.message ≡ true

  abbrev SenderSeenWaker : Memory T → Type 0
  SenderSeenWaker mem = mem.views.sender.seen.waker ≡ true

  abbrev ReceiverSeenMessage : Memory T → Type 0
  ReceiverSeenMessage mem = mem.views.receiver.seen.message ≡ true

  abbrev ReceiverSeenWaker : Memory T → Type 0
  ReceiverSeenWaker mem = mem.views.receiver.seen.waker ≡ true

  abbrev SenderReleasedMessage : Memory T → Type 0
  SenderReleasedMessage mem = mem.views.sender.released.message ≡ true

  pub record Published (mem : Memory T) : Type 0 where
    pub message : mem.views.sender.released.message ≡ true
    pub waker : mem.views.sender.released.waker ≡ true
    pub channel : mem.views.sender.released.channel ≡ true

  pub record Pending (mem : Memory T) : Type 0 where
    pub message : mem.views.receiver.pending.message ≡ true
    pub waker : mem.views.receiver.pending.waker ≡ true
    pub channel : mem.views.receiver.pending.channel ≡ true

  pub record ReceiverSeen (mem : Memory T) : Type 0 where
    pub message : mem.views.receiver.seen.message ≡ true
    pub waker : mem.views.receiver.seen.waker ≡ true
    pub channel : mem.views.receiver.seen.channel ≡ true

  pub record SenderSeen (mem : Memory T) : Type 0 where
    pub message : mem.views.sender.seen.message ≡ true
    pub waker : mem.views.sender.seen.waker ≡ true
    pub channel : mem.views.sender.seen.channel ≡ true

  -- The receiver's drop is published with the state.
  pub record HandedOver (mem : Memory T) : Type 0 where
    pub message : mem.views.receiver.released.message ≡ true
    pub waker : mem.views.receiver.released.waker ≡ true
    pub channel : mem.views.receiver.released.channel ≡ true

  abbrev pub Synced : Sync → Memory T → Type 0
  Synced synced mem = ReceiverSeen mem
  Synced carried mem = Pending mem × Published mem
  Synced detached mem = Pending mem

  abbrev pub WakerSeen : Slot ReceiverWaker → Memory T → Type 0
  WakerSeen uninit mem = Unit
  WakerSeen (init w) mem = ReceiverSeenWaker mem

  abbrev pub MessageSeen : Bool → Memory T → Type 0
  MessageSeen true mem = ReceiverSeenMessage mem
  MessageSeen false mem = Unit

  abbrev content : T → Bool → Slot T
  content m full = if full then init m else uninit

  -- The sender is through with the channel, having `sent` or not.
  abbrev pub AgreeFinal : T → Bool → ReceiverPhase → Memory T → Type 0
  AgreeFinal m sent idle mem =
      Shape (final_state sent) (content m sent) uninit mem × Published mem × ReceiverSeenWaker mem
  AgreeFinal m sent (armed w) mem =
      Shape (final_state sent) (content m sent) (init w) mem × Published mem × ReceiverSeenWaker mem
  AgreeFinal m sent (receiving w awake seen) mem =
      Shape (final_state sent) (content m sent) uninit mem × Published mem
  AgreeFinal m sent (expired w awake) mem =
      Shape (final_state sent) (content m sent) uninit mem × Published mem × ReceiverSeenMessage mem
  AgreeFinal m sent (got state waker y visible) mem =
      Shape state (init m) waker mem
      × Synced y mem
      × WakerSeen waker mem
      × MessageSeen visible mem
      × (sent ≡ true)
  AgreeFinal m sent (over b state waker y) mem =
      Shape state uninit waker mem × Synced y mem × WakerSeen waker mem × (sent ≡ b)
  AgreeFinal m sent dropped mem = ⊥
  AgreeFinal m sent (ReceiverPhase.released b) mem = Freed mem × (sent ≡ b)

  -- `m` is the message that the sender sends, if it sends one.
  abbrev pub Agree : T → SenderPhase → ReceiverPhase → Memory T → Type 0
  Agree m (alive written closed) idle mem =
      Shape States.empty (content m written) uninit mem
      × SenderSeenMessage mem
      × ReceiverSeenWaker mem
      × (closed ≡ false)
  Agree m (alive written closed) (armed w) mem =
      Shape States.empty (content m written) (init w) mem
      × SenderSeenMessage mem
      × ReceiverSeenWaker mem
      × (closed ≡ false)
  Agree m (alive written closed) (receiving w awake seen) mem =
      Shape States.receiving (content m written) (init w) mem
      × SenderSeenMessage mem
      × ReceiverSeenWaker mem
      × (mem.views.receiver.released.waker ≡ true)
      × (closed ≡ false)
      × (seen ≡ false)
  Agree m (alive written closed) dropped mem =
      Shape States.disconnected (content m written) uninit mem
      × SenderSeenMessage mem
      × HandedOver mem
  Agree m (claimed sent) (receiving w awake seen) mem =
      Shape States.unparking (content m sent) (init w) mem
      × SenderSeenWaker mem
      × SenderReleasedMessage mem
  Agree m (claimed sent) (expired w awake) mem =
      Shape States.empty (content m sent) (init w) mem
      × SenderSeenWaker mem
      × ReceiverSeenMessage mem
  Agree m (holding sent v) (receiving w awake seen) mem =
      Shape States.unparking (content m sent) uninit mem × SenderReleasedMessage mem × (v ≡ w)
  Agree m (holding sent v) (expired w awake) mem =
      Shape States.empty (content m sent) uninit mem × ReceiverSeenMessage mem × (v ≡ w)
  Agree m (notifying sent v) (receiving w awake seen) mem =
      AgreeFinal m sent (receiving w awake seen) mem × (v ≡ w)
  Agree m (notifying sent v) (expired w awake) mem =
      AgreeFinal m sent (expired w awake) mem × (v ≡ w)
  Agree m (notifying sent v) rho mem = AgreeFinal m sent rho mem
  Agree m (finished sent) (receiving w awake seen) mem =
      AgreeFinal m sent (receiving w awake seen) mem × Roused awake w mem
  Agree m (finished sent) (expired w awake) mem =
      AgreeFinal m sent (expired w awake) mem × Roused awake w mem
  Agree m (finished sent) rho mem = AgreeFinal m sent rho mem
  Agree m (owner full) dropped mem =
      (mem.message ≡ content m full)
      × (mem.waker ≡ uninit)
      × (mem.freed ≡ false)
      × (mem.leaks ≡ 0)
      × SenderSeen mem
      × (mem.state ≡ States.empty)
  Agree m SenderPhase.released dropped mem = Freed mem × (mem.state ≡ States.empty)
  Agree m _ _ mem = ⊥
