-- ===== src/Protocol/Phases.antt =====
-- Phases of the two endpoints.
use oneshot.Prelude.{ℕ, ◌≡◌, ◌⊎◌, Bool, true, if◌then◌else◌}
use oneshot.Memory.{Slot}
use oneshot.Waker.{ReceiverWaker}
use oneshot.States

pub data SenderPhase : Type 0 where
  -- the sender exists; `written`: its message is in the channel; `closed`: it has seen that the
  -- receiver is gone
  alive : (written closed : Bool) → SenderPhase
  -- it has put the channel into `UNPARKING` and has to take the waker; `sent`: by `send`
  claimed : (sent : Bool) → SenderPhase
  -- it has taken the waker and has to set the final state
  holding : (sent : Bool) → ReceiverWaker → SenderPhase
  -- it has set the final state and has to wake the receiver
  notifying : (sent : Bool) → ReceiverWaker → SenderPhase
  -- it is through with the channel
  finished : (sent : Bool) → SenderPhase
  -- the receiver is gone and the channel is the sender's; `full`: with the message in it
  owner : (full : Bool) → SenderPhase
  -- it has freed the channel
  released : SenderPhase

-- What the receiver's thread has synchronised with of the sender's last accesses: all of them; none
-- yet, but the state still carries them; none, and only a fence can.
pub data Sync : Type 0 where
  synced carried detached : Sync

pub data ReceiverPhase : Type 0 where
  -- no waker is stored
  idle : ReceiverPhase
  -- a waker is stored and the sender has not been shown it
  armed : ReceiverWaker → ReceiverPhase
  -- the state `RECEIVING` was set; `awake`: `park` has returned and the state was not read since;
  -- `claimed`: the state `UNPARKING` was seen
  receiving : ReceiverWaker → (awake claimed : Bool) → ReceiverPhase
  -- the time limit passed in the state `UNPARKING`, which was overwritten by `EMPTY`
  expired : ReceiverWaker → (awake : Bool) → ReceiverPhase
  -- the sender is through and its message is in the channel, or not: the receiver alone uses the
  -- channel, with this state and this content of the waker field. `visible`: the message was
  -- synchronised with. `sent`: there was a message, which is gone.
  got : (state : ℕ) → Slot ReceiverWaker → Sync → (visible : Bool) → ReceiverPhase
  over : (sent : Bool) → (state : ℕ) → Slot ReceiverWaker → Sync → ReceiverPhase
  -- the receiver was dropped before the sender was through: the channel is the sender's
  dropped : ReceiverPhase
  -- it has freed the channel
  released : (sent : Bool) → ReceiverPhase

abbrev pub final_state : Bool → ℕ
final_state sent = if sent then States.message else States.disconnected

abbrev pub sync_of : Bool → Sync
sync_of acquiring = if acquiring then synced else carried

abbrev pub sync_read : Bool → Sync → Sync
sync_read true carried = synced
sync_read _ y = y

abbrev pub sync_store : Sync → Sync
sync_store carried = detached
sync_store y = y

abbrev pub CanTake : Sync → Bool → Type 0
CanTake y visible = (y ≡ synced) ⊎ (visible ≡ true)
