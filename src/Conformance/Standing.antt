-- ===== src/Conformance/Standing.antt =====
-- Where a receiver stands between two calls of its methods, and how a call may change that.
use oneshot.Prelude.{◌≡◌, ◌⊎◌, inl, inr, refl, Bool, true, false}
use oneshot.Memory.{Model, interleaving, release_acquire, uninit}
use oneshot.Protocol.Phases.{
  ReceiverPhase, idle, got, over, Sync, synced, carried, detached, sync_of, sync_read,
}
use oneshot.States

-- `waiting`: no message was found yet and the sender was not found gone. `available`: a message was
-- found, by an acquire load or a relaxed one. `ended`: the message was taken (`sent`), or the sender
-- was found to be dropped.
pub data Standing : Type 0 where
  waiting : Standing
  available : (acquired : Bool) → Standing
  ended : (sent : Bool) → Sync → Standing

abbrev pub phase_of : Standing → ReceiverPhase
phase_of waiting = idle
phase_of (available acquired) = got States.message uninit (sync_of acquired) false
phase_of (ended sent y) = over sent States.disconnected uninit y

-- Whether dropping the receiver will synchronise with the sender's last access. The interleaving
-- model does not ask.
abbrev pub Settled : Model → Sync → Type 0
Settled interleaving y = Unit
Settled release_acquire synced = Unit
Settled release_acquire carried = Unit
Settled release_acquire detached = ⊥

abbrev pub IsSettled : Model → Standing → Type 0
IsSettled model (ended sent y) = Settled model y
IsSettled model _ = Unit

abbrev pub MayYield : Standing → Type 0
MayYield (ended sent y) = ⊥
MayYield _ = Unit

abbrev pub IsWaiting : Standing → Type 0
IsWaiting waiting = Unit
IsWaiting _ = ⊥

-- A call may answer that the channel is closed, and this is how it ended.
abbrev pub MayRefuse : Standing → Bool → Type 0
MayRefuse waiting sent = sent ≡ false
MayRefuse (available acquired) sent = ⊥
MayRefuse (ended s y) sent = sent ≡ s

module _ (model : Model) where
  -- The message was taken: all later calls will find the channel closed.
  abbrev pub IsTaken : ReceiverPhase → Type 0
  IsTaken (over sent s waker y) =
      (sent ≡ true) × (s ≡ States.disconnected) × (waker ≡ uninit) × Settled model y
  IsTaken _ = ⊥

  abbrev pub IsRefused : Standing → ReceiverPhase → Type 0
  IsRefused st (over sent s waker y) =
      MayRefuse st sent × (s ≡ States.disconnected) × (waker ≡ uninit) × Settled model y
  IsRefused st _ = ⊥

  abbrev pub IsAvailable : ReceiverPhase → Type 0
  IsAvailable (got s waker synced visible) =
      (s ≡ States.message) × (waker ≡ uninit) × (visible ≡ false)
  IsAvailable (got s waker carried visible) =
      (s ≡ States.message) × (waker ≡ uninit) × (visible ≡ false)
  IsAvailable _ = ⊥

  -- The phases between two calls.
  abbrev pub IsReady : ReceiverPhase → Type 0
  IsReady idle = Unit
  IsReady (got s waker y visible) = IsAvailable (got s waker y visible)
  IsReady (over sent s waker y) = (s ≡ States.disconnected) × (waker ≡ uninit) × Settled model y
  IsReady _ = ⊥

  pub stand :
      (ρ : ReceiverPhase) → IsReady ρ → (st : Standing) × (phase_of st ≡ ρ) × IsSettled model st
  stand idle h = (waiting, refl, tt)
  stand (got s waker synced visible) h = (available true, cc, tt)
  stand (got s waker carried visible) h = (available false, cc, tt)
  stand (over sent s waker y) h = (ended sent y, cc, h.2)
  stand _ h = elim h [ ]

pub Settled-read : (model : Model) (y : Sync) → Settled model y → Settled model (sync_read true y)
Settled-read interleaving y h = tt
Settled-read release_acquire synced h = tt
Settled-read release_acquire carried h = tt
Settled-read release_acquire detached h = elim h [ ]

-- Under `release_acquire` a drop relies on what the calls before it have kept.
abbrev pub Keeps : (model asked : Model) → Type 0
Keeps interleaving asked = Unit
Keeps release_acquire interleaving = ⊥
Keeps release_acquire release_acquire = Unit

pub model-Keeps : (model : Model) → Keeps model model
model-Keeps interleaving = tt
model-Keeps release_acquire = tt

-- The swap of a drop synchronises, where the model asks for it.
pub Settled-swap :
    (model asked : Model) (y : Sync)
    → Keeps model asked
    → Settled asked y
    → (model ≡ interleaving) ⊎ (sync_read true y ≡ synced)
Settled-swap interleaving asked y k h = inl refl
Settled-swap release_acquire interleaving y k h = elim k [ ]
Settled-swap release_acquire release_acquire synced k h = inr refl
Settled-swap release_acquire release_acquire carried k h = inr refl
Settled-swap release_acquire release_acquire detached k h = elim h [ ]

pub interleaving-IsSettled : (st : Standing) → IsSettled interleaving st
interleaving-IsSettled waiting = tt
interleaving-IsSettled (available acquired) = tt
interleaving-IsSettled (ended sent y) = tt
