-- ===== src/Conformance/Receiving.antt =====
-- The receiving methods of src/receiver.rs under the receiver's rules.
use oneshot.Prelude.{ℕ, zero, suc, ◌≡◌, Bool, true, false, Result, ok, err, arith}
use oneshot.Protocol.Phases.{ReceiverPhase, idle, receiving, dropped, released}
use oneshot.Protocol.ReceiverRules.{Receives}
use oneshot.Memory.{Model}
use oneshot.Waker.{thread}
use oneshot.Errors.{RecvError, TryRecvError}
use oneshot.Conformance.Standing.{
  Standing, waiting, available, ended, phase_of, IsSettled, MayYield, IsWaiting, MayRefuse, IsTaken,
  IsRefused, IsAvailable, Settled-read, Settled-swap, Keeps,
}
use oneshot.Receiver

-- `asked` is the model whose demands on a later drop the calls provide for: under `interleaving` there
-- are none.
module _ {T : Type 0} (asked : Model) (m : T) where
  -- What a method that leaves the receiver alive may answer, and where that leaves the receiver.
  abbrev pub TryRecvAnswer : Standing → Result T TryRecvError → ReceiverPhase → Type 0
  TryRecvAnswer st (ok n) ρ = (n ≡ m) × MayYield st × IsTaken asked ρ
  TryRecvAnswer st (err TryRecvError.empty) ρ = IsWaiting st × (ρ ≡ idle)
  TryRecvAnswer st (err TryRecvError.disconnected) ρ = IsRefused asked st ρ

  -- `try_recv` keeps to the receiver's rules in both memory models, from every standing of the
  -- receiver between two calls: it answers the sender's message once, `Empty` only while no message
  -- was found, and `Disconnected` only when the sender was dropped or the message was taken; then
  -- it leaves the receiver where a later call can go on, and a drop in the model `asked`.
  pub try_recv-Receives :
      (model : Model) (st : Standing)
      → IsSettled asked st
      → Receives model m (TryRecvAnswer st) (phase_of st) Receiver.try_recv
  unfolding Receiver.try_recv
  try_recv-Receives model waiting s = ground arith
  try_recv-Receives model (available true) s = ground arith
  try_recv-Receives model (available false) s = ground arith
  try_recv-Receives model (ended sent y) s = ground arith

  abbrev pub RecvRefAnswer : Standing → Result T RecvError → ReceiverPhase → Type 0
  RecvRefAnswer st (ok n) ρ = (n ≡ m) × MayYield st × IsTaken asked ρ
  RecvRefAnswer st (err _) ρ = IsRefused asked st ρ

  recv_ref_parked-Receives :
      (model : Model) (fuel : ℕ) (seen : Bool)
      → Receives model m
          (RecvRefAnswer waiting)
          (receiving thread false seen)
          (Receiver.recv_ref_parked fuel)
  unfolding Receiver.recv_ref_parked
  recv_ref_parked-Receives model zero seen = tt
  recv_ref_parked-Receives model (suc fuel) true =
      ground (arith, recv_ref_parked-Receives model fuel true)
  recv_ref_parked-Receives model (suc fuel) false =
      ground
        (arith, recv_ref_parked-Receives model fuel true, recv_ref_parked-Receives model fuel false)

  -- `recv_ref` keeps to the rules in both memory models, from every standing and with any fuel: it
  -- returns the message, or the error when the sender was dropped or the message was taken, through
  -- the parked loop too, and never panics.
  pub recv_ref-Receives :
      (model : Model) (fuel : ℕ) (st : Standing)
      → IsSettled asked st
      → Receives model m (RecvRefAnswer st) (phase_of st) (Receiver.recv_ref fuel)
  unfolding Receiver.recv_ref
  recv_ref-Receives model fuel waiting s = ground (arith, recv_ref_parked-Receives model fuel false)
  recv_ref-Receives model fuel (available true) s = ground arith
  recv_ref-Receives model fuel (available false) s = ground arith
  recv_ref-Receives model fuel (ended sent y) s = ground (arith, Settled-read asked y s)

  -- `recv` consumes the receiver and frees the channel.
  abbrev pub RecvAnswer : Standing → Result T RecvError → ReceiverPhase → Type 0
  RecvAnswer st (ok n) ρ = (n ≡ m) × MayYield st × (ρ ≡ released true)
  RecvAnswer st (err _) (released sent) = MayRefuse st sent
  RecvAnswer st (err _) _ = ⊥

  recv_parked-Receives :
      (model : Model) (fuel : ℕ) (seen : Bool)
      → Receives model m
          (RecvAnswer waiting)
          (receiving thread false seen)
          (Receiver.recv_parked fuel)
  unfolding Receiver.recv_parked
  recv_parked-Receives model zero seen = tt
  recv_parked-Receives model (suc fuel) true = ground (arith, recv_parked-Receives model fuel true)
  recv_parked-Receives model (suc fuel) false =
      ground (arith, recv_parked-Receives model fuel true, recv_parked-Receives model fuel false)

  -- `recv` keeps to the rules in both memory models, from every standing and with any fuel: it
  -- returns the message, or the error when the sender was dropped or the message was taken, and in
  -- every case it has freed the channel, after it synchronised with the sender's last access.
  pub recv-Receives :
      (model : Model) (fuel : ℕ) (st : Standing)
      → IsSettled asked st
      → Receives model m (RecvAnswer st) (phase_of st) (Receiver.recv fuel)
  unfolding Receiver.recv
  recv-Receives model fuel waiting s = ground (arith, recv_parked-Receives model fuel false)
  recv-Receives model fuel (available true) s = ground arith
  recv-Receives model fuel (available false) s = ground arith
  recv-Receives model fuel (ended sent y) s = ground arith

  -- A test that finds the channel closed, or the message there, decides what the next calls answer.
  abbrev pub IsClosedAnswer : Standing → Bool → ReceiverPhase → Type 0
  IsClosedAnswer st true ρ = IsRefused asked st ρ
  IsClosedAnswer waiting false idle = Unit
  IsClosedAnswer st false ρ = MayYield st × IsAvailable asked ρ

  pub is_closed-Receives :
      (model : Model) (st : Standing)
      → IsSettled asked st
      → Receives model m (IsClosedAnswer st) (phase_of st) Receiver.is_closed
  unfolding Receiver.is_closed
  is_closed-Receives model waiting s = ground arith
  is_closed-Receives model (available true) s = ground arith
  is_closed-Receives model (available false) s = ground arith
  is_closed-Receives model (ended sent y) s = ground arith

  abbrev pub HasMessageAnswer : Standing → Bool → ReceiverPhase → Type 0
  HasMessageAnswer st true ρ = MayYield st × IsAvailable asked ρ
  HasMessageAnswer waiting false idle = Unit
  HasMessageAnswer st false ρ = IsRefused asked st ρ

  pub has_message-Receives :
      (model : Model) (st : Standing)
      → IsSettled asked st
      → Receives model m (HasMessageAnswer st) (phase_of st) Receiver.has_message
  unfolding Receiver.has_message
  has_message-Receives model waiting s = ground arith
  has_message-Receives model (available true) s = ground arith
  has_message-Receives model (available false) s = ground arith
  has_message-Receives model (ended sent y) s = ground (arith, Settled-read asked y s)

  -- Dropping the receiver frees the channel, or leaves that to the sender.
  abbrev pub DropAnswer : Standing → Unit {0} → ReceiverPhase → Type 0
  DropAnswer st _ dropped = IsWaiting st
  DropAnswer (available acquired) _ (released sent) = sent ≡ true
  DropAnswer waiting _ (released sent) = Unit
  DropAnswer (ended s y) _ (released sent) = sent ≡ s
  DropAnswer st _ _ = ⊥

  -- Dropping a receiver keeps to the rules in both memory models, from every standing, where under
  -- `release_acquire` the calls before have provided for it: it drops a message that is there and
  -- frees the channel when the sender is through, and leaves both to the sender otherwise.
  pub drop-Receives :
      (model : Model) (st : Standing)
      → Keeps model asked
      → IsSettled asked st
      → Receives model m (DropAnswer st) (phase_of st) Receiver.drop
  unfolding Receiver.drop
  drop-Receives model waiting k s = ground arith
  drop-Receives model (available true) k s = ground arith
  drop-Receives model (available false) k s = ground arith
  drop-Receives model (ended sent y) k s = ground (arith, Settled-swap model asked y k s)
