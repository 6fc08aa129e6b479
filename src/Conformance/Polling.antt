-- ===== src/Conformance/Polling.antt =====
-- `poll` and the drop of the future of src/receiver.rs under the receiver's rules.
use oneshot.Prelude.{ℕ, zero, suc, ◌≡◌, Bool, true, false, Result, ok, err, arith}
use oneshot.Protocol.Phases.{ReceiverPhase, receiving}
use oneshot.Protocol.ReceiverRules.{Receives}
use oneshot.Memory.{Model}
use oneshot.Waker.{ReceiverWaker, Context, task_waker}
use oneshot.Errors.{RecvError}
use oneshot.Channel.{Poll, ready, pending}
use oneshot.Conformance.Standing.{
  Standing, waiting, available, ended, phase_of, IsSettled, MayYield, IsWaiting, IsTaken, IsRefused,
  Settled-swap, model-Keeps,
}
use oneshot.Conformance.Receiving.{DropAnswer}
use oneshot.Receiver.Async

module _ {T : Type 0} (model : Model) (m : T) (P : ReceiverWaker → Type 0) where
  -- After `Pending` a waker of `P` is registered.
  abbrev pub IsRegistered : ReceiverPhase → Type 0
  IsRegistered (receiving w false seen) = P w
  IsRegistered _ = ⊥

  abbrev pub PollAnswer : Standing → Poll (Result T RecvError) → ReceiverPhase → Type 0
  PollAnswer st pending ρ = IsWaiting st × IsRegistered ρ
  PollAnswer st (ready (ok n)) ρ = (n ≡ m) × MayYield st × IsTaken model ρ
  PollAnswer st (ready (err _)) ρ = IsRefused model st ρ

  poll_unparking-Receives :
      (fuel : ℕ) (w : ReceiverWaker)
      → P w
      → Receives model m (PollAnswer waiting) (receiving w false true) (Async.poll_unparking fuel)
  unfolding Async.poll_unparking
  poll_unparking-Receives zero w h = tt
  poll_unparking-Receives (suc fuel) w h = ground (arith, poll_unparking-Receives fuel w h)

  -- A poll of a future with no waker registered keeps to the rules in both memory models: after
  -- `Pending`, which is the answer only while no message was found, a waker is registered, the
  -- context's or one of the same kind `P`; `Ready` has the
  -- message, or the error when the sender was dropped or the message was taken.
  pub poll-Receives :
      (fuel : ℕ) (cx : Context) (st : Standing)
      → P (task_waker cx)
      → IsSettled model st
      → Receives model m (PollAnswer st) (phase_of st) (Async.poll fuel cx)
  unfolding Async.poll
  poll-Receives fuel cx waiting h s = ground arith
  poll-Receives fuel cx (available true) h s = ground arith
  poll-Receives fuel cx (available false) h s = ground arith
  poll-Receives fuel cx (ended sent y) h s = ground arith

  -- A poll while a waker is registered, whether or not the sender was seen to take it, keeps to the
  -- rules in both memory models and never panics: the old waker is dropped before a new one is
  -- written, after `Pending` a waker is registered that is the context's or the one before, and
  -- `Ready` has the message, or the error when the sender was dropped.
  pub poll_again-Receives :
      (fuel : ℕ) (cx : Context) (w : ReceiverWaker) (seen : Bool)
      → P (task_waker cx)
      → P w
      → Receives model m (PollAnswer waiting) (receiving w false seen) (Async.poll fuel cx)
  unfolding Async.poll
  poll_again-Receives fuel cx w true h h' = ground (arith, poll_unparking-Receives fuel w h')
  poll_again-Receives fuel cx w false h h' = ground (arith, poll_unparking-Receives fuel w h')

module _ {T : Type 0} (model : Model) (m : T) where
  -- Dropping a future that has no waker registered, since it was not polled or is ready, keeps to
  -- the rules in both memory models, with any fuel: it frees the channel when the sender is
  -- through, with the message if there is one, and leaves both to the sender otherwise.
  pub async_drop-Receives :
      (fuel : ℕ) (st : Standing)
      → IsSettled model st
      → Receives model m (DropAnswer model m st) (phase_of st) (Async.drop fuel)
  unfolding Async.drop Async.drop_waiting
  async_drop-Receives fuel waiting s = ground arith
  async_drop-Receives fuel (available true) s = ground arith
  async_drop-Receives fuel (available false) s = ground arith
  async_drop-Receives fuel (ended sent y) s =
      ground (arith, Settled-swap model model y (model-Keeps model) s)
