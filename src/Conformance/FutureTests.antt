-- ===== src/Conformance/FutureTests.antt =====
-- `is_closed` and `has_message` of the future of src/receiver.rs under the receiver's rules.
use oneshot.Prelude.{◌≡◌, Bool, true, false, arith}
use oneshot.Memory.{Model}
use oneshot.Waker.{ReceiverWaker}
use oneshot.Protocol.Phases.{ReceiverPhase, receiving}
use oneshot.Protocol.ReceiverRules.{Receives}
use oneshot.Conformance.Standing.{
  Standing, waiting, available, ended, phase_of, IsSettled, IsRefused, IsAvailable, Settled-read,
}
use oneshot.Conformance.Receiving.{IsClosedAnswer, HasMessageAnswer}
use oneshot.Receiver.Async

module _ {T : Type 0} (model : Model) (m : T) where
  -- The waker that was registered still is, or the sender was found to be through and a later poll
  -- will be ready.
  abbrev pub RegisteredClosedAnswer : ReceiverWaker → Bool → ReceiverPhase → Type 0
  RegisteredClosedAnswer w true ρ = IsRefused model waiting ρ
  RegisteredClosedAnswer w false (receiving v awake seen) = (v ≡ w) × (awake ≡ false)
  RegisteredClosedAnswer w false ρ = IsAvailable model ρ

  abbrev pub RegisteredMessageAnswer : ReceiverWaker → Bool → ReceiverPhase → Type 0
  RegisteredMessageAnswer w true ρ = IsAvailable model ρ
  RegisteredMessageAnswer w false (receiving v awake seen) = (v ≡ w) × (awake ≡ false)
  RegisteredMessageAnswer w false ρ = IsRefused model waiting ρ

  -- `is_closed` of a future with a registered waker keeps to the rules in both memory models: `true`
  -- only when the sender was dropped without sending; after `false` the same waker is registered, or
  -- the message is there and stays.
  pub registered-is_closed-Receives :
      (w : ReceiverWaker) (seen : Bool)
      → Receives model m (RegisteredClosedAnswer w) (receiving w false seen) Async.is_closed
  unfolding Async.is_closed
  registered-is_closed-Receives w true = ground arith
  registered-is_closed-Receives w false = ground arith

  -- `has_message` of a future with a registered waker keeps to the rules in both memory models: `true`
  -- only when the message is there, and it stays; after `false` the same waker is registered, or the
  -- sender was dropped without sending.
  pub registered-has_message-Receives :
      (w : ReceiverWaker) (seen : Bool)
      → Receives model m (RegisteredMessageAnswer w) (receiving w false seen) Async.has_message
  unfolding Async.has_message
  registered-has_message-Receives w true = ground arith
  registered-has_message-Receives w false = ground arith

  pub async_is_closed-Receives :
      (st : Standing)
      → IsSettled model st
      → Receives model m (IsClosedAnswer model m st) (phase_of st) Async.is_closed
  unfolding Async.is_closed
  async_is_closed-Receives waiting s = ground arith
  async_is_closed-Receives (available true) s = ground arith
  async_is_closed-Receives (available false) s = ground arith
  async_is_closed-Receives (ended sent y) s = ground arith

  pub async_has_message-Receives :
      (st : Standing)
      → IsSettled model st
      → Receives model m (HasMessageAnswer model m st) (phase_of st) Async.has_message
  unfolding Async.has_message
  async_has_message-Receives waiting s = ground arith
  async_has_message-Receives (available true) s = ground arith
  async_has_message-Receives (available false) s = ground arith
  async_has_message-Receives (ended sent y) s = ground (arith, Settled-read model y s)
