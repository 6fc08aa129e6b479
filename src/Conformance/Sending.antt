-- ===== src/Conformance/Sending.antt =====
-- The methods of src/sender.rs and of `SendError` of src/errors.rs under the sender's rules.
use oneshot.Prelude.{◌≡◌, refl, Bool, true, false, Result, ok, err, arith}
use oneshot.Protocol.Phases.{SenderPhase, alive, finished, owner, released}
use oneshot.Protocol.SenderRules.{Sends}
use oneshot.Sender.{SendError}
use oneshot.Sender

module _ {T : Type 0} (m : T) where
  -- `Ok` when the message is left for the receiver, an error when the receiver is gone: then the
  -- channel, with the message in it, is the sender's.
  abbrev pub SendAnswer : Bool → Result (Unit {0}) SendError → SenderPhase → Type 0
  SendAnswer closed (ok _) σ = (closed ≡ false) × (σ ≡ finished true)
  SendAnswer closed (err _) σ = σ ≡ owner true

  -- `send` keeps to the sender's rules of the protocol, whatever it finds: it writes the message
  -- before it publishes it, answers `Ok` only after the message is in the channel for a receiver
  -- that is there, having taken the waker before the final state and woken it after; when the
  -- receiver is gone it answers an error and the channel with the message is the sender's. After
  -- `is_closed` has answered `true` it answers an error.
  pub send-Sends :
      (closed : Bool) → Sends m (SendAnswer closed) (alive false closed) (Sender.send m)
  unfolding Sender.send
  send-Sends true = ground arith
  send-Sends false =
      (refl, (refl, refl, (refl, (refl, refl), λ w. (refl, refl, λ found. (refl, (refl, refl))))))

  -- A test that finds the receiver gone decides what a later test, and `send`, will find.
  abbrev pub IsClosedAnswer : Bool → Bool → SenderPhase → Type 0
  IsClosedAnswer closed true σ = σ ≡ alive false true
  IsClosedAnswer closed false σ = (closed ≡ false) × (σ ≡ alive false false)

  pub is_closed-Sends :
      (closed : Bool) → Sends m (IsClosedAnswer closed) (alive false closed) Sender.is_closed
  unfolding Sender.is_closed
  is_closed-Sends true = ground arith
  is_closed-Sends false = ground arith

  abbrev pub DropAnswer : Bool → Unit {0} → SenderPhase → Type 0
  DropAnswer closed _ (finished sent) = (closed ≡ false) × (sent ≡ false)
  DropAnswer closed _ released = Unit
  DropAnswer closed _ _ = ⊥

  -- Dropping the sender keeps to the rules: it leaves the channel disconnected, waking a receiver
  -- that waits, or frees the channel when the receiver is gone. After `is_closed` has answered
  -- `true` it frees the channel.
  pub drop-Sends : (closed : Bool) → Sends m (DropAnswer closed) (alive false closed) Sender.drop
  unfolding Sender.drop
  drop-Sends true = ground arith
  drop-Sends false =
      (refl, refl, (tt, (refl, refl), λ w. (refl, refl, λ found. (refl, (refl, refl)))))

  -- The three ways to use a `SendError`: all give back, or drop, the message that was not sent.
  abbrev pub IntoInnerAnswer : T → SenderPhase → Type 0
  IntoInnerAnswer n σ = (n ≡ m) × (σ ≡ released)

  pub into_inner-Sends : Sends m IntoInnerAnswer (owner true) Sender.into_inner
  unfolding Sender.into_inner
  into_inner-Sends = (refl, refl)

  abbrev pub AsInnerAnswer : T → SenderPhase → Type 0
  AsInnerAnswer n σ = (n ≡ m) × (σ ≡ owner true)

  pub as_inner-Sends : Sends m AsInnerAnswer (owner true) Sender.as_inner
  unfolding Sender.as_inner
  as_inner-Sends = (refl, refl)

  abbrev pub DropErrorAnswer : Unit {0} → SenderPhase → Type 0
  DropErrorAnswer _ σ = σ ≡ released

  pub drop_error-Sends : Sends m DropErrorAnswer (owner true) Sender.drop_error
  unfolding Sender.drop_error
  drop_error-Sends = refl
