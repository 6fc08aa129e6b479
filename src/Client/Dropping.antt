-- ===== src/Client/Dropping.antt =====
-- A future of src/receiver.rs that is ready and is dropped, under the rules of the protocol.
use oneshot.Prelude.{ℕ, ◌≡◌, sym, subst, Bool, Result}
use oneshot.Errors.{RecvError}
use oneshot.Memory.{Model, Slot, uninit}
use oneshot.Program.{ret, ◌>>◌}
use oneshot.Channel.{Poll, ready}
use oneshot.Waker.{ReceiverWaker}
use oneshot.Protocol.Phases.{ReceiverPhase, over, released, Sync}
use oneshot.Protocol.ReceiverRules.{Receives}
use oneshot.Protocol.ReceiverSequence.{Receives-bind}
use oneshot.Conformance.Standing.{ended, phase_of, Settled}
use oneshot.Conformance.Receiving.{DropAnswer}
use oneshot.Conformance.Polling.{async_drop-Receives}
use oneshot.Receiver.Async
use oneshot.States

module _ {T : Type 0} (model : Model) (m : T)
    (Q : Poll (Result T RecvError) → ReceiverPhase → Type 0) where
  drop_ready-Answer :
      (r : Result T RecvError) (sent : Bool) (y : Sync) (u : Unit {0}) (ρ : ReceiverPhase)
      → Q (ready r) (released sent)
      → DropAnswer model m (ended sent y) u ρ
      → Q (ready r) ρ
  drop_ready-Answer r sent y u (released b) h d = subst (λ x. Q (ready r) (released x)) (sym d) h
  drop_ready-Answer r sent y u _ h d = elim d [ ]

  pub drop_ready-Receives :
      (fuel : ℕ) (r : Result T RecvError) (sent : Bool) (s : ℕ) (waker : Slot ReceiverWaker)
      (y : Sync)
      → Q (ready r) (released sent)
      → s ≡ States.disconnected
      → waker ≡ uninit
      → Settled model y
      → Receives model m Q (over sent s waker y) (Async.drop fuel >> ret (ready r))
  drop_ready-Receives fuel r sent s waker y h e e' settled =
      subst (λ ρ. Receives model m Q ρ (Async.drop fuel >> ret (ready r))) (same s waker e e')
        (Receives-bind model m (DropAnswer model m (ended sent y)) Q _
          (λ u ρ. drop_ready-Answer r sent y u ρ h) (phase_of (ended sent y)) (Async.drop fuel)
          (async_drop-Receives model m fuel (ended sent y) settled))
    where
      same :
          (s : ℕ) (waker : Slot ReceiverWaker)
          → s ≡ States.disconnected
          → waker ≡ uninit
          → over sent States.disconnected uninit y ≡ over sent s waker y
      same s waker e e' = cc
