-- ===== src/Client/Refusals.antt =====
-- The methods of src/receiver.rs after `is_closed` has answered `true`.
use oneshot.Prelude.{ℕ, ◌≡◌, subst, Bool, true, false, Option, none, some, List, [], ◌∷◌}
use oneshot.Memory.{Model, interleaving, uninit}
use oneshot.Memory.{Slot}
use oneshot.Waker.{ReceiverWaker}
use oneshot.States
use oneshot.Program.{Program, ret, ◌>>=◌}
use oneshot.Protocol.Phases.{ReceiverPhase, idle, got, over, Sync}
use oneshot.Protocol.ReceiverRules.{Receives}
use oneshot.Protocol.ReceiverSequence.{Receives-bind}
use oneshot.Conformance.Standing.{Standing, ended, phase_of, interleaving-IsSettled}
use oneshot.Conformance.Receiving.{IsClosedAnswer, is_closed-Receives}
use oneshot.Receiver
use oneshot.Client.{ReceiverCall, call}
use oneshot.Client.Calls.{CallAnswer, call-Receives, is_closed-Ready}
use oneshot.Client.Available.{Receive}
use oneshot.Client.Answers.{Answered, answer, refusal, answer-Refuses, answer-Some}
use oneshot.Client.Promised.{
  after_calls, with_test, after_calls-Receives, Promised, Promised-Receives, unpromised-Receives,
}

-- A phase in which the channel was found closed.
by_ended :
    (X : ReceiverPhase → Type 0)
    → ((sent : Bool) (y : Sync) → X (phase_of (ended sent y)))
    → (sent : Bool) (s : ℕ) (waker : Slot ReceiverWaker) (y : Sync) → s ≡ States.disconnected
    → waker ≡ uninit
    → X (over sent s waker y)
by_ended X h sent s waker y a b = subst X over_eq (h sent y)
  where
    over_eq : over sent States.disconnected uninit y ≡ over sent s waker y
    over_eq = cc

module _ {T : Type 0} (model : Model) (m : T) where
  module _ {R : Type 0} (Q : R → ReceiverPhase → Type 0) (fuel : ℕ) (p : Program T R)
      (h : (sent : Bool) (y : Sync) → Receives model m Q (phase_of (ended sent y)) p) where
    -- A closed channel stays closed, whatever is called.
    calls-Receives :
        (cs : List ReceiverCall) (sent : Bool) (y : Sync)
        → Receives model m Q (phase_of (ended sent y)) (after_calls fuel cs p)
    unfolding after_calls
    calls-Receives [] sent y = h sent y
    calls-Receives (c ∷ cs) sent y =
        Receives-bind model m (CallAnswer interleaving m (ended sent y)) Q _
          (next (calls-Receives cs)) (phase_of (ended sent y)) (call fuel c)
          (call-Receives interleaving m model fuel c (ended sent y) tt tt)
      where
        next :
            ((sent : Bool) (y : Sync)
              → Receives model m Q (phase_of (ended sent y)) (after_calls fuel cs p))
            → (o : Option T) (ρ : ReceiverPhase) → CallAnswer interleaving m (ended sent y) o ρ
            → Receives model m Q ρ (after_calls fuel cs p)
        next k none (over b s waker z) a =
            by_ended (λ x. Receives model m Q x (after_calls fuel cs p)) k b s waker z a.0.0 a.0.1
        next k none idle a = elim a.1 [ ]
        next k none (got s waker z visible) a = elim a.1 [ ]
        next k none _ a = elim a.0 [ ]
        next k (some n) ρ a = elim a.1 [ ]

  module _ (fuel : ℕ) (later : List ReceiverCall) (r : Receive) where
    abbrev pub IsRefusal : Answered T → Type 0
    IsRefusal x = x ≡ refusal r

    abbrev pub Rest : Program T (Answered T)
    Rest = after_calls fuel later (answer fuel r)

    rest-Refuses :
        (sent : Bool) (y : Sync)
        → Receives model m (λ x ρ. IsRefusal x) (phase_of (ended sent y)) Rest
    rest-Refuses =
        calls-Receives (λ x ρ. IsRefusal x) fuel (answer fuel r)
          (λ sent y. answer-Refuses model m sent y fuel r) later

    tested-Promised :
        (st : Standing) (b : Bool) (ρ : ReceiverPhase)
        → IsClosedAnswer interleaving m st b ρ
        → Receives model m (Promised model m IsRefusal) ρ (Rest >>= λ x. ret (b, x))
    tested-Promised st true (over sent s waker y) a =
        by_ended
          (λ ρ. Receives model m (Promised model m IsRefusal) ρ (Rest >>= λ x. ret (true, x)))
          (λ sent y.
            Promised-Receives model m IsRefusal (λ x ρ. IsRefusal x) true (phase_of (ended sent y))
              Rest (λ x ρ h. h) (rest-Refuses sent y))
          sent s waker y a.1 a.2
    tested-Promised st true _ a = elim a [ ]
    tested-Promised st false ρ a =
        unpromised-Receives model m IsRefusal (λ st x ρ. Unit) ρ Rest
          (is_closed-Ready interleaving m st false ρ a).0
          (after_calls-Receives model m (λ x ρ. Unit) fuel (answer fuel r)
            (answer-Some model m fuel r) later)

    pub IsRefusal-Promised :
        (st : Standing)
        → Receives model m
            (Promised model m IsRefusal)
            (phase_of st)
            (with_test Receiver.is_closed Rest)
    IsRefusal-Promised st =
        Receives-bind model m (IsClosedAnswer interleaving m st) (Promised model m IsRefusal) _
          (tested-Promised st) (phase_of st) Receiver.is_closed
          (is_closed-Receives interleaving m model st (interleaving-IsSettled st))
