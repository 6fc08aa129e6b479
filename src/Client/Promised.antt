-- ===== src/Client/Promised.antt =====
-- The tests of src/receiver.rs after any calls, and what they promise of the calls after them.
use oneshot.Prelude.{ℕ, ◌≡◌, refl, subst, Bool, true, false, Option, none, some, List, [], ◌∷◌}
use oneshot.Memory.{Model, interleaving, release_acquire, uninit}
use oneshot.States
use oneshot.Program.{Program, ret, ◌>>=◌, ◌>>◌}
use oneshot.Protocol.Phases.{ReceiverPhase, got, over}
use oneshot.Protocol.ReceiverRules.{Receives}
use oneshot.Protocol.ReceiverSequence.{Receives-bind}
use oneshot.Conformance.Standing.{
  Standing, available, ended, phase_of, IsReady, IsTaken, stand, interleaving-IsSettled,
}
use oneshot.Conformance.Receiving.{
  IsClosedAnswer, is_closed-Receives, HasMessageAnswer, has_message-Receives,
}
use oneshot.Receiver
use oneshot.Client.{ReceiverCall, recv, call, receiver_client}
use oneshot.Client.Calls.{Allowed, CallAnswer, call-Receives, has_message-Ready, is_closed-Ready}
use oneshot.Client.Receiving.{ClientAnswer, receiver_client-Receives}
use oneshot.Client.Available.{
  Receive, IsReceive, receive, Yields, receive-Yields, available-phase, Any, receive-Receives,
}

recv-Allowed : (model : Model) (cs : List ReceiverCall) → Allowed model cs recv
recv-Allowed interleaving cs = tt
recv-Allowed release_acquire cs = tt

module _ {T : Type 0} where
  -- Any calls, whose results are given up, then `p`.
  unfoldable pub after_calls :
      {R : Type 0} → (fuel : ℕ) → List ReceiverCall → Program T R → Program T R
  after_calls fuel [] p = p
  after_calls fuel (c ∷ cs) p = call fuel c >> after_calls fuel cs p

  abbrev pub with_test : {X : Type 0} → Program T Bool → Program T X → Program T (Bool × X)
  with_test test p = test >>= λ b. p >>= λ x. ret (b, x)

  module _ (model : Model) (m : T) where
    taken-IsReady : (ρ : ReceiverPhase) → IsTaken interleaving ρ → IsReady interleaving ρ
    taken-IsReady (over sent s waker y) h = (h.1, h.2, h.3)
    taken-IsReady _ h = elim h [ ]

    answer-IsReady :
        (st : Standing) (o : Option T) (ρ : ReceiverPhase)
        → CallAnswer interleaving m st o ρ
        → IsReady interleaving ρ
    answer-IsReady st none ρ h = h.0
    answer-IsReady st (some n) ρ h = taken-IsReady ρ h.2

    pub after_calls-Receives :
        {R : Type 0} (Q : R → ReceiverPhase → Type 0) (fuel : ℕ) (p : Program T R)
        → ((st : Standing) → Receives model m Q (phase_of st) p)
        → (cs : List ReceiverCall) (st : Standing)
        → Receives model m Q (phase_of st) (after_calls fuel cs p)
    unfolding after_calls
    after_calls-Receives Q fuel p h [] st = h st
    after_calls-Receives Q fuel p h (c ∷ cs) st =
        Receives-bind model m (CallAnswer interleaving m st) Q _
          (λ o ρ a.
            let (st', e, settled) = stand interleaving ρ (answer-IsReady st o ρ a) in
            subst (λ x. Receives model m Q x (after_calls fuel cs p)) e
              (after_calls-Receives Q fuel p h cs st'))
          (phase_of st) (call fuel c)
          (call-Receives interleaving m model fuel c st (interleaving-IsSettled st) tt)

    -- What a test that answered `true` says of the result after it.
    abbrev pub Promised : {X : Type 0} → (X → Type 0) → Bool × X → ReceiverPhase → Type 0
    Promised P (true, x) ρ = P x
    Promised P (false, x) ρ = Unit

    pub Promised-Receives :
        {X : Type 0} (P : X → Type 0) (Q : X → ReceiverPhase → Type 0) (b : Bool)
        (ρ : ReceiverPhase) (p : Program T X)
        → ((x : X) (ρ' : ReceiverPhase) → Q x ρ' → Promised P (b, x) ρ')
        → Receives model m Q ρ p
        → Receives model m (Promised P) ρ (p >>= λ x. ret (b, x))
    Promised-Receives P Q b ρ p q h = Receives-bind model m Q (Promised P) _ q ρ p h

    -- From a phase between two calls, if the test answered `false`.
    pub unpromised-Receives :
        {X : Type 0} (P : X → Type 0) (Q : Standing → X → ReceiverPhase → Type 0)
        (ρ : ReceiverPhase) (p : Program T X)
        → IsReady interleaving ρ
        → ((st : Standing) → Receives model m (Q st) (phase_of st) p)
        → Receives model m (Promised P) ρ (p >>= λ x. ret (false, x))
    unpromised-Receives P Q ρ p ready_now h =
        let (st, e, settled) = stand interleaving ρ ready_now in
        subst (λ x. Receives model m (Promised P) x (p >>= λ ns. ret (false, ns))) e
          (Promised-Receives P (Q st) false (phase_of st) p (λ ns ρ' a. tt) (h st))

    module _ (fuel : ℕ) (r : Receive) (i : IsReceive r) where
      abbrev pub NextYields : List T → Type 0
      NextYields ns = ns ≡ m ∷ []

      found-Promised :
          (st : Standing) (b : Bool) (ρ : ReceiverPhase)
          → HasMessageAnswer interleaving m st b ρ
          → Receives model m (Promised NextYields) ρ (receive fuel r >>= λ ns. ret (b, ns))
      found-Promised st true (got s waker y visible) a =
          let (acquired, e) = available-phase model m (got s waker y visible) a.1 in
          subst
            (λ x.
              Receives model m (Promised NextYields) x (receive fuel r >>= λ ns. ret (true, ns)))
            e
            (Promised-Receives NextYields (Yields model m) true (phase_of (available acquired))
              (receive fuel r) (λ ns ρ' h. h) (receive-Yields model m fuel acquired r i))
      found-Promised st true _ a = elim a.1 [ ]
      found-Promised st false ρ a =
          unpromised-Receives NextYields (Any model m) ρ (receive fuel r)
            (has_message-Ready interleaving m st false ρ a).0 (receive-Receives model m fuel r)

      pub has_message-Promised :
          (st : Standing)
          → Receives model m
              (Promised NextYields)
              (phase_of st)
              (with_test Receiver.has_message (receive fuel r))
      has_message-Promised st =
          Receives-bind model m (HasMessageAnswer interleaving m st) (Promised NextYields) _
            (found-Promised st) (phase_of st) Receiver.has_message
            (has_message-Receives interleaving m model st (interleaving-IsSettled st))

    module _ (fuel : ℕ) (later : List ReceiverCall) where
      abbrev pub NothingMore : List T → Type 0
      NothingMore ns = ns ≡ []

      abbrev pub Later : Program T (List T)
      Later = receiver_client fuel later recv

      later-Receives :
          (st : Standing)
          → Receives model m (ClientAnswer interleaving m recv st) (phase_of st) Later
      later-Receives st =
          receiver_client-Receives model m fuel later recv st (interleaving-IsSettled st)
            (recv-Allowed model later)

      ended-Nothing :
          (sent : Bool) (y : _) (ns : List T) (ρ : ReceiverPhase)
          → ClientAnswer interleaving m recv (ended sent y) ns ρ
          → ns ≡ []
      ended-Nothing sent y [] ρ h = refl
      ended-Nothing sent y (n ∷ []) ρ h = elim h.1 [ ]
      ended-Nothing sent y (n ∷ n' ∷ ns) ρ h = elim h [ ]

      closed-Promised :
          (st : Standing) (b : Bool) (ρ : ReceiverPhase)
          → IsClosedAnswer interleaving m st b ρ
          → Receives model m (Promised NothingMore) ρ (Later >>= λ ns. ret (b, ns))
      closed-Promised st true (over sent s waker y) a =
          subst (λ x. Receives model m (Promised NothingMore) x (Later >>= λ ns. ret (true, ns)))
            (over_eq a.1 a.2)
            (Promised-Receives NothingMore (ClientAnswer interleaving m recv (ended sent y)) true
              (phase_of (ended sent y)) Later (ended-Nothing sent y)
              (later-Receives (ended sent y)))
        where
          over_eq :
              s ≡ States.disconnected
              → waker ≡ uninit
              → over sent States.disconnected uninit y ≡ over sent s waker y
          over_eq d e = cc
      closed-Promised st true _ a = elim a [ ]
      closed-Promised st false ρ a =
          unpromised-Receives NothingMore (ClientAnswer interleaving m recv) ρ Later
            (is_closed-Ready interleaving m st false ρ a).0 later-Receives

      pub is_closed-Promised :
          (st : Standing)
          → Receives model m
              (Promised NothingMore)
              (phase_of st)
              (with_test Receiver.is_closed Later)
      is_closed-Promised st =
          Receives-bind model m (IsClosedAnswer interleaving m st) (Promised NothingMore) _
            (closed-Promised st) (phase_of st) Receiver.is_closed
            (is_closed-Receives interleaving m model st (interleaving-IsSettled st))
