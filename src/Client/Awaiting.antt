-- ===== src/Client/Awaiting.antt =====
-- The calls of a receiver of src/receiver.rs and then of its future, under the rules of the protocol.
use oneshot.Prelude.{
  ℕ, ◌≡◌, refl, sym, subst, Bool, true, false, Option, none, some, List, [], ◌∷◌, Result, ok, err,
}
use oneshot.Errors.{RecvError}
use oneshot.States
use oneshot.Memory.{uninit, Model}
use oneshot.Program.{Program, ret, ◌>>=◌}
use oneshot.Channel.{Poll, ready, pending}
use oneshot.Protocol.Phases.{ReceiverPhase, idle, receiving, got, over, released, Sync}
use oneshot.Protocol.ReceiverRules.{Receives}
use oneshot.Protocol.ReceiverSequence.{Receives-bind}
use oneshot.Conformance.Standing.{
  Standing, waiting, available, ended, phase_of, IsSettled, MayYield, IsReady, IsTaken, stand,
}
use oneshot.Client.{
  ReceiverCall, recv, call, prepend, FutureCall, future_client, AwaitResult, await_result,
  awaited_client,
}
use oneshot.Client.Calls.{AllPermitted, Stays, CallAnswer, call-Receives}
use oneshot.Client.Receiving.{ClientAnswer, ClientAnswer-back, ClientAnswer-taken, MayYield-back}
use oneshot.Client.FuturePhases.{
  IsFuture, FutureStays, FutureAnswer, standing-IsReady, ready-IsFuture, IsWaiting-back, Stays-back,
}
use oneshot.Client.Futures.{future_client-Receives}

module _ {T : Type 0} (model : Model) (m : T) where
  abbrev HasYielded : ReceiverPhase → Type 0
  HasYielded (over sent s waker y) = sent ≡ true
  HasYielded _ = ⊥

  -- By whether the future was ready, and by the messages.
  abbrev pub Awaits : Standing → Bool → List T → ReceiverPhase → Type 0
  Awaits st true ns ρ = ClientAnswer model m recv st ns ρ
  Awaits st false [] ρ = IsFuture model m ρ × FutureStays model m st ρ
  Awaits st false (n ∷ []) ρ = (n ≡ m) × MayYield st × HasYielded ρ
  Awaits st false (n ∷ n' ∷ ns) ρ = ⊥

  abbrev pub AwaitAnswer : Standing → AwaitResult T → ReceiverPhase → Type 0
  AwaitAnswer st a ρ = Awaits st a.is_ready a.messages ρ

  result-Awaits :
      (st : Standing) (x : Poll (Result T RecvError)) (ρ : ReceiverPhase)
      → FutureAnswer model m st x ρ
      → AwaitAnswer st (await_result x) ρ
  result-Awaits st pending ρ h = h
  result-Awaits st (ready (ok n)) ρ h = h
  result-Awaits st (ready (err e)) (released sent) h = h
  result-Awaits st (ready (err e)) _ h = elim h [ ]

  future-back :
      (st st' : Standing) (ρ : ReceiverPhase)
      → Stays model m st (phase_of st')
      → IsFuture model m ρ
      → FutureStays model m st' ρ
      → FutureStays model m st ρ
  future-back st st' (receiving w awake seen) s f h = IsWaiting-back model m st st' s h
  future-back st st' idle s f h = Stays-back model m st st' idle s h
  future-back st st' (got state waker y visible) s f h =
      Stays-back model m st st' (got state waker y visible) s h
  future-back st st' (over sent state waker y) s f h =
      Stays-back model m st st' (over sent state waker y) s h
  future-back st st' _ s f h = elim f [ ]

  Awaits-back :
      (st st' : Standing) (b : Bool) (ns : List T) (ρ : ReceiverPhase)
      → Stays model m st (phase_of st')
      → Awaits st' b ns ρ
      → Awaits st b ns ρ
  Awaits-back st st' true ns ρ s h = ClientAnswer-back model m recv st st' ns ρ s h
  Awaits-back st st' false [] ρ s h = (h.0, future-back st st' ρ s h.0 h.1)
  Awaits-back st st' false (n ∷ []) ρ s h = (h.0, MayYield-back model m st st' s h.1, h.2)
  Awaits-back st st' false (n ∷ n' ∷ ns) ρ s h = elim h [ ]

  future-taken :
      (y : Sync) (ρ : ReceiverPhase)
      → IsFuture model m ρ
      → FutureStays model m (ended true y) ρ
      → HasYielded ρ
  future-taken y (over sent s waker z) f h = h
  future-taken y (receiving w awake seen) f h = elim h [ ]
  future-taken y (got s waker z visible) f h = elim h [ ]
  future-taken y idle f h = elim h [ ]
  future-taken y _ f h = elim f [ ]

  -- After the message was taken, nothing more is yielded.
  Awaits-taken :
      (st : Standing) (n : T) (y : Sync) (b : Bool) (ns : List T) (ρ : ReceiverPhase)
      → n ≡ m
      → MayYield st
      → Awaits (ended true y) b ns ρ
      → Awaits st b (n ∷ ns) ρ
  Awaits-taken st n y true ns ρ same may h =
      let (empty, freed) = ClientAnswer-taken model m recv y ns ρ h in
      subst (λ x. ClientAnswer model m recv st (n ∷ x) ρ) (sym empty) (same, may, freed)
  Awaits-taken st n y false [] ρ same may h = (same, may, future-taken y ρ h.0 h.1)
  Awaits-taken st n y false (n' ∷ []) ρ same may h = elim h.1 [ ]
  Awaits-taken st n y false (n' ∷ n'' ∷ ns) ρ same may h = elim h [ ]

  module _ (p : Program T (AwaitResult T))
      (h : (st : Standing)
        → IsSettled model st
        → Receives model m (AwaitAnswer st) (phase_of st) p) where
    abbrev after_call : Option T → Program T (AwaitResult T)
    after_call o =
        p >>= λ a. ret (record { is_ready = a.is_ready; messages = prepend o a.messages })

    after_none-Receives :
        (st : Standing) (ρ : ReceiverPhase)
        → IsReady model ρ
        → Stays model m st ρ
        → Receives model m (AwaitAnswer st) ρ (after_call none)
    after_none-Receives st ρ i s =
        let (st', e, settled) = stand model ρ i in
        subst (λ x. Receives model m (AwaitAnswer st) x (after_call none)) e
          (Receives-bind model m (AwaitAnswer st') (AwaitAnswer st) _
            (λ a ρ' r.
              Awaits-back st st' a.is_ready a.messages ρ' (subst (Stays model m st) (sym e) s) r)
            (phase_of st') p (h st' settled))

    after_some-Receives :
        (st : Standing) (n : T) (ρ : ReceiverPhase)
        → n ≡ m
        → MayYield st
        → IsTaken model ρ
        → Receives model m (AwaitAnswer st) ρ (after_call (some n))
    after_some-Receives st n (over sent s waker y) same may t =
        subst (λ x. Receives model m (AwaitAnswer st) x (after_call (some n))) (over_eq t.0 t.1 t.2)
          (Receives-bind model m (AwaitAnswer (ended true y)) (AwaitAnswer st) _
            (λ a ρ' r. Awaits-taken st n y a.is_ready a.messages ρ' same may r)
            (over true States.disconnected uninit y) p (h (ended true y) t.3))
      where
        over_eq :
            sent ≡ true
            → s ≡ States.disconnected
            → waker ≡ uninit
            → over true States.disconnected uninit y ≡ over sent s waker y
        over_eq a b c = cc
    after_some-Receives st n _ same may t = elim t [ ]

    after_call-Receives :
        (st : Standing) (o : Option T) (ρ : ReceiverPhase)
        → CallAnswer model m st o ρ
        → Receives model m (AwaitAnswer st) ρ (after_call o)
    after_call-Receives st none ρ a = after_none-Receives st ρ a.0 a.1
    after_call-Receives st (some n) ρ a = after_some-Receives st n ρ a.0 a.1 a.2

  standing-FutureStays : (st : Standing) → FutureStays model m st (phase_of st)
  standing-FutureStays waiting = tt
  standing-FutureStays (available acquired) = tt
  standing-FutureStays (ended sent y) = refl

  pub awaited_client-Receives :
      (fuel : ℕ) (cs : List ReceiverCall) (fs : List FutureCall) (st : Standing)
      → IsSettled model st
      → AllPermitted model cs
      → Receives model m (AwaitAnswer st) (phase_of st) (awaited_client fuel cs fs)
  unfolding awaited_client
  awaited_client-Receives fuel [] fs st s h =
      Receives-bind model m (FutureAnswer model m st) (AwaitAnswer st) _ (result-Awaits st)
        (phase_of st) (future_client fuel fs)
        (future_client-Receives model m fuel fs st (phase_of st)
          (ready-IsFuture model m (phase_of st) (standing-IsReady model m st s))
          (standing-FutureStays st))
  awaited_client-Receives fuel (c ∷ cs) fs st s h =
      Receives-bind model m (CallAnswer model m st) (AwaitAnswer st) _
        (after_call-Receives (awaited_client fuel cs fs)
          (λ st' s'. awaited_client-Receives fuel cs fs st' s' h.1) st)
        (phase_of st) (call fuel c) (call-Receives model m model fuel c st s h.0)
