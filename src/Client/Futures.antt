-- ===== src/Client/Futures.antt =====
-- A receiver of src/receiver.rs and then its future, under the rules of the protocol.
use oneshot.Prelude.{ℕ, refl, ap, Bool, true, false, List, [], ◌∷◌, Result, ok, err}
use oneshot.Errors.{RecvError}
use oneshot.Memory.{Model}
use oneshot.Program.{Program, ◌>>=◌, ◌>>◌}
use oneshot.Channel.{Poll, ready, pending}
use oneshot.Waker.{ReceiverWaker, Context}
use oneshot.Protocol.Phases.{ReceiverPhase, receiving, got, over, released}
use oneshot.Protocol.ReceiverRules.{Receives}
use oneshot.Protocol.ReceiverSequence.{Receives-bind}
use oneshot.Conformance.Standing.{Standing, waiting, available, ended, phase_of, IsWaiting, IsReady}
use oneshot.Conformance.Receiving.{IsClosedAnswer, HasMessageAnswer}
use oneshot.Conformance.Polling.{PollAnswer, poll-Receives, poll_again-Receives}
use oneshot.Conformance.FutureTests.{
  RegisteredClosedAnswer, RegisteredMessageAnswer, registered-is_closed-Receives,
  registered-has_message-Receives, async_is_closed-Receives, async_has_message-Receives,
}
use oneshot.Receiver.Async
use oneshot.Client.{after_poll, FutureCall, polled, tests_closed, tests_message, future_client}
use oneshot.Client.Dropping.{drop_ready-Receives}
use oneshot.Client.Receiving.{MayYield-back, MayRefuse-back}
use oneshot.Client.Calls.{Stays, is_closed-Ready, has_message-Ready}
use oneshot.Client.FuturePhases.{
  IsFuture, ready-IsFuture, by_future, FutureStays, FutureAnswer, standing-Stays, IsWaiting-back,
  Stays-back, closed, yields, Stays-Future,
}

module _ {T : Type 0} (model : Model) (m : T) where
  abbrev AnyWaker : ReceiverWaker → Type 0
  AnyWaker w = Unit

  module _ (st : Standing) (fuel : ℕ) (rest : Program T (Poll (Result T RecvError)))
      (h : (ρ : ReceiverPhase)
        → IsFuture model m ρ
        → FutureStays model m st ρ
        → Receives model m (FutureAnswer model m st) ρ rest) where
    after_poll-Receives :
        (st' : Standing) (r : Poll (Result T RecvError)) (ρ : ReceiverPhase)
        → Stays model m st (phase_of st')
        → PollAnswer model m AnyWaker st' r ρ
        → Receives model m (FutureAnswer model m st) ρ (after_poll fuel rest r)
    after_poll-Receives st' pending (receiving w false seen) s a =
        h (receiving w false seen) refl (IsWaiting-back model m st st' s a.0)
    after_poll-Receives st' (ready (ok n)) (over sent state waker y) s a =
        drop_ready-Receives model m (FutureAnswer model m st) fuel (ok n) sent state waker y
          (a.0, MayYield-back model m st st' s a.1, ap released a.2.0) a.2.1 a.2.2 a.2.3
    after_poll-Receives st' (ready (err e)) (over sent state waker y) s a =
        drop_ready-Receives model m (FutureAnswer model m st) fuel (err e) sent state waker y
          (MayRefuse-back model m st st' sent s a.0) a.1 a.2 a.3
    after_poll-Receives st' pending _ s a = elim a.1 [ ]
    after_poll-Receives st' (ready (ok n)) _ s a = elim a.2 [ ]
    after_poll-Receives st' (ready (err e)) _ s a = elim a [ ]

    -- A registered waker says that nothing was found before.
    waits-Stays : IsWaiting st → Stays model m st (phase_of waiting)
    waits-Stays w = to_idle st w
      where
        to_idle : (st : Standing) → IsWaiting st → Stays model m st (phase_of waiting)
        to_idle waiting w = tt
        to_idle (available acquired) w = elim w [ ]
        to_idle (ended sent y) w = elim w [ ]

    polled-Receives :
        (cx : Context) (ρ : ReceiverPhase)
        → IsFuture model m ρ
        → FutureStays model m st ρ
        → Receives model m (FutureAnswer model m st) ρ (Async.poll fuel cx >>= after_poll fuel rest)
    polled-Receives cx =
        by_future model m
          (λ ρ.
            FutureStays model m st ρ
            → Receives model m (FutureAnswer model m st) ρ
                (Async.poll fuel cx >>= after_poll fuel rest))
          (λ w seen waits.
            Receives-bind model m (PollAnswer model m AnyWaker waiting) (FutureAnswer model m st)
              (after_poll fuel rest) (λ r ρ. after_poll-Receives waiting r ρ (waits-Stays waits))
              (receiving w false seen) (Async.poll fuel cx)
              (poll_again-Receives model m AnyWaker fuel cx w seen tt tt))
          (λ st' s stays.
            Receives-bind model m (PollAnswer model m AnyWaker st') (FutureAnswer model m st)
              (after_poll fuel rest)
              (λ r ρ. after_poll-Receives st' r ρ (standing-Stays model m st st' stays))
              (phase_of st') (Async.poll fuel cx) (poll-Receives model m AnyWaker fuel cx st' tt s))

    registered_closed :
        (w : ReceiverWaker) (b : Bool) (ρ : ReceiverPhase)
        → IsWaiting st
        → RegisteredClosedAnswer model m w b ρ
        → Receives model m (FutureAnswer model m st) ρ rest
    registered_closed w true (over sent s waker y) i a =
        h (over sent s waker y) (a.1, a.2, a.3) (closed model m st sent i a.0)
    registered_closed w true _ i a = elim a [ ]
    registered_closed w false (receiving v awake seen) i a = h (receiving v awake seen) a.1 i
    registered_closed w false (got s waker y visible) i a =
        h (got s waker y visible) a (yields model m st i)
    registered_closed w false _ i a = elim a [ ]

    registered_message :
        (w : ReceiverWaker) (b : Bool) (ρ : ReceiverPhase)
        → IsWaiting st
        → RegisteredMessageAnswer model m w b ρ
        → Receives model m (FutureAnswer model m st) ρ rest
    registered_message w true (got s waker y visible) i a =
        h (got s waker y visible) a (yields model m st i)
    registered_message w true _ i a = elim a [ ]
    registered_message w false (receiving v awake seen) i a = h (receiving v awake seen) a.1 i
    registered_message w false (over sent s waker y) i a =
        h (over sent s waker y) (a.1, a.2, a.3) (closed model m st sent i a.0)
    registered_message w false _ i a = elim a [ ]

    tested-Receives :
        (st' : Standing) (ρ : ReceiverPhase)
        → Stays model m st (phase_of st')
        → IsReady model ρ × Stays model m st' ρ
        → Receives model m (FutureAnswer model m st) ρ rest
    tested-Receives st' ρ s a =
        h ρ (ready-IsFuture model m ρ a.0)
          (Stays-Future model m st ρ a.0 (Stays-back model m st st' ρ s a.1))

    tests_closed-Receives :
        (ρ : ReceiverPhase)
        → IsFuture model m ρ
        → FutureStays model m st ρ
        → Receives model m (FutureAnswer model m st) ρ (Async.is_closed >> rest)
    tests_closed-Receives =
        by_future model m
          (λ ρ.
            FutureStays model m st ρ
            → Receives model m (FutureAnswer model m st) ρ (Async.is_closed >> rest))
          (λ w seen i.
            Receives-bind model m (RegisteredClosedAnswer model m w) (FutureAnswer model m st)
              (λ _. rest) (λ b ρ. registered_closed w b ρ i) (receiving w false seen)
              Async.is_closed (registered-is_closed-Receives model m w seen))
          (λ st' s stays.
            Receives-bind model m (IsClosedAnswer model m st') (FutureAnswer model m st) (λ _. rest)
              (λ b ρ a.
                tested-Receives st' ρ (standing-Stays model m st st' stays)
                  (is_closed-Ready model m st' b ρ a))
              (phase_of st') Async.is_closed (async_is_closed-Receives model m st' s))

    tests_message-Receives :
        (ρ : ReceiverPhase)
        → IsFuture model m ρ
        → FutureStays model m st ρ
        → Receives model m (FutureAnswer model m st) ρ (Async.has_message >> rest)
    tests_message-Receives =
        by_future model m
          (λ ρ.
            FutureStays model m st ρ
            → Receives model m (FutureAnswer model m st) ρ (Async.has_message >> rest))
          (λ w seen i.
            Receives-bind model m (RegisteredMessageAnswer model m w) (FutureAnswer model m st)
              (λ _. rest) (λ b ρ. registered_message w b ρ i) (receiving w false seen)
              Async.has_message (registered-has_message-Receives model m w seen))
          (λ st' s stays.
            Receives-bind model m (HasMessageAnswer model m st') (FutureAnswer model m st)
              (λ _. rest)
              (λ b ρ a.
                tested-Receives st' ρ (standing-Stays model m st st' stays)
                  (has_message-Ready model m st' b ρ a))
              (phase_of st') Async.has_message (async_has_message-Receives model m st' s))

  pub future_client-Receives :
      (fuel : ℕ) (fs : List FutureCall) (st : Standing) (ρ : ReceiverPhase)
      → IsFuture model m ρ
      → FutureStays model m st ρ
      → Receives model m (FutureAnswer model m st) ρ (future_client fuel fs)
  unfolding future_client
  future_client-Receives fuel [] st ρ f s = (f, s)
  future_client-Receives fuel (polled cx ∷ fs) st ρ f s =
      polled-Receives st fuel (future_client fuel fs) (future_client-Receives fuel fs st) cx ρ f s
  future_client-Receives fuel (tests_closed ∷ fs) st ρ f s =
      tests_closed-Receives st fuel (future_client fuel fs) (future_client-Receives fuel fs st) ρ f
        s
  future_client-Receives fuel (tests_message ∷ fs) st ρ f s =
      tests_message-Receives st fuel (future_client fuel fs) (future_client-Receives fuel fs st) ρ f
        s
