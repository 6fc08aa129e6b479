-- ===== src/Client/Polling.antt =====
-- The future of src/receiver.rs, polled until it is ready, under the rules of the protocol.
use oneshot.Prelude.{ℕ, ◌≡◌, ap, Bool, true, false, List, [], ◌∷◌, Result, ok, err}
use oneshot.Errors.{RecvError}
use oneshot.Memory.{Model}
use oneshot.Program.{Program, ret, ◌>>=◌}
use oneshot.Channel.{Poll, ready, pending}
use oneshot.Waker.{ReceiverWaker, Context, task_waker}
use oneshot.Protocol.Phases.{ReceiverPhase, idle, receiving, over, released}
use oneshot.Protocol.ReceiverRules.{Receives}
use oneshot.Protocol.ReceiverSequence.{Receives-bind}
use oneshot.Conformance.Standing.{waiting}
use oneshot.Conformance.Polling.{IsRegistered, PollAnswer, poll-Receives, poll_again-Receives}
use oneshot.Client.Dropping.{drop_ready-Receives}
use oneshot.Receiver.Async
use oneshot.Client.{after_poll, polls}

module _ {T : Type 0} (model : Model) (m : T) (P : ReceiverWaker → Type 0) where
  abbrev pub AllContexts : List Context → Type 0
  AllContexts [] = Unit
  AllContexts (cx ∷ cxs) = P (task_waker cx) × AllContexts cxs

  abbrev pub PollsAnswer : Poll (Result T RecvError) → ReceiverPhase → Type 0
  PollsAnswer pending ρ = IsRegistered model m P ρ
  PollsAnswer (ready (ok n)) ρ = (n ≡ m) × (ρ ≡ released true)
  PollsAnswer (ready (err _)) ρ = ρ ≡ released false

  module _ (fuel : ℕ) (rest : Program T (Poll (Result T RecvError)))
      (h : (w : ReceiverWaker) (seen : Bool)
        → P w
        → Receives model m PollsAnswer (receiving w false seen) rest) where
    after_poll-Receives :
        (r : Poll (Result T RecvError)) (ρ : ReceiverPhase)
        → PollAnswer model m P waiting r ρ
        → Receives model m PollsAnswer ρ (after_poll fuel rest r)
    after_poll-Receives pending (receiving w false seen) a = h w seen a.1
    after_poll-Receives (ready (ok n)) (over sent s waker y) a =
        drop_ready-Receives model m PollsAnswer fuel (ok n) sent s waker y (a.0, ap released a.2.0)
          a.2.1 a.2.2 a.2.3
    after_poll-Receives (ready (err e)) (over sent s waker y) a =
        drop_ready-Receives model m PollsAnswer fuel (err e) sent s waker y (ap released a.0) a.1
          a.2 a.3
    after_poll-Receives pending _ a = elim a.1 [ ]
    after_poll-Receives (ready (ok n)) _ a = elim a.2 [ ]
    after_poll-Receives (ready (err e)) _ a = elim a [ ]

  -- A poll, and what comes after it.
  polled-Receives :
      (fuel : ℕ) (cx : Context) (rest : Program T (Poll (Result T RecvError))) (ρ : ReceiverPhase)
      → Receives model m (PollAnswer model m P waiting) ρ (Async.poll fuel cx)
      → ((w : ReceiverWaker) (seen : Bool)
          → P w
          → Receives model m PollsAnswer (receiving w false seen) rest)
      → Receives model m PollsAnswer ρ (Async.poll fuel cx >>= after_poll fuel rest)
  polled-Receives fuel cx rest ρ h k =
      Receives-bind model m (PollAnswer model m P waiting) PollsAnswer (after_poll fuel rest)
        (after_poll-Receives fuel rest k) ρ (Async.poll fuel cx) h

  polls_again-Receives :
      (fuel : ℕ) (cx : Context) (cxs : List Context) (w : ReceiverWaker) (seen : Bool)
      → P (task_waker cx)
      → AllContexts cxs
      → P w
      → Receives model m PollsAnswer (receiving w false seen) (polls fuel cx cxs)
  unfolding polls
  polls_again-Receives fuel cx [] w seen h hs k =
      polled-Receives fuel cx (ret pending) (receiving w false seen)
        (poll_again-Receives model m P fuel cx w seen h k) (λ w' seen' k'. k')
  polls_again-Receives fuel cx (next ∷ cxs) w seen h hs k =
      polled-Receives fuel cx (polls fuel next cxs) (receiving w false seen)
        (poll_again-Receives model m P fuel cx w seen h k)
        (λ w' seen' k'. polls_again-Receives fuel next cxs w' seen' hs.0 hs.1 k')

  pub polls-Receives :
      (fuel : ℕ) (cx : Context) (cxs : List Context)
      → P (task_waker cx)
      → AllContexts cxs
      → Receives model m PollsAnswer idle (polls fuel cx cxs)
  unfolding polls
  polls-Receives fuel cx [] h hs =
      polled-Receives fuel cx (ret pending) idle (poll-Receives model m P fuel cx waiting h tt)
        (λ w' seen' k'. k')
  polls-Receives fuel cx (next ∷ cxs) h hs =
      polled-Receives fuel cx (polls fuel next cxs) idle
        (poll-Receives model m P fuel cx waiting h tt)
        (λ w' seen' k'. polls_again-Receives fuel next cxs w' seen' hs.0 hs.1 k')
