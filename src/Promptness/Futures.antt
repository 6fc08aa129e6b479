-- ===== src/Promptness/Futures.antt =====
-- The future of src/receiver.rs, and a receiver that is called and then made one.
use oneshot.Prelude.{ℕ, zero, suc, ◌≤◌, List, [], ◌∷◌, Result, arith}
use oneshot.Program.{Program, ◌>>=◌, ◌>>◌}
use oneshot.Errors.{RecvError}
use oneshot.Channel.{Poll, ready, pending}
use oneshot.Waker.{Context}
use oneshot.Promptness.{IsDone, Never, AnyEnd, CallEnd, Quick, Prompt}
use oneshot.Promptness.Sequence.{Quick-mono, Prompt-bind, Prompt-Finals, Prompt-mono}
use oneshot.Promptness.Methods.{eight}
use oneshot.Promptness.Client.{Finals-Quick, mapped-Prompt, call-then-Prompt}
use oneshot.Receiver.Async
use oneshot.Channel
use oneshot.Atomic.{acquire}
use oneshot.Client.{
  ReceiverCall, prepend, FutureCall, polled, tests_closed, tests_message, after_poll, future_client,
  await_result, awaited_client,
}

module _ (T : Type 0) (n : ℕ) where
  poll_unparking-Prompt :
      (fuel : ℕ) → Prompt {T = T} (CallEnd n) Never (eight n) (Async.poll_unparking fuel)
  unfolding Async.poll_unparking Async.poll_message
  poll_unparking-Prompt zero = tt
  poll_unparking-Prompt (suc fuel) = ground (arith, poll_unparking-Prompt fuel)

  write_async_waker-Prompt :
      (cx : Context) → Prompt {T = T} (CallEnd n) Never (eight n) (Channel.write_async_waker cx)
  unfolding Channel.write_async_waker
  write_async_waker-Prompt cx = ground arith

  poll_receiving-Prompt :
      (cx : Context) → Prompt {T = T} (CallEnd n) Never (eight n) (Async.poll_receiving cx)
  unfolding Async.poll_receiving Async.poll_exchange_error Channel.write_async_waker
      Async.poll_message
  poll_receiving-Prompt cx = ground arith

  poll-Prompt :
      (fuel : ℕ) (cx : Context) → Prompt {T = T} (CallEnd n) Never (eight n) (Async.poll fuel cx)
  unfolding Async.poll Async.poll_message
  poll-Prompt fuel cx =
      ground
        (arith, poll_unparking-Prompt fuel, write_async_waker-Prompt cx, poll_receiving-Prompt cx)

  is_closed-Prompt : Prompt {T = T} (CallEnd n) Never (eight n) Async.is_closed
  unfolding Async.is_closed
  is_closed-Prompt = ground arith

  has_message-Prompt : Prompt {T = T} (CallEnd n) Never (eight n) Async.has_message
  unfolding Async.has_message
  has_message-Prompt = ground arith

module _ (T : Type 0) where
  freed-Prompt :
      (fuel : ℕ)
      → Prompt {T = T} AnyEnd IsDone 8
          (Async.drop_unparking fuel >> (Channel.fence acquire >> Channel.dealloc))
  unfolding Async.drop_unparking
  freed-Prompt zero = tt
  freed-Prompt (suc fuel) = ground (arith, freed-Prompt fuel)

  drop-Prompt : (fuel : ℕ) → Prompt {T = T} AnyEnd IsDone 8 (Async.drop fuel)
  unfolding Async.drop Async.drop_waiting
  drop-Prompt fuel = ground (arith, freed-Prompt fuel)

module _ {T : Type 0} (fuel n : ℕ) (room : 8 ≤ n) (rest : Program T (Poll (Result T RecvError)))
    (h : Prompt AnyEnd IsDone n rest) where
  after_poll-Prompt :
      (r : Poll (Result T RecvError)) → Prompt AnyEnd IsDone n (after_poll fuel rest r)
  after_poll-Prompt pending = h
  after_poll-Prompt (ready r) =
      Prompt-mono IsDone 8 n _ room
        (mapped-Prompt (λ _. ready r) 8 (Async.drop fuel) (drop-Prompt T fuel))

  final-Quick :
      {R : Type 0} (left s : ℕ) (r : R) (p : Program T (Poll (Result T RecvError)))
      → Prompt AnyEnd IsDone n p
      → CallEnd n left s r
      → Quick AnyEnd left s p
  final-Quick left s r p k e =
      Quick-mono n left s p e.0 (Finals-Quick n s p e.1 (Prompt-Finals AnyEnd IsDone n p k))

  polled-Prompt :
      (cx : Context) → Prompt AnyEnd IsDone (eight n) (Async.poll fuel cx >>= after_poll fuel rest)
  polled-Prompt cx =
      Prompt-bind (CallEnd n) AnyEnd _
        (λ left s r. final-Quick left s r (after_poll fuel rest r) (after_poll-Prompt r)) Never
        IsDone (λ q d. elim d [ ]) (eight n) (Async.poll fuel cx)
        (λ r. Prompt-mono IsDone n (eight n) _ (omega arith) (after_poll-Prompt r))
        (poll-Prompt T n fuel cx)

  tested-Prompt :
      {A : Type 0} (test : Program T A)
      → Prompt (CallEnd n) Never (eight n) test
      → Prompt AnyEnd IsDone (eight n) (test >> rest)
  tested-Prompt test k =
      Prompt-bind (CallEnd n) AnyEnd _ (λ left s r. final-Quick left s r rest h) Never IsDone
        (λ q d. elim d [ ]) (eight n) test
        (λ r. Prompt-mono IsDone n (eight n) rest (omega arith) h) k

-- Eight effects for each use of the future, and for its drop.
abbrev pub future_left : List FutureCall → ℕ
future_left [] = 8
future_left (f ∷ fs) = eight (future_left fs)

abbrev pub awaited_left : List ReceiverCall → List FutureCall → ℕ
awaited_left [] fs = future_left fs
awaited_left (c ∷ cs) fs = eight (awaited_left cs fs)

room : (fs : List FutureCall) → 8 ≤ future_left fs
room [] = omega arith
room (f ∷ fs) = let h = room fs in omega arith

module _ (T : Type 0) where
  future_client-Prompt :
      (fuel : ℕ) (fs : List FutureCall)
      → Prompt {T = T} AnyEnd IsDone (future_left fs) (future_client fuel fs)
  unfolding future_client
  future_client-Prompt fuel [] = (tt, tt)
  future_client-Prompt fuel (polled cx ∷ fs) =
      polled-Prompt fuel (future_left fs) (room fs) _ (future_client-Prompt fuel fs) cx
  future_client-Prompt fuel (tests_closed ∷ fs) =
      tested-Prompt fuel (future_left fs) (room fs) _ (future_client-Prompt fuel fs) Async.is_closed
        (is_closed-Prompt T (future_left fs))
  future_client-Prompt fuel (tests_message ∷ fs) =
      tested-Prompt fuel (future_left fs) (room fs) _ (future_client-Prompt fuel fs)
        Async.has_message (has_message-Prompt T (future_left fs))

  pub awaited_client-Prompt :
      (fuel : ℕ) (cs : List ReceiverCall) (fs : List FutureCall)
      → Prompt {T = T} AnyEnd IsDone (awaited_left cs fs) (awaited_client fuel cs fs)
  unfolding awaited_client
  awaited_client-Prompt fuel [] fs =
      mapped-Prompt await_result (future_left fs) (future_client fuel fs)
        (future_client-Prompt fuel fs)
  awaited_client-Prompt fuel (c ∷ cs) fs =
      call-then-Prompt fuel (awaited_left cs fs) c (awaited_client fuel cs fs)
        (λ o a. record { is_ready = a.is_ready; messages = prepend o a.messages })
        (awaited_client-Prompt fuel cs fs)
