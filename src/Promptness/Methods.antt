-- ===== src/Promptness/Methods.antt =====
-- The methods of src/receiver.rs that leave the receiver alive, and those that end it.
use oneshot.Prelude.{ℕ, zero, suc, Option, none, some, Result, ok, err, arith}
use oneshot.Program.{Program}
use oneshot.Errors.{RecvError, RecvTimeoutError}
use oneshot.Promptness.{IsDone, Never, AnyEnd, CallEnd, Quick, Finals, Prompt}
use oneshot.Promptness.Sequence.{Prompt-bind}
use oneshot.Receiver
use oneshot.Receiver.Timed

-- No method has more effects after the sender is through.
abbrev pub eight : ℕ → ℕ
eight n = suc (suc (suc (suc (suc (suc (suc (suc n)))))))

-- What is left of it after a look at the clock.
abbrev seven : ℕ → ℕ
seven n = suc (suc (suc (suc (suc (suc (suc n))))))

module _ (T : Type 0) (n : ℕ) where
  pub try_recv-Prompt : Prompt {T = T} (CallEnd n) Never (eight n) Receiver.try_recv
  unfolding Receiver.try_recv
  try_recv-Prompt = ground arith

  pub is_closed-Prompt : Prompt {T = T} (CallEnd n) Never (eight n) Receiver.is_closed
  unfolding Receiver.is_closed
  is_closed-Prompt = ground arith

  pub has_message-Prompt : Prompt {T = T} (CallEnd n) Never (eight n) Receiver.has_message
  unfolding Receiver.has_message
  has_message-Prompt = ground arith

  recv_ref_parked-Prompt :
      (fuel : ℕ) → Prompt {T = T} (CallEnd n) Never (eight n) (Receiver.recv_ref_parked fuel)
  unfolding Receiver.recv_ref_parked
  recv_ref_parked-Prompt zero = tt
  recv_ref_parked-Prompt (suc fuel) = ground (arith, recv_ref_parked-Prompt fuel)

  wait_for_unpark-Prompt :
      (fuel : ℕ) → Prompt {T = T} (CallEnd n) Never (eight n) (Timed.wait_for_unpark fuel)
  unfolding Timed.wait_for_unpark
  wait_for_unpark-Prompt zero = tt
  wait_for_unpark-Prompt (suc fuel) = ground (arith, wait_for_unpark-Prompt fuel)

  recv_parked-Prompt : (fuel : ℕ) → Prompt {T = T} AnyEnd Never 8 (Receiver.recv_parked fuel)
  unfolding Receiver.recv_parked
  recv_parked-Prompt zero = tt
  recv_parked-Prompt (suc fuel) = ground (arith, recv_parked-Prompt fuel)

  pub recv-Prompt : (fuel : ℕ) → Prompt {T = T} AnyEnd Never 8 (Receiver.recv fuel)
  unfolding Receiver.recv Receiver.recv_swapped
  recv-Prompt fuel = ground (arith, recv_parked-Prompt fuel)

  pub drop-Prompt : Prompt {T = T} AnyEnd IsDone 8 Receiver.drop
  unfolding Receiver.drop
  drop-Prompt = ground arith

  pub recv_ref-Prompt :
      (fuel : ℕ) → Prompt {T = T} (CallEnd n) Never (eight n) (Receiver.recv_ref fuel)
  unfolding Receiver.recv_ref Receiver.start_recv_ref Receiver.start_recv_swapped
  recv_ref-Prompt fuel = ground (arith, recv_ref_parked-Prompt fuel)

  recv_expired-Prompt :
      (fuel : ℕ) → Prompt {T = T} (CallEnd n) Never (eight n) (Timed.recv_expired fuel)
  unfolding Timed.recv_expired
  recv_expired-Prompt fuel = ground (arith, wait_for_unpark-Prompt fuel)

  round-Finals :
      (fuel : ℕ) (park_again : Program T (Result T RecvTimeoutError)) (left : Option ℕ)
      → Finals
          (CallEnd n)
          (seven n)
          (Timed.recv_deadline_round park_again (Timed.recv_expired fuel) left)
  unfolding Timed.recv_deadline_round Timed.recv_expired
  round-Finals fuel park_again (some d) = ground arith
  round-Finals fuel park_again none = ground arith

  round-Prompt :
      (fuel : ℕ) (park_again : Program T (Result T RecvTimeoutError)) (left : Option ℕ)
      → Prompt (CallEnd n) Never (eight n) park_again
      → Prompt
          (CallEnd n)
          Never
          (eight n)
          (Timed.recv_deadline_round park_again (Timed.recv_expired fuel) left)
  unfolding Timed.recv_deadline_round
  round-Prompt fuel park_again (some d) h = ground (arith, h)
  round-Prompt fuel park_again none h = recv_expired-Prompt fuel

  recv_deadline_parked-Prompt :
      (fuel deadline : ℕ)
      → Prompt {T = T} (CallEnd n) Never (eight n) (Timed.recv_deadline_parked fuel deadline)
  unfolding Timed.recv_deadline_parked
  recv_deadline_parked-Prompt zero deadline = tt
  recv_deadline_parked-Prompt (suc fuel) deadline =
      let rest = Timed.recv_deadline_parked {T = T} fuel deadline in
      let left = Timed.checked_duration_since deadline in
      (
        (λ t. (round-Finals fuel rest (left t)).0, λ t. (round-Finals fuel rest (left t)).1),
        λ t. round-Prompt fuel rest (left t) (recv_deadline_parked-Prompt fuel deadline),
      )

  pub recv_deadline-Prompt :
      (fuel deadline : ℕ)
      → Prompt {T = T} (CallEnd n) Never (eight n) (Timed.recv_deadline fuel deadline)
  unfolding Timed.recv_deadline Receiver.start_recv_ref Receiver.start_recv_swapped
  recv_deadline-Prompt fuel deadline = ground (arith, recv_deadline_parked-Prompt fuel deadline)

  map_disconnected-Prompt :
      (r : Result T RecvError) → Prompt (CallEnd n) Never (eight n) (Timed.map_disconnected r)
  map_disconnected-Prompt (ok m) = ground arith
  map_disconnected-Prompt (err e) = ground arith

  map_disconnected-Quick :
      (left s : ℕ) (r : Result T RecvError)
      → CallEnd n left s r
      → Quick (CallEnd n) left s (Timed.map_disconnected r)
  map_disconnected-Quick left s (ok m) h = h
  map_disconnected-Quick left s (err e) h = h

  recv_until-Prompt :
      (fuel : ℕ) (deadline : Option ℕ)
      → Prompt {T = T} (CallEnd n) Never (eight n) (Timed.recv_until fuel deadline)
  unfolding Timed.recv_until
  recv_until-Prompt fuel (some deadline) = recv_deadline-Prompt fuel deadline
  recv_until-Prompt fuel none =
      Prompt-bind (CallEnd n) (CallEnd n) Timed.map_disconnected map_disconnected-Quick Never Never
        (λ p h. h) (eight n) (Receiver.recv_ref fuel) map_disconnected-Prompt (recv_ref-Prompt fuel)

  recv_until-Finals :
      (fuel : ℕ) (deadline : Option ℕ)
      → Finals {T = T} (CallEnd n) (seven n) (Timed.recv_until fuel deadline)
  unfolding Timed.recv_until Timed.recv_deadline Receiver.recv_ref Receiver.start_recv_ref
      Receiver.start_recv_swapped
  recv_until-Finals fuel (some deadline) = ground arith
  recv_until-Finals fuel none = ground arith

  pub recv_timeout-Prompt :
      (fuel last_instant delay : ℕ)
      → Prompt {T = T} (CallEnd n) Never (eight n) (Timed.recv_timeout fuel last_instant delay)
  unfolding Timed.recv_timeout
  recv_timeout-Prompt fuel last_instant delay = (
    (
      λ t. (recv_until-Finals fuel (Timed.checked_add last_instant t delay)).0,
      λ t. (recv_until-Finals fuel (Timed.checked_add last_instant t delay)).1,
    ),
    λ t. recv_until-Prompt fuel (Timed.checked_add last_instant t delay),
  )
