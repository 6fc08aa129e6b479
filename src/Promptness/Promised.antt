-- ===== src/Promptness/Promised.antt =====
-- The tests of src/receiver.rs after any calls, and the calls after them.
use oneshot.Prelude.{ℕ, Bool, List, [], ◌∷◌, arith}
use oneshot.Program.{Program, ret, ◌>>=◌}
use oneshot.Promptness.{IsDone, Never, AnyEnd, CallEnd, Prompt}
use oneshot.Promptness.Sequence.{Quick-mono, Prompt-bind, Prompt-Finals, Prompt-mono}
use oneshot.Promptness.Methods.{
  eight, try_recv-Prompt, recv_ref-Prompt, is_closed-Prompt, has_message-Prompt,
  recv_timeout-Prompt, recv_deadline-Prompt, recv-Prompt,
}
use oneshot.Receiver
use oneshot.Receiver.Timed
use oneshot.Client.Answers.{Answered, tried, received, timed, closed, found, answer}
use oneshot.Promptness.Client.{Finals-Quick, then-Prompt, call-Prompt, finish-Prompt}
use oneshot.Client.{
  ReceiverCall, try_recv, recv_ref, is_closed, has_message, recv_timeout, recv_deadline, recv, call,
}
use oneshot.Client.Available.{Receive, by_call, by_recv, receive}
use oneshot.Client.Promised.{after_calls, with_test}

-- Eight effects for each call before.
abbrev pub effects_after : ℕ → List ReceiverCall → ℕ
effects_after n [] = n
effects_after n (c ∷ cs) = eight (effects_after n cs)

module _ (T : Type 0) where
  pub receive-Prompt : (fuel : ℕ) (r : Receive) → Prompt {T = T} AnyEnd IsDone 8 (receive fuel r)
  receive-Prompt fuel (by_call c) =
      Prompt-bind (CallEnd 0) AnyEnd _ (λ left s o e. tt) Never IsDone (λ q d. elim d [ ]) 8
        (call fuel c) (λ o. (tt, tt)) (call-Prompt T 0 fuel c)
  receive-Prompt fuel by_recv = finish-Prompt T fuel recv

module _ (T : Type 0) where
  method-Prompt :
      {A : Type 0} (E : ℕ → ℕ → A → Type 0) (p : Program T A) (f : A → Answered T)
      → Prompt E Never 8 p
      → Prompt AnyEnd IsDone 8 (p >>= λ r. ret (f r))
  method-Prompt E p f h =
      Prompt-bind E AnyEnd _ (λ left s r e. tt) Never IsDone (λ q d. elim d [ ]) 8 p (λ r. (tt, tt))
        h

  pub answer-Prompt : (fuel : ℕ) (r : Receive) → Prompt {T = T} AnyEnd IsDone 8 (answer fuel r)
  answer-Prompt fuel (by_call try_recv) =
      method-Prompt (CallEnd 0) Receiver.try_recv tried (try_recv-Prompt T 0)
  answer-Prompt fuel (by_call recv_ref) =
      method-Prompt (CallEnd 0) (Receiver.recv_ref fuel) received (recv_ref-Prompt T 0 fuel)
  answer-Prompt fuel (by_call is_closed) =
      method-Prompt (CallEnd 0) Receiver.is_closed closed (is_closed-Prompt T 0)
  answer-Prompt fuel (by_call has_message) =
      method-Prompt (CallEnd 0) Receiver.has_message found (has_message-Prompt T 0)
  answer-Prompt fuel (by_call (recv_timeout last_instant delay)) =
      method-Prompt (CallEnd 0) (Timed.recv_timeout fuel last_instant delay) timed
        (recv_timeout-Prompt T 0 fuel last_instant delay)
  answer-Prompt fuel (by_call (recv_deadline deadline)) =
      method-Prompt (CallEnd 0) (Timed.recv_deadline fuel deadline) timed
        (recv_deadline-Prompt T 0 fuel deadline)
  answer-Prompt fuel by_recv =
      method-Prompt AnyEnd (Receiver.recv fuel) received (recv-Prompt T 0 fuel)

module _ {T : Type 0} where
  pub with_test-Prompt :
      {X : Type 0} (n : ℕ) (test : Program T Bool) (p : Program T X)
      → Prompt (CallEnd n) Never (eight n) test
      → Prompt AnyEnd IsDone n p
      → Prompt AnyEnd IsDone (eight n) (with_test test p)
  with_test-Prompt n test p k h = then-Prompt n test p (λ b x. (b, x)) k h

  pub after_calls-Prompt :
      {R : Type 0} (fuel n : ℕ) (p : Program T R)
      → Prompt AnyEnd IsDone n p
      → (cs : List ReceiverCall) → Prompt AnyEnd IsDone (effects_after n cs) (after_calls fuel cs p)
  unfolding after_calls
  after_calls-Prompt fuel n p h [] = h
  after_calls-Prompt fuel n p h (c ∷ cs) =
      let k = effects_after n cs in
      let rest = after_calls fuel cs p in
      let prompt = after_calls-Prompt fuel n p h cs in
      Prompt-bind (CallEnd k) AnyEnd _
        (λ left s o e.
          Quick-mono k left s rest e.0
            (Finals-Quick k s rest e.1 (Prompt-Finals AnyEnd IsDone k rest prompt)))
        Never IsDone (λ q d. elim d [ ]) (eight k) (call fuel c)
        (λ o. Prompt-mono IsDone k (eight k) rest (omega arith) prompt) (call-Prompt T k fuel c)
