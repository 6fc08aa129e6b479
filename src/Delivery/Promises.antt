-- ===== src/Delivery/Promises.antt =====
-- What the documentation of src/receiver.rs promises of the receive methods after `has_message` and
-- `is_closed` have answered `true`, whatever was called before.
use oneshot.Prelude.{ℕ, ◌+◌, ◌*◌, ◌≡◌, ◌<◌, ◌⊎◌, subst, Bool, false, List, [], ◌∷◌, arith}
use oneshot.Memory.{Model}
use oneshot.Program.{ret}
use oneshot.Machine.{System, Reach}
use oneshot.Machine.Schedule.{turns, after}
use oneshot.Machine.Counting.{receiver_effects}
use oneshot.Receiver
use oneshot.Client.{SenderUse, SenderResult, ReceiverCall, recv, receiver_client}
use oneshot.Client.Sending.{Sending}
use oneshot.Client.Available.{Receive, IsReceive, receive}
use oneshot.Client.Promised.{
  after_calls, with_test, NextYields, NothingMore, has_message-Promised, is_closed-Promised,
}
use oneshot.Promptness.{IsDone, AnyEnd, Prompt}
use oneshot.Promptness.Methods.{eight, has_message-Prompt, is_closed-Prompt}
use oneshot.Promptness.Client.{effects_left, receiver_client-Prompt}
use oneshot.Promptness.Promised.{
  effects_after, receive-Prompt, answer-Prompt, with_test-Prompt, after_calls-Prompt,
}
use oneshot.Delivery.Fuel.{receiver_client-Lasts}
use oneshot.Delivery.Termination.{length, effects_left-length}
use oneshot.Client.Answers.{Answered, answer, refusal}
use oneshot.Client.Refusals.{IsRefusal, IsRefusal-Promised}
use oneshot.Delivery.Called.{
  called, effects_after-length, answer-Lasts, after_calls-Lasts, receive-Lasts, with_test-Lasts,
  called-Ends,
}

-- The receiver's thread makes any calls, then tests with `has_message`, then calls a receive method:
-- `try_recv`, `recv_ref`, `recv_timeout`, `recv_deadline` or `recv`. Once the sender's thread has
-- ended, however the sender was used, it is through after at most eight effects for each call, if
-- the loops have more fuel than its effects so far and these. Then, if `has_message` answered
-- `true`, the receive method after it has returned the message that the sender sent.
pub has_message-receives :
    {T : Type 0} (model : Model) (m : T) (clock tests fuel : ℕ) (u : SenderUse T)
    (before : List ReceiverCall) (method : Receive) (s : System T (SenderResult T) (Bool × List T))
    (a : SenderResult T)
    → Sending m u
    → IsReceive method
    → (r : Reach model
        (called clock tests fuel u before (with_test Receiver.has_message (receive fuel method)))
        s)
    → s.tx ≡ ret a
    → receiver_effects model r + (8 * length before + 16) < fuel
    → (b : Bool) × (ns : List T) × ((after model (turns (8 * length before + 16)) s).rx
        ≡ ret (b, ns))
      × ((b ≡ false) ⊎ (ns ≡ m ∷ []))
unfolding Receiver.has_message
has_message-receives {T} model m clock tests fuel u before method s a same i =
    called-Ends model m clock tests fuel u before (NextYields model m fuel method i)
      (with_test Receiver.has_message (receive fuel method)) 16 same
      (has_message-Promised model m fuel method i)
      (with_test-Prompt 8 Receiver.has_message (receive fuel method) (has_message-Prompt T 8)
        (receive-Prompt T fuel method))
      (with_test-Lasts fuel Receiver.has_message (receive fuel method) (λ v. tt)
        (receive-Lasts T fuel method))
      s a

-- The receiver's thread makes any calls, then tests with `is_closed`, then makes any calls, of which
-- the last is `recv`. Once the sender's thread has ended, however the sender was used, it is through
-- after at most eight effects for each call, if the loops have more fuel than its effects so far and
-- these. Then, if `is_closed` answered `true`, no call after it has yielded a message.
pub is_closed-receives :
    {T : Type 0} (model : Model) (m : T) (clock tests fuel : ℕ) (u : SenderUse T)
    (before later : List ReceiverCall) (s : System T (SenderResult T) (Bool × List T))
    (a : SenderResult T)
    → Sending m u
    → (r : Reach model
        (called clock tests fuel u before
          (with_test Receiver.is_closed (receiver_client fuel later recv)))
        s)
    → s.tx ≡ ret a
    → receiver_effects model r + (8 * length before + (8 * length later + 16)) < fuel
    → (b : Bool) × (ns : List T) × ((after model
          (turns (8 * length before + (8 * length later + 16)))
          s).rx
        ≡ ret (b, ns))
      × ((b ≡ false) ⊎ (ns ≡ []))
unfolding Receiver.is_closed
is_closed-receives {T} model m clock tests fuel u before later s a same =
    called-Ends model m clock tests fuel u before (NothingMore model m fuel later)
      (with_test Receiver.is_closed (receiver_client fuel later recv)) (8 * length later + 16) same
      (is_closed-Promised model m fuel later)
      (subst
        (λ n.
          Prompt {T = T} AnyEnd IsDone n
            (with_test Receiver.is_closed (receiver_client fuel later recv)))
        same_bound
        (with_test-Prompt (effects_left later) Receiver.is_closed (receiver_client fuel later recv)
          (is_closed-Prompt T (effects_left later)) (receiver_client-Prompt T fuel later recv)))
      (with_test-Lasts fuel Receiver.is_closed (receiver_client fuel later recv) (λ v. tt)
        (receiver_client-Lasts T fuel later recv))
      s a
  where
    same_bound : eight (effects_left later) ≡ 8 * length later + 16
    same_bound = let e = effects_left-length later in omega arith

-- The receiver's thread makes any calls, then tests with `is_closed`, then makes any calls again, and
-- last calls one method more. Once the sender's thread has ended, however the sender was used, it is
-- through after at most eight effects for each call, if the loops have more fuel than its effects so
-- far and these. Then, if the test answered `true`, the method called last has answered that the
-- channel is closed: `try_recv`, `recv_timeout` and `recv_deadline` `Disconnected`, `recv` and
-- `recv_ref` `RecvError`, `is_closed` `true` and `has_message` `false`.
pub is_closed-refusal :
    {T : Type 0} (model : Model) (m : T) (clock tests fuel : ℕ) (u : SenderUse T)
    (before later : List ReceiverCall) (method : Receive)
    (s : System T (SenderResult T) (Bool × Answered T)) (a : SenderResult T)
    → Sending m u
    → (r : Reach model
        (called clock tests fuel u before
          (with_test Receiver.is_closed (after_calls fuel later (answer fuel method))))
        s)
    → s.tx ≡ ret a
    → receiver_effects model r + (8 * length before + (8 * length later + 16)) < fuel
    → (b : Bool) × (x : Answered T) × ((after model
          (turns (8 * length before + (8 * length later + 16)))
          s).rx
        ≡ ret (b, x))
      × ((b ≡ false) ⊎ (x ≡ refusal method))
unfolding Receiver.is_closed
is_closed-refusal {T} model m clock tests fuel u before later method s a same =
    let rest = after_calls fuel later (answer {T = T} fuel method) in
    called-Ends model m clock tests fuel u before (IsRefusal model m fuel later method)
      (with_test Receiver.is_closed rest) (8 * length later + 16) same
      (IsRefusal-Promised model m fuel later method)
      (subst (λ n. Prompt {T = T} AnyEnd IsDone n (with_test Receiver.is_closed rest)) same_bound
        (with_test-Prompt (effects_after 8 later) Receiver.is_closed rest
          (is_closed-Prompt T (effects_after 8 later))
          (after_calls-Prompt fuel 8 (answer fuel method) (answer-Prompt T fuel method) later)))
      (with_test-Lasts fuel Receiver.is_closed rest (λ v. tt)
        (after_calls-Lasts fuel (answer fuel method) (answer-Lasts T fuel method) later))
      s a
  where
    same_bound : eight (effects_after 8 later) ≡ 8 * length later + 16
    same_bound = let e = effects_after-length 8 later in omega arith
