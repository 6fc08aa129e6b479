-- ===== src/Client.antt =====
-- How a user of the crate may use the two endpoints, each in its thread: any number of calls that
-- leave the endpoint alive, then one that consumes it.
pub mod Sending
pub mod Calls
pub mod Receiving
pub mod Dropping
pub mod Polling
pub mod FuturePhases
pub mod Futures
pub mod Awaiting
pub mod Available
pub mod Promised
pub mod Answers
pub mod Refusals
use oneshot.Prelude.{
  ℕ, zero, suc, Bool, true, false, Option, none, some, List, [], ◌∷◌, Result, ok, err,
}
use oneshot.Program.{Program, ret, ◌>>=◌, ◌>>◌}
use oneshot.Errors.{RecvError, TryRecvError, RecvTimeoutError}
use oneshot.Sender.{SendError}
use oneshot.Sender
use oneshot.Receiver
use oneshot.Receiver.Timed
use oneshot.Receiver.Async
use oneshot.Channel.{Poll, ready, pending}
use oneshot.Waker.{Context}

-- What is done with a `SendError`: the message is taken out, or looked at and dropped.
pub data ErrorUse : Type 0 where
  unwrapped discarded : ErrorUse

pub data SenderUse (T : Type 0) : Type 0 where
  sends : T → ErrorUse → SenderUse T
  drops : SenderUse T

pub data SenderResult (T : Type 0) : Type 0 where
  delivered : SenderResult T
  refused : T → SenderResult T
  gone : SenderResult T

module _ {T : Type 0} where
  unfoldable pub use_error : ErrorUse → Program T (SenderResult T)
  unfolding Sender.into_inner Sender.as_inner Sender.drop_error
  use_error unwrapped = do n ← Sender.into_inner; ret (refused n)
  use_error discarded = do n ← Sender.as_inner; Sender.drop_error; ret (refused n)

  abbrev pub after_send : ErrorUse → Result (Unit {0}) SendError → Program T (SenderResult T)
  after_send e (ok _) = ret delivered
  after_send e (err _) = use_error e

  unfoldable pub use_sender : SenderUse T → Program T (SenderResult T)
  use_sender (sends m e) = Sender.send m >>= after_send e
  use_sender drops = Sender.drop >> ret gone

  -- The sender is tested `tests` times with `is_closed`, then used.
  unfoldable pub sender_client : (tests : ℕ) → SenderUse T → Program T (SenderResult T)
  unfolding use_sender
  sender_client zero u = use_sender u
  sender_client (suc tests) u = Sender.is_closed >>= λ _. sender_client tests u

pub data ReceiverCall : Type 0 where
  try_recv recv_ref is_closed has_message : ReceiverCall
  recv_timeout : (last_instant delay : ℕ) → ReceiverCall
  recv_deadline : (deadline : ℕ) → ReceiverCall

pub data ReceiverEnd : Type 0 where
  recv drop : ReceiverEnd

module _ {T : Type 0} where
  abbrev pub to_option : {E : Type 0} → Result T E → Program T (Option T)
  to_option (ok n) = ret (some n)
  to_option (err _) = ret none

  -- A call, and the message that it yields.
  unfoldable pub call : (fuel : ℕ) → ReceiverCall → Program T (Option T)
  call fuel try_recv = Receiver.try_recv >>= to_option
  call fuel recv_ref = Receiver.recv_ref fuel >>= to_option
  call fuel is_closed = Receiver.is_closed >> ret none
  call fuel has_message = Receiver.has_message >> ret none
  call fuel (recv_timeout last_instant delay) =
      Timed.recv_timeout fuel last_instant delay >>= to_option
  call fuel (recv_deadline deadline) = Timed.recv_deadline fuel deadline >>= to_option

  abbrev pub prepend : Option T → List T → List T
  prepend none ns = ns
  prepend (some n) ns = n ∷ ns

  unfoldable pub finish : (fuel : ℕ) → ReceiverEnd → Program T (List T)
  finish fuel recv = Receiver.recv fuel >>= λ r. to_option r >>= λ o. ret (prepend o [])
  finish fuel drop = Receiver.drop >> ret []

  -- The messages that the calls yield, in order.
  unfoldable pub receiver_client : (fuel : ℕ) → List ReceiverCall → ReceiverEnd → Program T (List T)
  receiver_client fuel [] end = finish fuel end
  receiver_client fuel (c ∷ cs) end =
      call fuel c >>= λ o. receiver_client fuel cs end >>= λ ns. ret (prepend o ns)

module _ {T : Type 0} where
  -- A future that is ready is dropped.
  abbrev pub after_poll :
      (fuel : ℕ)
      → Program T (Poll (Result T RecvError))
      → Poll (Result T RecvError)
      → Program T (Poll (Result T RecvError))
  after_poll fuel rest pending = rest
  after_poll fuel rest (ready r) = Async.drop fuel >> ret (ready r)

  -- The future is polled with one context after the other, until it is ready.
  unfoldable pub polls : (fuel : ℕ) → Context → List Context → Program T (Poll (Result T RecvError))
  polls fuel cx [] = Async.poll fuel cx >>= after_poll fuel (ret pending)
  polls fuel cx (next ∷ cxs) = Async.poll fuel cx >>= after_poll fuel (polls fuel next cxs)

-- What may be done with a future between its creation and the poll that is ready.
pub data FutureCall : Type 0 where
  polled : Context → FutureCall
  tests_closed tests_message : FutureCall

module _ {T : Type 0} where
  unfoldable pub future_client :
      (fuel : ℕ) → List FutureCall → Program T (Poll (Result T RecvError))
  future_client fuel [] = ret pending
  future_client fuel (polled cx ∷ cs) =
      Async.poll fuel cx >>= after_poll fuel (future_client fuel cs)
  future_client fuel (tests_closed ∷ cs) = Async.is_closed >> future_client fuel cs
  future_client fuel (tests_message ∷ cs) = Async.has_message >> future_client fuel cs

-- Whether the future was ready, and the messages that the calls and the future yielded, in order. A
-- future that was ready with an error yielded none.
pub record AwaitResult (T : Type 0) : Type 0 where
  pub is_ready : Bool
  pub messages : List T

module _ {T : Type 0} where
  abbrev pub await_result : Poll (Result T RecvError) → AwaitResult T
  await_result pending = record { is_ready = false; messages = [] }
  await_result (ready (ok n)) = record { is_ready = true; messages = n ∷ [] }
  await_result (ready (err _)) = record { is_ready = true; messages = [] }

  -- The calls of a receiver, which is then made a future.
  unfoldable pub awaited_client :
      (fuel : ℕ) → List ReceiverCall → List FutureCall → Program T (AwaitResult T)
  awaited_client fuel [] fs = future_client fuel fs >>= λ x. ret (await_result x)
  awaited_client fuel (c ∷ cs) fs = call fuel c >>= λ o. awaited_client fuel cs fs >>= λ a.
      ret (record { is_ready = a.is_ready; messages = prepend o a.messages })
