-- ===== src/Receiver/Async.antt =====
-- src/receiver.rs, `AsyncReceiver<T>`: its future, and what dropping it does.
use oneshot.Prelude.{ℕ, zero, suc, Bool, ◌==◌, if◌then◌else◌, Result, ok, err}
use oneshot.Program.{Program, ret, unreachable, out_of_fuel, ◌>>=◌, ◌>>◌}
use oneshot.Program
use oneshot.Atomic.{relaxed, acquire, acq_rel}
use oneshot.Waker.{Context, task_waker}
use oneshot.Errors.{RecvError, recv_error}
use oneshot.Channel.{Poll, ready, pending, write_async_waker}
use oneshot.Channel
use oneshot.States

module _ {T : Type 0} where
  abbrev spin_loop : Program T (Unit {0})
  spin_loop = Channel.effect Program.Action.spin_loop

  -- `cx.waker().wake_by_ref()`
  abbrev wake_by_ref : Context → Program T (Unit {0})
  wake_by_ref cx = Channel.effect (Program.Action.unpark (task_waker cx))

  -- What `poll` and its helpers do with a message that has arrived.
  unfoldable pub poll_message : Program T (Poll (Result T RecvError))
  poll_message = do
    Channel.store States.disconnected relaxed
    Channel.fence acquire
    m ← Channel.take_message
    ret (ready (ok m))

  -- `poll` in the state `UNPARKING`.
  unfoldable pub poll_unparking : ℕ → Program T (Poll (Result T RecvError))
  unfolding poll_message
  poll_unparking zero = out_of_fuel
  poll_unparking (suc fuel) = do
    spin_loop
    found ← Channel.load relaxed
    let spin_again = poll_unparking fuel
    if found == States.message
        then poll_message
        else if found == States.disconnected
        then ret (ready (err recv_error))
        else if found == States.unparking
        then spin_again
        else unreachable

  -- `poll` in the state `RECEIVING`, when the exchange found another state.
  unfoldable pub poll_exchange_error : Context → ℕ → Program T (Poll (Result T RecvError))
  unfolding poll_message task_waker
  poll_exchange_error cx found =
      if found == States.message
      then poll_message
      else if found == States.disconnected
      then ret (ready (err recv_error))
      else if found == States.unparking
      then (do wake_by_ref cx; ret pending)
      else unreachable

  -- `poll` in the state `RECEIVING`: replace the waker.
  unfoldable pub poll_receiving : Context → Program T (Poll (Result T RecvError))
  unfolding write_async_waker poll_exchange_error
  poll_receiving cx = do
    exchanged ← Channel.compare_exchange States.receiving States.empty relaxed relaxed
    elim exchanged [
      | ok _ ↦ (do Channel.drop_waker; write_async_waker cx)
      | err found ↦ poll_exchange_error cx found
    ]

  -- `Future for AsyncReceiver`
  unfoldable pub poll : ℕ → Context → Program T (Poll (Result T RecvError))
  unfolding write_async_waker poll_receiving poll_message
  poll fuel cx = do
    found ← Channel.load relaxed
    if found == States.empty
        then write_async_waker cx
        else if found == States.receiving
        then poll_receiving cx
        else if found == States.message
        then poll_message
        else if found == States.disconnected
        then ret (ready (err recv_error))
        else if found == States.unparking
        then poll_unparking fuel
        else unreachable

  unfoldable pub is_closed : Program T Bool
  is_closed = do found ← Channel.load relaxed; ret (found == States.disconnected)

  unfoldable pub has_message : Program T Bool
  has_message = do found ← Channel.load acquire; ret (found == States.message)

  -- The first `if` of `Drop for AsyncReceiver`: take the waker back.
  unfoldable pub drop_waiting : Program T (Unit {0})
  drop_waiting = do
    found ← Channel.load relaxed
    if found == States.receiving
        then (do
          exchanged ← Channel.compare_exchange States.receiving States.empty relaxed relaxed
          elim exchanged [ ok _ ↦ Channel.drop_waker | err _ ↦ ret tt ])
        else ret tt

  -- The loop of `Drop for AsyncReceiver`.
  unfoldable pub drop_unparking : ℕ → Program T (Unit {0})
  drop_unparking zero = out_of_fuel
  drop_unparking (suc fuel) = do
    spin_loop
    found ← Channel.load relaxed
    let spin_again = drop_unparking fuel
    if found == States.message
        then Channel.drop_message
        else if found == States.disconnected
        then ret tt
        else if found == States.unparking
        then spin_again
        else unreachable

  -- `Drop for AsyncReceiver`
  unfoldable pub drop : ℕ → Program T (Unit {0})
  unfolding drop_waiting
  drop fuel = do
    drop_waiting
    found ← Channel.swap States.disconnected acq_rel
    if found == States.empty
        then ret tt
        else if found == States.message
        then (do Channel.drop_message; Channel.dealloc)
        else if found == States.disconnected
        then Channel.dealloc
        else if found == States.unparking
        then (do drop_unparking fuel; Channel.fence acquire; Channel.dealloc)
        else unreachable
