-- ===== src/Receiver.antt =====
-- src/receiver.rs, `Receiver<T>`: the receiving methods. Blocking methods take the number of rounds
-- that their loop may make. The timed ones are in Receiver/Timed.antt, the future in
-- Receiver/Async.antt.
pub mod Timed
pub mod Async
use oneshot.Prelude.{ℕ, zero, suc, Bool, ◌||◌, ◌==◌, if◌then◌else◌, Result, ok, err}
use oneshot.Program.{Program, ret, unreachable, out_of_fuel, ◌>>=◌, ◌>>◌}
use oneshot.Program
use oneshot.Atomic.{relaxed, acquire, release, acq_rel}
use oneshot.Waker.{current_thread}
use oneshot.Errors.{RecvError, recv_error, TryRecvError}
use oneshot.Channel
use oneshot.States

module _ {T : Type 0} where
  abbrev pub park : Program T (Unit {0})
  park = Channel.effect Program.Action.park

  unfoldable pub try_recv : Program T (Result T TryRecvError)
  try_recv = do
    found ← Channel.load relaxed
    if found == States.message
        then (do
          Channel.store States.disconnected relaxed
          Channel.fence acquire
          m ← Channel.take_message
          ret (ok m))
        else if found == States.empty
        then ret (err TryRecvError.empty)
        else if found == States.disconnected
        then ret (err TryRecvError.disconnected)
        else unreachable

  -- The loop of `recv`.
  unfoldable pub recv_parked : ℕ → Program T (Result T RecvError)
  recv_parked zero = out_of_fuel
  recv_parked (suc fuel) = do
    park
    found ← Channel.load acquire
    let park_again = recv_parked fuel
    if found == States.message
        then (do m ← Channel.take_message; Channel.dealloc; ret (ok m))
        else if found == States.disconnected
        then (do Channel.dealloc; ret (err recv_error))
        else if (found == States.receiving || found == States.unparking)
        then park_again
        else unreachable

  -- The second `match` of `recv`, on the state that `swap(RECEIVING)` replaced.
  unfoldable pub recv_swapped : ℕ → ℕ → Program T (Result T RecvError)
  recv_swapped fuel found =
      if found == States.empty
      then recv_parked fuel
      else if found == States.message
      then (do
        Channel.drop_waker
        Channel.fence acquire
        m ← Channel.take_message
        Channel.dealloc
        ret (ok m))
      else if found == States.disconnected
      then (do Channel.drop_waker; Channel.fence acquire; Channel.dealloc; ret (err recv_error))
      else unreachable

  unfoldable pub recv : ℕ → Program T (Result T RecvError)
  unfolding current_thread recv_swapped
  recv fuel = do
    found ← Channel.load relaxed
    if found == States.empty
        then (do
          Channel.write_waker current_thread
          swapped ← Channel.swap States.receiving release
          recv_swapped fuel swapped)
        else if found == States.message
        then (do Channel.fence acquire; m ← Channel.take_message; Channel.dealloc; ret (ok m))
        else if found == States.disconnected
        then (do Channel.fence acquire; Channel.dealloc; ret (err recv_error))
        else unreachable

  -- The second `match` of `start_recv_ref`.
  unfoldable pub start_recv_swapped :
      {E : Type 0} → E → Program T (Result T E) → ℕ → Program T (Result T E)
  start_recv_swapped disconnected_error finish found =
      if found == States.empty
      then finish
      else if found == States.message
      then (do
        Channel.drop_waker
        Channel.store States.disconnected relaxed
        Channel.fence acquire
        m ← Channel.take_message
        ret (ok m))
      else if found == States.disconnected
      then (do
        Channel.drop_waker
        Channel.store States.disconnected relaxed
        Channel.fence acquire
        ret (err disconnected_error))
      else unreachable

  unfoldable pub start_recv_ref : {E : Type 0} → E → Program T (Result T E) → Program T (Result T E)
  unfolding current_thread start_recv_swapped
  start_recv_ref disconnected_error finish = do
    found ← Channel.load acquire
    if found == States.empty
        then (do
          Channel.write_waker current_thread
          swapped ← Channel.swap States.receiving release
          start_recv_swapped disconnected_error finish swapped)
        else if found == States.message
        then (do Channel.store States.disconnected relaxed; m ← Channel.take_message; ret (ok m))
        else if found == States.disconnected
        then ret (err disconnected_error)
        else unreachable

  -- The loop of `recv_ref`.
  unfoldable pub recv_ref_parked : ℕ → Program T (Result T RecvError)
  recv_ref_parked zero = out_of_fuel
  recv_ref_parked (suc fuel) = do
    park
    found ← Channel.load acquire
    let park_again = recv_ref_parked fuel
    if found == States.message
        then (do Channel.store States.disconnected relaxed; m ← Channel.take_message; ret (ok m))
        else if found == States.disconnected
        then ret (err recv_error)
        else if (found == States.receiving || found == States.unparking)
        then park_again
        else unreachable

  unfoldable pub recv_ref : ℕ → Program T (Result T RecvError)
  unfolding start_recv_ref
  recv_ref fuel = start_recv_ref recv_error (recv_ref_parked fuel)

  unfoldable pub is_closed : Program T Bool
  is_closed = do found ← Channel.load relaxed; ret (found == States.disconnected)

  unfoldable pub has_message : Program T Bool
  has_message = do found ← Channel.load acquire; ret (found == States.message)

  -- `Drop for Receiver`
  unfoldable pub drop : Program T (Unit {0})
  drop = do
    found ← Channel.swap States.disconnected acq_rel
    if found == States.empty
        then ret tt
        else if found == States.message
        then (do Channel.drop_message; Channel.dealloc)
        else if found == States.disconnected
        then Channel.dealloc
        else unreachable
