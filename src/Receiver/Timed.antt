-- ===== src/Receiver/Timed.antt =====
-- src/receiver.rs, the receiving methods with a time limit. An `Instant` is a number of ticks of the
-- clock, of which the largest that can be represented is `last_instant`.
use oneshot.Prelude.{
  ℕ, zero, suc, ◌+◌, ◌-◌, ltb, ◌||◌, ◌==◌, if◌then◌else◌, Option, none, some, Result, ok, err,
}
use oneshot.Program.{Program, ret, unreachable, out_of_fuel, ◌>>=◌, ◌>>◌}
use oneshot.Program
use oneshot.Atomic.{relaxed, acquire}
use oneshot.Errors.{RecvError, RecvTimeoutError, timeout}
use oneshot.Channel
use oneshot.States
use oneshot.Receiver.{park, start_recv_ref, recv_ref}

-- `Instant::checked_add`
abbrev pub checked_add : (last_instant now delay : ℕ) → Option ℕ
checked_add last_instant now delay =
    if ltb last_instant (now + delay) then none else some (now + delay)

-- `deadline.checked_duration_since(now)`
abbrev pub checked_duration_since : (deadline now : ℕ) → Option ℕ
checked_duration_since deadline now = if ltb deadline now then none else some (deadline - now)

module _ {T : Type 0} where
  abbrev now : Program T ℕ
  now = Program.now ret

  abbrev park_timeout : ℕ → Program T (Unit {0})
  park_timeout d = Channel.effect (Program.Action.park_timeout d)

  unfoldable pub wait_for_unpark : ℕ → Program T (Result T RecvTimeoutError)
  wait_for_unpark zero = out_of_fuel
  wait_for_unpark (suc fuel) = do
    park
    found ← Channel.load relaxed
    let park_again = wait_for_unpark fuel
    if found == States.message
        then (do Channel.store States.disconnected relaxed; m ← Channel.take_message; ret (ok m))
        else if found == States.disconnected
        then ret (err RecvTimeoutError.disconnected)
        else if found == States.empty
        then park_again
        else unreachable

  -- The `None` arm of the loop of `recv_deadline`: the deadline has passed.
  unfoldable pub recv_expired : ℕ → Program T (Result T RecvTimeoutError)
  recv_expired fuel = do
    found ← Channel.swap States.empty acquire
    if found == States.receiving
        then (do Channel.drop_waker; ret (err timeout))
        else if found == States.message
        then (do Channel.store States.disconnected relaxed; m ← Channel.take_message; ret (ok m))
        else if found == States.disconnected
        then (do Channel.store States.disconnected relaxed; ret (err RecvTimeoutError.disconnected))
        else if found == States.unparking
        then wait_for_unpark fuel
        else unreachable

  -- A round of the loop of `recv_deadline`, with the time that is left, if any.
  unfoldable pub recv_deadline_round :
      (park_again at_deadline : Program T (Result T RecvTimeoutError))
      → Option ℕ
      → Program T (Result T RecvTimeoutError)
  recv_deadline_round park_again at_deadline (some left) = do
    park_timeout left
    found ← Channel.load acquire
    if found == States.message
        then (do Channel.store States.disconnected relaxed; m ← Channel.take_message; ret (ok m))
        else if found == States.disconnected
        then ret (err RecvTimeoutError.disconnected)
        else if (found == States.receiving || found == States.unparking)
        then park_again
        else unreachable
  recv_deadline_round park_again at_deadline none = at_deadline

  -- The loop of `recv_deadline`.
  unfoldable pub recv_deadline_parked : ℕ → ℕ → Program T (Result T RecvTimeoutError)
  recv_deadline_parked zero deadline = out_of_fuel
  recv_deadline_parked (suc fuel) deadline = do
    instant ← now
    let park_again = recv_deadline_parked fuel deadline
    recv_deadline_round park_again (recv_expired fuel) (checked_duration_since deadline instant)

  unfoldable pub recv_deadline : ℕ → ℕ → Program T (Result T RecvTimeoutError)
  unfolding start_recv_ref
  recv_deadline fuel deadline =
      start_recv_ref RecvTimeoutError.disconnected (recv_deadline_parked fuel deadline)

  -- `map_err(|_| RecvTimeoutError::Disconnected)`
  abbrev pub map_disconnected : Result T RecvError → Program T (Result T RecvTimeoutError)
  map_disconnected (ok m) = ret (ok m)
  map_disconnected (err _) = ret (err RecvTimeoutError.disconnected)

  -- `recv_timeout` with the deadline, if it can be represented.
  unfoldable pub recv_until : ℕ → Option ℕ → Program T (Result T RecvTimeoutError)
  recv_until fuel (some deadline) = recv_deadline fuel deadline
  recv_until fuel none = recv_ref fuel >>= map_disconnected

  unfoldable pub recv_timeout : ℕ → (last_instant delay : ℕ) → Program T (Result T RecvTimeoutError)
  recv_timeout fuel last_instant delay = do
    instant ← now
    recv_until fuel (checked_add last_instant instant delay)
