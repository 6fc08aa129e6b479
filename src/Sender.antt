-- ===== src/Sender.antt =====
-- src/sender.rs, and `SendError` of src/errors.rs, which takes over the sender's end of the channel.
use oneshot.Prelude.{Bool, ◌==◌, if◌then◌else◌, Result, ok, err}
use oneshot.Program.{Program, ret, unreachable, ◌>>=◌, ◌>>◌}
use oneshot.Atomic.{relaxed, acq_rel}
use oneshot.Waker.{ReceiverWaker}
use oneshot.Program
use oneshot.Channel
use oneshot.States

-- An endpoint of the channel whose message could not be sent; it owns the channel.
pub data SendError : Type 0 where
  send_error : SendError

module _ {T : Type 0} where
  abbrev pub unpark : ReceiverWaker → Program T (Unit {0})
  unpark w = Channel.effect (Program.Action.unpark w)

  unfoldable pub send : T → Program T (Result (Unit {0}) SendError)
  send m = do
    Channel.write_message m
    found ← Channel.fetch_add 1 acq_rel
    if found == States.empty
        then ret (ok tt)
        else if found == States.receiving
        then (do
          waker ← Channel.take_waker
          _ ← Channel.swap States.message acq_rel
          unpark waker
          ret (ok tt))
        else if found == States.disconnected
        then ret (err send_error)
        else unreachable

  unfoldable pub is_closed : Program T Bool
  is_closed = do found ← Channel.load relaxed; ret (found == States.disconnected)

  -- `Drop for Sender`
  unfoldable pub drop : Program T (Unit {0})
  drop = do
    found ← Channel.fetch_xor 0b001 acq_rel
    if found == States.empty
        then ret tt
        else if found == States.receiving
        then (do
          waker ← Channel.take_waker
          _ ← Channel.swap States.disconnected acq_rel
          unpark waker)
        else if found == States.disconnected
        then Channel.dealloc
        else unreachable

  -- `SendError::into_inner`
  unfoldable pub into_inner : Program T T
  into_inner = do m ← Channel.take_message; Channel.dealloc; ret m

  -- `SendError::as_inner`
  unfoldable pub as_inner : Program T T
  as_inner = Channel.message

  -- `Drop for SendError`
  unfoldable pub drop_error : Program T (Unit {0})
  drop_error = do Channel.drop_message; Channel.dealloc
