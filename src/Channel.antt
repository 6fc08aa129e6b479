-- ===== src/Channel.antt =====
-- src/channel.rs: the methods of `Channel<T>`, as programs. Each is one effect, but for
-- `write_async_waker`.
use oneshot.Prelude.{ℕ, ◌==◌, if◌then◌else◌, Result, ok, err}
use oneshot.Program.{Program, Action, ret, unreachable, act, ◌>>=◌, ◌>>◌}
use oneshot.Atomic.{Ordering, AtomicOp, relaxed, acquire, release}
use oneshot.Waker.{ReceiverWaker, Context, task_waker}
use oneshot.Errors.{RecvError, recv_error}
use oneshot.States

-- `core::task::Poll`
pub data Poll (A : Type 0) : Type 0 where
  ready : A → Poll A
  pending : Poll A

module _ {T : Type 0} where
  abbrev pub effect : Action T → Program T (Unit {0})
  effect a = act a (ret tt)

  -- The operations of `state()`.
  abbrev pub load : Ordering → Program T ℕ
  load o = Program.atomic (AtomicOp.load o) ret

  abbrev pub store : ℕ → Ordering → Program T (Unit {0})
  store v o = Program.atomic (AtomicOp.store v o) (λ _. ret tt)

  abbrev pub swap : ℕ → Ordering → Program T ℕ
  swap v o = Program.atomic (AtomicOp.swap v o) ret

  abbrev pub fetch_add : ℕ → Ordering → Program T ℕ
  fetch_add v o = Program.atomic (AtomicOp.fetch_add v o) ret

  abbrev pub fetch_xor : ℕ → Ordering → Program T ℕ
  fetch_xor v o = Program.atomic (AtomicOp.fetch_xor v o) ret

  abbrev pub compare_exchange : ℕ → ℕ → Ordering → Ordering → Program T (Result ℕ ℕ)
  compare_exchange current new success failure =
      Program.atomic (AtomicOp.compare_exchange current new success failure)
        λ found. if found == current then ret (ok found) else ret (err found)

  abbrev pub fence : Ordering → Program T (Unit {0})
  fence o = effect (Action.fence o)

  abbrev pub message : Program T T
  message = Program.read_message ret

  abbrev pub write_message : T → Program T (Unit {0})
  write_message m = effect (Action.write_message m)

  abbrev pub take_message : Program T T
  take_message = Program.take_message ret

  abbrev pub drop_message : Program T (Unit {0})
  drop_message = effect Action.drop_message

  abbrev pub write_waker : ReceiverWaker → Program T (Unit {0})
  write_waker w = effect (Action.write_waker w)

  abbrev pub take_waker : Program T ReceiverWaker
  take_waker = Program.take_waker ret

  abbrev pub drop_waker : Program T (Unit {0})
  drop_waker = effect Action.drop_waker

  -- `dealloc` of src/lib.rs
  abbrev pub dealloc : Program T (Unit {0})
  dealloc = effect Action.dealloc

  abbrev write_async_waker_error : ℕ → Program T (Poll (Result T RecvError))
  write_async_waker_error found =
      if found == States.message
      then (do
        drop_waker
        store States.disconnected relaxed
        fence acquire
        m ← take_message
        ret (ready (ok m)))
      else if found == States.disconnected
      then (do drop_waker; ret (ready (err recv_error)))
      else unreachable

  unfoldable pub write_async_waker : Context → Program T (Poll (Result T RecvError))
  unfolding task_waker
  write_async_waker cx = do
    write_waker (task_waker cx)
    exchanged ← compare_exchange States.empty States.receiving release relaxed
    elim exchanged [ ok _ ↦ ret pending | err found ↦ write_async_waker_error found ]
