-- ===== src/Waker.antt =====
-- src/waker.rs: what wakes the receiver. The thread of a waiting receiver is the one thread of the
-- receiving side; a task is known by the identity of its `task::Waker`.
use oneshot.Prelude.{ℕ}

pub data ReceiverWaker : Type 0 where
  thread : ReceiverWaker
  task : (id : ℕ) → ReceiverWaker

-- `task::Context`, which holds the waker of the polling task.
pub record Context : Type 0 where
  pub waker : ℕ

unfoldable pub current_thread : ReceiverWaker
current_thread = thread

unfoldable pub task_waker : Context → ReceiverWaker
task_waker cx = task cx.waker
