-- ===== src/Endpoints/AsyncReceiver.antt =====
-- The struct `AsyncReceiver<T>` of src/receiver.rs.
use oneshot.Prelude.{ℕ}

pub record AsyncReceiver : Type 0 where
  pub channel_ptr : ℕ
