-- ===== src/Endpoints/Receiver.antt =====
-- The struct `Receiver<T>` of src/receiver.rs.
use oneshot.Prelude.{ℕ}
use oneshot.Endpoints.AsyncReceiver.{AsyncReceiver}

pub record Receiver : Type 0 where
  pub channel_ptr : ℕ

unfoldable pub new : ℕ → Receiver
new channel_ptr = record { channel_ptr = channel_ptr }

-- The destructor does not run.
unfoldable pub into_raw : Receiver → ℕ
into_raw self = self.channel_ptr

unfoldable pub from_raw : ℕ → Receiver
from_raw raw = record { channel_ptr = raw }

unfoldable pub into_future : Receiver → AsyncReceiver
into_future self = record { channel_ptr = self.channel_ptr }
