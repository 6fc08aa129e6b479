-- ===== src/Endpoints/Sender.antt =====
-- The struct `Sender<T>` of src/sender.rs, and the `SendError<T>` that takes its channel over.
use oneshot.Prelude.{ℕ}

pub record Sender : Type 0 where
  pub channel_ptr : ℕ

unfoldable pub new : ℕ → Sender
new channel_ptr = record { channel_ptr = channel_ptr }

-- The destructor does not run.
unfoldable pub into_raw : Sender → ℕ
into_raw self = self.channel_ptr

unfoldable pub from_raw : ℕ → Sender
unfolding new
from_raw raw = new raw

pub record SendError : Type 0 where
  pub channel_ptr : ℕ

unfoldable pub new_error : ℕ → SendError
new_error channel_ptr = record { channel_ptr = channel_ptr }
