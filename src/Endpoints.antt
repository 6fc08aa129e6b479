-- ===== src/Endpoints.antt =====
-- The endpoints as values, from src/lib.rs, src/sender.rs and src/receiver.rs: each holds a pointer
-- to its channel, one block of a heap of channels. The heap and its `Box` are those of LoomBox.antt,
-- `loombox::Box` in builds for loom; `alloc::boxed::Box` has the same interface.
pub mod Sender
pub mod Receiver
pub mod AsyncReceiver
pub mod Channels
use oneshot.Prelude.{ℕ}
use oneshot.Memory.{Memory, fresh}
use oneshot.LoomBox.Blocks.{Layout, Allocate, Heap, Ran, ◌>>=◌, pure}
use oneshot.LoomBox.{new, leak, from_raw, drop}
use oneshot.Endpoints.Sender
use oneshot.Endpoints.Receiver
use oneshot.Endpoints.AsyncReceiver

module _ {T : Type 0} (allocate : Allocate (Memory T)) (layout : Layout) (clock : ℕ) where
  unfoldable pub channel : Heap (Memory T) → Ran (Memory T) (Sender.Sender × Receiver.Receiver)
  channel = do
    b ← new allocate layout (fresh clock)
    pure (Sender.new (leak b), Receiver.new (leak b))

  unfoldable pub async_channel :
      Heap (Memory T) → Ran (Memory T) (Sender.Sender × AsyncReceiver.AsyncReceiver)
  unfolding channel
  async_channel = do (sender, receiver) ← channel; pure (sender, Receiver.into_future receiver)

module _ {T : Type 0} (layout : Layout) where
  unfoldable pub dealloc : ℕ → Heap (Memory T) → Ran (Memory T) (Unit {0})
  dealloc channel_ptr = drop layout (from_raw channel_ptr)
