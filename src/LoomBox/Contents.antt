-- ===== src/LoomBox/Contents.antt =====
-- `fmt::Display`, `fmt::Debug` and `hash::Hash` of src/loombox.rs, which are those of the content.
use oneshot.LoomBox.Blocks.{Heap, Ran, ◌>>=◌, pure}
use oneshot.LoomBox.{Box, deref}

-- The traits of the content: `F` is the formatter, `O` what `fmt` leaves of it with its result, and
-- `H` the hasher.
pub record Display (A F O : Type 0) : Type 0 where
  pub fmt : A → F → O

pub record Debug (A F O : Type 0) : Type 0 where
  pub fmt : A → F → O

pub record Hash (A H : Type 0) : Type 0 where
  pub hash : A → H → H

module _ {A F O : Type 0} where
  unfoldable pub display_fmt : Display A F O → Box → F → Heap A → Ran A O
  display_fmt d b f = do v ← deref b; pure (d.fmt v f)

  unfoldable pub debug_fmt : Debug A F O → Box → F → Heap A → Ran A O
  debug_fmt d b f = do v ← deref b; pure (d.fmt v f)

module _ {A H : Type 0} where
  unfoldable pub hash : Hash A H → Box → H → Heap A → Ran A H
  hash h b state = do v ← deref b; pure (h.hash v state)
