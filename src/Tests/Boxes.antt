-- ===== src/Tests/Boxes.antt =====
-- Boxes and channels on a heap with one block: src/loombox.rs, src/lib.rs and src/errors.rs.
use Prim.Native.String.{String}
use oneshot.Prelude.{ℕ, suc, ◌+◌, ◌≡◌, ◌≢◌, ◌<◌, refl, none, List, [], ◌∷◌, arith}
use oneshot.Memory.{Memory, init, fresh}
use oneshot.LoomBox.Blocks.{
  Layout, from_size_align, Allocate, Block, find, remove, Heap, done, invalid,
}
use oneshot.LoomBox.{
  Box, new, into_raw, from_raw, leak, deref, deref_mut, as_ref, borrow, drop, clone,
}
use oneshot.LoomBox.Laws.{IsDistinct}
use oneshot.LoomBox.Lifetime.{IsAllocator, new-drop, drop-frees}
use oneshot.LoomBox.Separation.{clone-separate, update-separate}
use oneshot.Endpoints.{channel, async_channel, dealloc}
use oneshot.Endpoints.Sender
use oneshot.Endpoints.Receiver
use oneshot.Endpoints.Channels.{channel-dealloc, channel-separate}

module _ {A : Type 0} where
  abbrev total : List (Block A) → ℕ
  total [] = 0
  total (b ∷ bs) = b.address + total bs

  -- A bump allocator.
  abbrev bump : Allocate A
  bump layout bs = suc (total bs)

  above-find : (p : ℕ) (bs : List (Block A)) → total bs < p → find p bs ≡ none
  above-find p [] h = refl
  above-find p (b ∷ bs) h = ground (arith, above-find p bs)

  bump-IsAllocator : IsAllocator bump
  bump-IsAllocator layout bs h = above-find (suc (total bs)) bs (omega arith)

abbrev word : Layout
word = record { size = 8; align = 8 }

abbrev one_box : Heap ℕ
one_box = record {
  blocks = record { address = 4; layout = word; content = init 7 } ∷ [];
  dropped = [];
}

abbrev old_box : Box
old_box = record { ptr = 4 }

abbrev new_box : Box
new_box = record { ptr = 5 }

abbrev with_value : ℕ → Heap ℕ
with_value v = record {
  blocks = record { address = 5; layout = word; content = init v } ∷ one_box.blocks;
  dropped = [];
}

new-drop_example :
    (deref new_box (with_value 9) ≡ done 9 (with_value 9))
    × (as_ref new_box (with_value 9) ≡ done 9 (with_value 9))
    × (borrow new_box (with_value 9) ≡ done 9 (with_value 9))
    × (drop word (from_raw (into_raw new_box)) (with_value 9)
        ≡ done tt (record one_box { dropped = 9 ∷ [] }))
unfolding new from_size_align
new-drop_example = new-drop bump word 9 one_box new_box (with_value 9) refl refl

one_box-IsDistinct : IsDistinct one_box.blocks
one_box-IsDistinct = (refl, omega arith, tt)

two_boxes-IsDistinct : IsDistinct (with_value 9).blocks
two_boxes-IsDistinct = (refl, omega arith, one_box-IsDistinct)

drop-frees_example :
    (v : ℕ) × (deref new_box (with_value 9) ≡ done v (with_value 9))
    × (record one_box { dropped = 9 ∷ [] }
        ≡ record { blocks = remove 5 (with_value 9).blocks; dropped = v ∷ [] })
    × (find 5 one_box.blocks ≡ none)
    × (deref new_box (record one_box { dropped = 9 ∷ [] }) ≡ invalid)
    × (drop word new_box (record one_box { dropped = 9 ∷ [] }) ≡ invalid)
    × (deref old_box (record one_box { dropped = 9 ∷ [] })
        ≡ done 7 (record one_box { dropped = 9 ∷ [] }))
    × IsDistinct one_box.blocks
unfolding drop deref from_size_align
drop-frees_example =
    drop-frees word (with_value 9) new_box old_box 7 (record one_box { dropped = 9 ∷ [] })
      two_boxes-IsDistinct (omega arith) refl refl

clone-separate_example :
    (old_box.ptr ≢ new_box.ptr)
    × (deref new_box (with_value 8) ≡ done 8 (with_value 8))
    × (deref old_box (with_value 8) ≡ done 7 (with_value 8))
    × IsDistinct (with_value 8).blocks
unfolding clone new as_ref deref
clone-separate_example =
    clone-separate bump word suc old_box new_box 7 one_box (with_value 8) bump-IsAllocator
      one_box-IsDistinct refl refl

update-separate_example :
    (deref new_box (with_value 10) ≡ done 10 (with_value 10))
    × (deref old_box (with_value 10) ≡ done 7 (with_value 10))
    × IsDistinct (with_value 10).blocks
unfolding deref_mut deref
update-separate_example =
    update-separate new_box old_box 9 7 suc (with_value 9) (with_value 10) two_boxes-IsDistinct
      (omega arith) refl refl refl

-- A heap with one channel, and with a second one.
abbrev block_of : ℕ → Memory ℕ → Block (Memory ℕ)
block_of p mem = record { address = p; layout = word; content = init mem }

abbrev one_channel : Heap (Memory ℕ)
one_channel = record { blocks = block_of 4 (fresh 0) ∷ []; dropped = [] }

abbrev two_channels : Memory ℕ → Heap (Memory ℕ)
two_channels mem = record { blocks = block_of 5 mem ∷ block_of 4 (fresh 0) ∷ []; dropped = [] }

abbrev tx : Sender.Sender
tx = record { channel_ptr = 5 }

abbrev rx : Receiver.Receiver
rx = record { channel_ptr = 5 }

channel-dealloc_example :
    (tx.channel_ptr ≡ rx.channel_ptr)
    × (deref (from_raw 5) (two_channels (fresh 1)) ≡ done (fresh 1) (two_channels (fresh 1)))
    × (Sender.from_raw (Sender.into_raw tx) ≡ tx)
    × (Receiver.from_raw (Receiver.into_raw rx) ≡ rx)
    × (async_channel bump word 1 one_channel
        ≡ done (tx, Receiver.into_future rx) (two_channels (fresh 1)))
    × ((Receiver.into_future rx).channel_ptr ≡ 5)
    × ((Sender.new_error 5).channel_ptr ≡ 5)
    × (dealloc word (Sender.into_raw tx) (two_channels (fresh 1))
        ≡ done tt (record one_channel { dropped = fresh 1 ∷ [] }))
    × (dealloc word (Receiver.into_raw rx) (two_channels (fresh 1))
        ≡ done tt (record one_channel { dropped = fresh 1 ∷ [] }))
unfolding channel new leak into_raw Sender.new Receiver.new from_size_align
channel-dealloc_example =
    channel-dealloc bump word 1 one_channel (two_channels (fresh 1)) tx rx refl refl

abbrev ticking : Memory ℕ → Memory ℕ
ticking mem = record mem { clock = 7 }

channel-separate_example :
    (old_box.ptr ≢ 5)
    × (deref (from_raw 5) (two_channels (ticking (fresh 1)))
        ≡ done (ticking (fresh 1)) (two_channels (ticking (fresh 1))))
    × (deref old_box (two_channels (ticking (fresh 1)))
        ≡ done (fresh 0) (two_channels (ticking (fresh 1))))
    × IsDistinct (two_channels (ticking (fresh 1))).blocks
unfolding channel new leak into_raw Sender.new Receiver.new from_raw deref_mut deref
channel-separate_example =
    channel-separate bump word 1 one_channel (two_channels (fresh 1)) tx rx old_box (fresh 0)
      ticking (two_channels (ticking (fresh 1))) bump-IsAllocator (refl, omega arith, tt) refl refl
      refl

abbrev byte : String
byte = "u8"
