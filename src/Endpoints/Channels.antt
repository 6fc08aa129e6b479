-- ===== src/Endpoints/Channels.antt =====
-- What src/lib.rs makes and frees.
use oneshot.Prelude.{ℕ, ◌≡◌, ◌≢◌, refl, sym, subst, ap, ◌∙◌, ◌∷◌}
use oneshot.Memory.{Memory, fresh}
use oneshot.LoomBox.Blocks.{Layout, Allocate, Heap, done, pure}
use oneshot.LoomBox.{Box, new, leak, into_raw, from_raw, deref, deref_mut, drop}
use oneshot.LoomBox.Laws.{IsDistinct, bind-cases, bind-done}
use oneshot.LoomBox.Lifetime.{IsTypeLayout, IsAllocator, new-drop}
use oneshot.LoomBox.Separation.{new-separate, update-separate}
use oneshot.Endpoints.{channel, async_channel, dealloc}
use oneshot.Endpoints.Sender
use oneshot.Endpoints.Receiver

module _ {T : Type 0} (allocate : Allocate (Memory T)) (layout : Layout) (clock : ℕ)
    (heap heap' : Heap (Memory T)) (tx : Sender.Sender) (rx : Receiver.Receiver) where
  -- The box that `channel` leaked.
  channel-box :
      channel allocate layout clock heap ≡ done (tx, rx) heap'
      → (b : Box) × (new allocate layout (fresh clock) heap ≡ done b heap')
        × (tx ≡ Sender.new b.ptr)
        × (rx ≡ Receiver.new b.ptr)
  unfolding channel leak into_raw
  channel-box e =
      let (b, h, made, same) =
        bind-cases (new allocate layout (fresh clock))
          (λ b. pure (Sender.new (leak b), Receiver.new (leak b))) heap (tx, rx) heap' e in
      let after : h ≡ heap' = cc in
      (b, subst (λ x. new allocate layout (fresh clock) heap ≡ done b x) after made, cc, cc)

  -- The two endpoints of a new channel point to one block, which holds a channel in its first
  -- state. They come back from the raw pointers that `into_raw` gives; `async_channel` does the
  -- same with the receiver's future, and the future and the `SendError` made of an endpoint point to
  -- the same block. Deallocating through either raw pointer leaves the heap as it was before.
  pub channel-dealloc :
      IsTypeLayout layout
      → channel allocate layout clock heap ≡ done (tx, rx) heap'
      → (tx.channel_ptr ≡ rx.channel_ptr)
        × (deref (from_raw tx.channel_ptr) heap' ≡ done (fresh clock) heap')
        × (Sender.from_raw (Sender.into_raw tx) ≡ tx)
        × (Receiver.from_raw (Receiver.into_raw rx) ≡ rx)
        × (async_channel allocate layout clock heap ≡ done (tx, Receiver.into_future rx) heap')
        × ((Receiver.into_future rx).channel_ptr ≡ tx.channel_ptr)
        × ((Sender.new_error tx.channel_ptr).channel_ptr ≡ rx.channel_ptr)
        × (dealloc layout (Sender.into_raw tx) heap'
            ≡ done tt (record heap { dropped = fresh clock ∷ heap.dropped }))
        × (dealloc layout (Receiver.into_raw rx) heap'
            ≡ done tt (record heap { dropped = fresh clock ∷ heap.dropped }))
  unfolding async_channel dealloc from_raw into_raw Sender.new Sender.from_raw Sender.into_raw
      Receiver.new Receiver.from_raw Receiver.into_raw Receiver.into_future Sender.new_error
  channel-dealloc valid e =
      let (b, made, sender, receiver) = channel-box e in
      let (reads, reads2, reads3, drops) =
        new-drop allocate layout (fresh clock) heap b heap' valid made in
      let tx_ptr : tx.channel_ptr ≡ b.ptr = ap (λ x. x.channel_ptr) sender in
      let rx_ptr : rx.channel_ptr ≡ b.ptr = ap (λ x. x.channel_ptr) receiver in
      (
        tx_ptr ∙ sym rx_ptr,
        subst (λ p. deref (record { ptr = p }) heap' ≡ done (fresh clock) heap') (sym tx_ptr) reads,
        refl,
        refl,
        bind-done (channel allocate layout clock) (λ (s, r). pure (s, Receiver.into_future r)) heap
            heap' (tx, rx) e,
        rx_ptr ∙ sym tx_ptr,
        tx_ptr ∙ sym rx_ptr,
        subst
            (λ p.
              drop layout (record { ptr = p }) heap'
              ≡ done tt (record heap { dropped = fresh clock ∷ heap.dropped }))
            (sym tx_ptr) drops,
        subst
            (λ p.
              drop layout (record { ptr = p }) heap'
              ≡ done tt (record heap { dropped = fresh clock ∷ heap.dropped }))
            (sym rx_ptr) drops,
      )

  -- A new channel is a channel of its own, where the allocator gives no address that is in use:
  -- whatever is done to its memory, another channel keeps its own, and no two channels of the heap
  -- have one address.
  pub channel-separate :
      (c : Box) (x : Memory T) (update : Memory T → Memory T) (after : Heap (Memory T))
      → IsAllocator allocate
      → IsDistinct heap.blocks
      → deref c heap ≡ done x heap
      → channel allocate layout clock heap ≡ done (tx, rx) heap'
      → deref_mut (from_raw rx.channel_ptr) update heap' ≡ done tt after
      → (c.ptr ≢ tx.channel_ptr)
        × (deref (from_raw tx.channel_ptr) after ≡ done (update (fresh clock)) after)
        × (deref c after ≡ done x after)
        × IsDistinct after.blocks
  unfolding from_raw Sender.new Receiver.new
  channel-separate c x update after promise valid read e written =
      let (b, made, sender, receiver) = channel-box e in
      let (other, own, kept, valid') =
        new-separate allocate layout (fresh clock) heap b c x heap' promise valid read made in
      let tx_ptr : tx.channel_ptr ≡ b.ptr = ap (λ y. y.channel_ptr) sender in
      let rx_ptr : rx.channel_ptr ≡ b.ptr = ap (λ y. y.channel_ptr) receiver in
      let (own', kept', valid'') =
        update-separate b c (fresh clock) x update heap' after valid' other own kept (
          subst (λ p. deref_mut (record { ptr = p }) update heap' ≡ done tt after) rx_ptr
            written) in
      (
        λ q. other (q ∙ tx_ptr),
        subst (λ p. deref (record { ptr = p }) after ≡ done (update (fresh clock)) after)
            (sym tx_ptr) own',
        kept',
        valid'',
      )
