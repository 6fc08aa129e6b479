-- ===== src/LoomBox/Separation.antt =====
-- Boxes of src/loombox.rs beside each other.
use oneshot.Prelude.{ℕ, ◌≡◌, ◌≢◌, sym, subst, ap, ◌∙◌, arith}
use oneshot.Memory.{init}
use oneshot.LoomBox.Blocks.{Layout, Allocate, find, fill, Heap, done, read, write}
use oneshot.LoomBox.{Box, deref_mut, new, deref, as_ref, clone}
use oneshot.LoomBox.Laws.{
  bind-done, find-next, IsDistinct, find-fill_other, filled, find-fill, fill-IsDistinct,
}
use oneshot.LoomBox.Lifetime.{IsAllocator, new-cases, deref-block, find-deref, absent-read}

module _ {A : Type 0} (allocate : Allocate A) (layout : Layout) (value : A) (heap : Heap A) where
  -- `new` at an address that the allocator promises not to be in use.
  pub new-separate :
      (b c : Box) (x : A) (heap' : Heap A)
      → IsAllocator allocate
      → IsDistinct heap.blocks
      → deref c heap ≡ done x heap
      → new allocate layout value heap ≡ done b heap'
      → (c.ptr ≢ b.ptr)
        × (deref b heap' ≡ done value heap')
        × (deref c heap' ≡ done x heap')
        × IsDistinct heap'.blocks
  unfolding new
  new-separate b c x heap' promise valid read e =
      let p = allocate layout heap.blocks in
      let (some_address, box, same) = new-cases layout value heap p b heap' e in
      let free = promise layout heap.blocks some_address in
      let blocks = ap (λ h. h.blocks) same in
      let other : c.ptr ≢ p =
        λ q. absent-read heap c x (ap (λ r. find r heap.blocks) q ∙ free) read in
      (
        λ q. other (q ∙ ap (λ d. d.ptr) box),
        subst (λ d. deref d heap' ≡ done value heap') (sym box)
            (subst (λ h. deref (record { ptr = p }) h ≡ done value h) (sym same)
              (deref-block layout value heap p)),
        find-deref c heap heap' x (ap (find c.ptr) blocks ∙ find-next c.ptr _ heap.blocks other)
            read,
        subst IsDistinct (sym blocks) (free, some_address, valid),
      )

clone-new :
    {A : Type 0} (allocate : Allocate A) (layout : Layout) (clone_value : A → A) (b : Box) (x : A)
    (heap : Heap A)
    → deref b heap ≡ done x heap
    → clone allocate layout clone_value b heap ≡ new allocate layout (clone_value x) heap
unfolding clone as_ref
clone-new allocate layout clone_value b x heap read =
    bind-done (deref b) (λ v. new allocate layout (clone_value v)) heap heap x read

-- A clone of a box is a box of its own, where the allocator gives no address that is in use: it
-- reads the clone of the value, at another address, the original still reads the value, and the
-- addresses stay distinct.
pub clone-separate :
    {A : Type 0} (allocate : Allocate A) (layout : Layout) (clone_value : A → A) (b c : Box) (x : A)
    (heap heap' : Heap A)
    → IsAllocator allocate
    → IsDistinct heap.blocks
    → deref b heap ≡ done x heap
    → clone allocate layout clone_value b heap ≡ done c heap'
    → (b.ptr ≢ c.ptr)
      × (deref c heap' ≡ done (clone_value x) heap')
      × (deref b heap' ≡ done x heap')
      × IsDistinct heap'.blocks
clone-separate allocate layout clone_value b c x heap heap' promise valid read e =
    new-separate allocate layout (clone_value x) heap c b x heap' promise valid read
      (sym (clone-new allocate layout clone_value b x heap read) ∙ e)

write-blocks :
    {A : Type 0} (p : ℕ) (v : A) (heap heap' : Heap A)
    → write p v heap ≡ done tt heap'
    → heap'.blocks ≡ fill p (init v) heap.blocks
write-blocks p v heap heap' e = ground arith

reads-filled :
    {A : Type 0} (b : Box) (v w : A) (heap heap' : Heap A)
    → find b.ptr heap'.blocks ≡ filled (init w) (find b.ptr heap.blocks)
    → deref b heap ≡ done v heap
    → deref b heap' ≡ done w heap'
unfolding deref
reads-filled b v w heap heap' e own = ground (arith, e)

-- What is written through the reference of `deref_mut` is what the box then reads; another box
-- reads what it did, and the addresses stay distinct.
pub update-separate :
    {A : Type 0} (b c : Box) (v x : A) (update : A → A) (heap heap' : Heap A)
    → IsDistinct heap.blocks
    → c.ptr ≢ b.ptr
    → deref b heap ≡ done v heap
    → deref c heap ≡ done x heap
    → deref_mut b update heap ≡ done tt heap'
    → (deref b heap' ≡ done (update v) heap')
      × (deref c heap' ≡ done x heap')
      × IsDistinct heap'.blocks
unfolding deref_mut deref
update-separate b c v x update heap heap' valid other own theirs e =
    let wrote = sym (bind-done (read b.ptr) (λ w. write b.ptr (update w)) heap heap v own) ∙ e in
    let blocks = write-blocks b.ptr (update v) heap heap' wrote in
    let kept =
      ap (find c.ptr) blocks ∙ find-fill_other c.ptr b.ptr (init (update v)) heap.blocks other in
    let found = ap (find b.ptr) blocks ∙ find-fill b.ptr (init (update v)) heap.blocks in
    (
      reads-filled b v (update v) heap heap' found own,
      find-deref c heap heap' x kept theirs,
      subst IsDistinct (sym blocks) (fill-IsDistinct b.ptr (init (update v)) heap.blocks valid),
    )
