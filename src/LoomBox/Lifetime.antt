-- ===== src/LoomBox/Lifetime.antt =====
-- The life of a box of src/loombox.rs, from `new` to its drop.
use oneshot.Prelude.{
  ℕ, zero, suc, ◌≡◌, ◌≢◌, refl, sym, subst, ap, ◌∙◌, none, some, List, ◌∷◌, arith,
}
use oneshot.Memory.{uninit, init}
use oneshot.LoomBox.Blocks.{
  Layout, from_size_align, Allocate, Block, find, remove, fill, Heap, done, invalid, allocated,
  ◌>>=◌,
}
use oneshot.LoomBox.{place, Box, into_raw, from_raw, new, deref, as_ref, borrow, drop}
use oneshot.LoomBox.Laws.{
  IsDistinct, find-fill_other, find-remove_other, find-remove, find-fill, fill-IsDistinct,
  remove-IsDistinct, remove-fill,
}

-- The layout of a type: `Layout::new` is always valid.
abbrev pub IsTypeLayout : Layout → Type 0
IsTypeLayout layout = from_size_align layout.size layout.align ≡ some layout

-- The allocator gives null or the address of no other block.
abbrev pub IsAllocator : {A : Type 0} → Allocate A → Type 0
IsAllocator {A} allocate =
    (layout : Layout) (bs : List (Block A))
    → allocate layout bs ≢ 0
    → find (allocate layout bs) bs ≡ none

module _ {A : Type 0} where
  pub absent-read :
      (heap : Heap A) (b : Box) (x : A)
      → find b.ptr heap.blocks ≡ none
      → ¬ (deref b heap ≡ done x heap)
  unfolding deref
  absent-read heap b x e d = ground (arith, e)

  pub find-deref :
      (c : Box) (h h' : Heap A) (x : A)
      → find c.ptr h'.blocks ≡ find c.ptr h.blocks
      → deref c h ≡ done x h
      → deref c h' ≡ done x h'
  unfolding deref
  find-deref c h h' x e d = ground (arith, e)

module _ {A : Type 0} (layout : Layout) (value : A) (heap : Heap A) where
  abbrev with_block : ℕ → Heap A
  with_block p = record heap {
    blocks = record { address = p; layout = layout; content = init value } ∷ heap.blocks;
  }

  created :
      (p : ℕ)
      → ¬ (p ≡ 0)
      → (allocated p layout >>= place value) heap ≡ done (record { ptr = p }) (with_block p)
  created zero h = elim (h refl) [ ]
  created (suc q) h = ground arith

  -- `new` fails only by the allocator.
  pub new-cases :
      (p : ℕ) (b : Box) (heap' : Heap A)
      → (allocated p layout >>= place value) heap ≡ done b heap'
      → ¬ (p ≡ 0) × (b ≡ record { ptr = p }) × (heap' ≡ with_block p)
  new-cases zero b heap' e = cc
  new-cases (suc q) b heap' e = let e' = created (suc q) (λ z. cc) in (λ z. cc, cc, cc)

  pub deref-block : (p : ℕ) → deref (record { ptr = p }) (with_block p) ≡ done value (with_block p)
  unfolding deref
  deref-block p = ground arith

  drop-block :
      (p : ℕ)
      → IsTypeLayout layout
      → drop layout (record { ptr = p }) (with_block p)
        ≡ done tt (record heap { dropped = value ∷ heap.dropped })
  unfolding drop deref
  drop-block p h = rw h (ground arith)

module _ {A : Type 0} (layout : Layout) (heap : Heap A) where
  dropped_at : ℕ → A → Heap A
  dropped_at p v = record {
    blocks = remove p (fill p uninit heap.blocks);
    dropped = v ∷ heap.dropped;
  }

  drop-cases :
      (p : ℕ) (heap' : Heap A)
      → drop layout (record { ptr = p }) heap ≡ done tt heap'
      → (v : A) × (deref (record { ptr = p }) heap ≡ done v heap) × (heap' ≡ dropped_at p v)
  unfolding drop deref dropped_at
  drop-cases p heap' e = ground (arith, find-fill p uninit heap.blocks)

  absent-deref :
      (b : Box) (h : Heap A)
      → find b.ptr h.blocks ≡ none
      → (deref b h ≡ invalid) × (drop layout b h ≡ invalid)
  unfolding deref drop
  absent-deref b h e = ground (arith, e)

  -- Dropping a box drops its content, once, and frees its block: the heap has the blocks it had, less
  -- this one, and no block at the box's address. From then on an access through the box or a second
  -- drop is invalid, every other box reads what it did, and the addresses stay distinct.
  pub drop-frees :
      (b c : Box) (x : A) (heap' : Heap A)
      → IsDistinct heap.blocks
      → c.ptr ≢ b.ptr
      → deref c heap ≡ done x heap
      → drop layout b heap ≡ done tt heap'
      → (v : A) × (deref b heap ≡ done v heap)
        × (heap' ≡ record { blocks = remove b.ptr heap.blocks; dropped = v ∷ heap.dropped })
        × (find b.ptr heap'.blocks ≡ none)
        × (deref b heap' ≡ invalid)
        × (drop layout b heap' ≡ invalid)
        × (deref c heap' ≡ done x heap')
        × IsDistinct heap'.blocks
  unfolding dropped_at
  drop-frees b c x heap' valid other read e =
      let (v, content, same) = drop-cases b.ptr heap' e in
      let blocks = ap (λ h. h.blocks) same in
      let filled_valid = fill-IsDistinct b.ptr uninit heap.blocks valid in
      let absent : find b.ptr heap'.blocks ≡ none =
        ap (find b.ptr) blocks ∙ find-remove b.ptr (fill b.ptr uninit heap.blocks) filled_valid in
      let kept : find c.ptr heap'.blocks ≡ find c.ptr heap.blocks =
        ap (find c.ptr) blocks
        ∙ find-remove_other c.ptr b.ptr (fill b.ptr uninit heap.blocks) other
        ∙ find-fill_other c.ptr b.ptr uninit heap.blocks other in
      let gone = absent-deref b heap' absent in
      (
        v,
        content,
        same
            ∙ ap (λ bs. record { blocks = bs; dropped = v ∷ heap.dropped })
                (remove-fill b.ptr uninit heap.blocks),
        absent,
        gone.0,
        gone.1,
        find-deref c heap heap' x kept read,
        subst IsDistinct (sym blocks) (remove-IsDistinct b.ptr _ filled_valid),
      )

module _ {A : Type 0} (allocate : Allocate A) (layout : Layout) (value : A) (heap : Heap A) where
  -- A box made by `new` reads its value, through `deref`, `as_ref` and `borrow`; dropped through the raw pointer that `into_raw` gives and
  -- `from_raw` takes back, it drops the value and leaves the heap as it was before, whatever the
  -- allocator did.
  pub new-drop :
      (b : Box) (heap' : Heap A)
      → IsTypeLayout layout
      → new allocate layout value heap ≡ done b heap'
      → (deref b heap' ≡ done value heap')
        × (as_ref b heap' ≡ done value heap')
        × (borrow b heap' ≡ done value heap')
        × (drop layout (from_raw (into_raw b)) heap'
            ≡ done tt (record heap { dropped = value ∷ heap.dropped }))
  unfolding new from_raw into_raw as_ref borrow
  new-drop b heap' valid e =
      let p = allocate layout heap.blocks in
      let (some_address, box, same) = new-cases layout value heap p b heap' e in
      let reads : deref b heap' ≡ done value heap' =
        subst (λ c. deref c heap' ≡ done value heap') (sym box)
          (subst (λ h. deref (record { ptr = p }) h ≡ done value h) (sym same)
            (deref-block layout value heap p)) in
      let drops =
        subst (λ c. drop layout c heap' ≡ done tt (record heap { dropped = value ∷ heap.dropped }))
          (sym box)
          (subst
            (λ h.
              drop layout (record { ptr = p }) h
              ≡ done tt (record heap { dropped = value ∷ heap.dropped }))
            (sym same) (drop-block layout value heap p valid)) in
      (reads, reads, reads, drops)
