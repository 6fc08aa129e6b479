-- ===== src/LoomBox.antt =====
-- src/loombox.rs, `Box<T>` of the builds for the loom model checker, over an explicit heap. loom's
-- allocator is a parameter: `allocate` chooses the address of a new block, 0 for null.
pub mod Blocks
pub mod Laws
pub mod Lifetime
pub mod Separation
pub mod Comparison
pub mod Contents
use oneshot.Prelude.{ℕ, ◌==◌, if◌then◌else◌, Option, none, some, Bool}
use oneshot.LoomBox.Blocks.{
  Layout, from_size_align, Allocate, is_null, Heap, Ran, done, panicked, ◌>>=◌, ◌>>◌, pure, alloc,
  read, write, drop_in_place, dealloc,
}

pub record Box : Type 0 where
  pub ptr : ℕ

-- Ownership of the block goes over to the pointer, and back.
unfoldable pub into_raw : Box → ℕ
into_raw b = b.ptr

unfoldable pub from_raw : ℕ → Box
from_raw ptr = record { ptr = ptr }

-- The reference that lives on.
unfoldable pub leak : Box → ℕ
unfolding into_raw
leak b = into_raw b

module _ {A : Type 0} where
  abbrev assert_not_null : ℕ → Heap A → Ran A (Unit {0})
  assert_not_null ptr heap = if is_null ptr then panicked else done tt heap

  -- `new` with the pointer that it got.
  abbrev pub place : A → ℕ → Heap A → Ran A Box
  place value ptr = do assert_not_null ptr; write ptr value; pure (record { ptr = ptr })

module _ {A : Type 0} (allocate : Allocate A) (layout : Layout) where
  -- `layout` is `Layout::new::<T>()`.
  unfoldable pub new : A → Heap A → Ran A Box
  new value = do ptr ← alloc allocate layout; place value ptr

module _ {A : Type 0} where
  -- `Deref`, `AsRef` and `Borrow`.
  unfoldable pub deref : Box → Heap A → Ran A A
  deref b = read b.ptr

  unfoldable pub borrow : Box → Heap A → Ran A A
  borrow b = deref b

  unfoldable pub as_ref : Box → Heap A → Ran A A
  as_ref b = deref b

  -- What is done through the mutable reference of `DerefMut`, `AsMut` and `BorrowMut`.
  unfoldable pub deref_mut : Box → (A → A) → Heap A → Ran A (Unit {0})
  deref_mut b update = do v ← read b.ptr; write b.ptr (update v)

  unfoldable pub borrow_mut : Box → (A → A) → Heap A → Ran A (Unit {0})
  borrow_mut b update = deref_mut b update

  unfoldable pub as_mut : Box → (A → A) → Heap A → Ran A (Unit {0})
  as_mut b update = deref_mut b update

  abbrev deallocate : ℕ → Option Layout → Heap A → Ran A (Unit {0})
  deallocate ptr none = λ heap. panicked
  deallocate ptr (some l) = do drop_in_place ptr; dealloc ptr l

  -- `Drop for Box`: `size_of_val` and `align_of_val` read the layout off the value.
  unfoldable pub drop : Layout → Box → Heap A → Ran A (Unit {0})
  drop layout b = do deref b; deallocate b.ptr (from_size_align layout.size layout.align)

-- `T: Clone`
module _ {A : Type 0} (allocate : Allocate A) (layout : Layout) (clone_value : A → A) where
  unfoldable pub clone : Box → Heap A → Ran A Box
  unfolding new as_ref
  clone b = do v ← as_ref b; new allocate layout (clone_value v)
