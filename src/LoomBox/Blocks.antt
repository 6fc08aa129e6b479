-- ===== src/LoomBox/Blocks.antt =====
-- The heap under src/loombox.rs: blocks at addresses, each with the layout it was allocated with and
-- a content that may be uninitialised, and the values whose destructor has run.
use oneshot.Prelude.{
  ℕ, zero, suc, ◌-◌, ◌^◌, Bool, true, false, ◌&&◌, ◌||◌, ltb, ◌==◌, if◌then◌else◌, Option, none,
  some, List, [], ◌∷◌,
}
use oneshot.Memory.{Slot, uninit, init}

-- `core::alloc::Layout`
pub record Layout : Type 0 where
  pub size : ℕ
  pub align : ℕ

-- One of the powers of two below the width of `usize`.
abbrev is_power_below : ℕ → ℕ → Bool
is_power_below zero n = false
is_power_below (suc k) n = (2 ^ k == n) || is_power_below k n

-- `Layout::from_size_align`: the alignment is a power of two, and the size rounded up to it is at
-- most `isize::MAX`.
unfoldable pub from_size_align : ℕ → ℕ → Option Layout
from_size_align size align =
    if (is_power_below 64 align && ltb size (suc (2 ^ 63 - align)))
    then some (record { size = size; align = align })
    else none

pub record Block (A : Type 0) : Type 0 where
  pub address : ℕ
  pub layout : Layout
  pub content : Slot A

pub record Heap (A : Type 0) : Type 0 where
  pub blocks : List (Block A)
  pub dropped : List A

-- `invalid`: an access to memory that is not allocated or holds no value, or a block that is freed
-- with another layout than its own.
pub data Ran (A B : Type 0) : Type 0 where
  done : B → Heap A → Ran A B
  panicked : Ran A B
  invalid : Ran A B

-- The address of a new block of a layout, next to the given ones.
abbrev pub Allocate : Type 0 → Type 0
Allocate A = Layout → List (Block A) → ℕ

abbrev pub is_null : ℕ → Bool
is_null zero = true
is_null (suc p) = false

module _ {A : Type 0} where
  abbrev pub find : ℕ → List (Block A) → Option (Block A)
  find p [] = none
  find p (b ∷ bs) = if b.address == p then some b else find p bs

  abbrev pub remove : ℕ → List (Block A) → List (Block A)
  remove p [] = []
  remove p (b ∷ bs) = let rest = remove p bs in if b.address == p then bs else b ∷ rest

  abbrev pub fill : ℕ → Slot A → List (Block A) → List (Block A)
  fill p v [] = []
  fill p v (b ∷ bs) =
      let rest = fill p v bs in if b.address == p then record b { content = v } ∷ bs else b ∷ rest

module _ {A B C : Type 0} where
  infixl 5 ◌>>=◌ ◌>>◌
  abbrev pub ◌>>=◌ : (Heap A → Ran A B) → (B → Heap A → Ran A C) → Heap A → Ran A C
  (c >>= f) heap = elim (c heap) [
    | done b heap' ↦ f b heap'
    | panicked ↦ panicked
    | invalid ↦ invalid
  ]

  abbrev pub ◌>>◌ : (Heap A → Ran A B) → (Heap A → Ran A C) → Heap A → Ran A C
  c >> d = c >>= λ _. d

module _ {A : Type 0} where
  abbrev pub pure : {B : Type 0} → B → Heap A → Ran A B
  pure b heap = done b heap

  -- `loom::alloc::alloc`, with the address that the allocator chose.
  abbrev pub allocated : ℕ → Layout → Heap A → Ran A ℕ
  allocated p layout heap =
      if is_null p
      then done 0 heap
      else done p (record heap {
        blocks = record { address = p; layout = layout; content = uninit } ∷ heap.blocks;
      })

  abbrev pub alloc : Allocate A → Layout → Heap A → Ran A ℕ
  alloc allocate layout heap = allocated (allocate layout heap.blocks) layout heap

  -- Reading through a pointer or a reference.
  abbrev content_of : Heap A → Option (Block A) → Ran A A
  content_of heap none = invalid
  content_of heap (some b) = elim b.content [ uninit ↦ invalid | init v ↦ done v heap ]

  abbrev pub read : ℕ → Heap A → Ran A A
  read p heap = content_of heap (find p heap.blocks)

  -- `ptr::write`, which drops nothing.
  abbrev pub write : ℕ → A → Heap A → Ran A (Unit {0})
  write p v heap = elim (find p heap.blocks) [
    | none ↦ invalid
    | some b ↦ done tt (record heap { blocks = fill p (init v) heap.blocks })
  ]

  -- `ptr::drop_in_place`
  abbrev pub drop_in_place : ℕ → Heap A → Ran A (Unit {0})
  drop_in_place p = read p >>= λ v heap.
      done tt (record { blocks = fill p uninit heap.blocks; dropped = v ∷ heap.dropped })

  -- `loom::alloc::dealloc`
  abbrev pub dealloc : ℕ → Layout → Heap A → Ran A (Unit {0})
  dealloc p layout heap = elim (find p heap.blocks) [
    | none ↦ invalid
    | some b ↦
        if (b.layout.size == layout.size && b.layout.align == layout.align)
        then done tt (record heap { blocks = remove p heap.blocks })
        else invalid
  ]
