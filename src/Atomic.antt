-- ===== src/Atomic.antt =====
-- src/atomic.rs re-exports `AtomicU8` and `Ordering`: the operations that the source makes on the
-- one atomic, as data, and the value that each of them leaves in the byte.
use oneshot.Prelude.{ℕ, ◌+◌, ◌%◌, Bool, true, false, bit_xor, ◌==◌, if◌then◌else◌}

pub data Ordering : Type 0 where
  relaxed acquire release acq_rel : Ordering

abbrev pub acquires : Ordering → Bool
acquires acquire = true
acquires acq_rel = true
acquires _ = false

abbrev pub releases : Ordering → Bool
releases release = true
releases acq_rel = true
releases _ = false

-- Every operation but `store` answers the value that it found.
pub data AtomicOp : Type 0 where
  load : Ordering → AtomicOp
  store : ℕ → Ordering → AtomicOp
  swap : ℕ → Ordering → AtomicOp
  fetch_add : ℕ → Ordering → AtomicOp
  fetch_xor : ℕ → Ordering → AtomicOp
  compare_exchange : (current new : ℕ) → (success failure : Ordering) → AtomicOp

-- The byte after the operation. `fetch_add` wraps around.
abbrev pub value_after : AtomicOp → ℕ → ℕ
value_after (load o) s = s
value_after (store v o) s = v
value_after (swap v o) s = v
value_after (fetch_add v o) s = (s + v) % 256
value_after (fetch_xor v o) s = bit_xor s v
value_after (compare_exchange c v o f) s = if s == c then v else s
