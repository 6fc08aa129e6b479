-- ===== src/Promptness.antt =====
-- How soon a program of the receiver ends once the sender is through and the byte is the receiver's
-- alone.
pub mod Sequence
pub mod Methods
pub mod Client
pub mod Futures
pub mod Promised
pub mod Conclusion
pub mod Steps
pub mod Open
pub mod Pace
pub mod System
pub mod Counting
use oneshot.Prelude.{ℕ, zero, suc, ◌≤◌, ◌==◌, Bool, ◌||◌, ◌≡◌}
use oneshot.Atomic.{
  AtomicOp, load, store, swap, fetch_add, fetch_xor, compare_exchange, value_after,
}
use oneshot.Program.{
  Program, Action, ret, unreachable, out_of_fuel, atomic, act, take_message, read_message,
  take_waker, now,
}
use oneshot.Waker.{ReceiverWaker}
use oneshot.States

-- The states that the sender leaves.
abbrev pub is_final : ℕ → Bool
is_final s = (s == States.message) || (s == States.disconnected)

module _ {T R : Type 0} where
  abbrev pub IsDone : Program T R → Type 0
  IsDone (ret r) = Unit
  IsDone _ = ⊥

  abbrev pub Never : Program T R → Type 0
  Never p = ⊥

abbrev pub AnyEnd : {R : Type 0} → ℕ → ℕ → R → Type 0
AnyEnd n s r = Unit

-- A call ends with this much of its bound left, and in a state that the sender may have left.
abbrev pub CallEnd : {R : Type 0} → ℕ → ℕ → ℕ → R → Type 0
CallEnd rest left s r = (rest ≤ left) × (is_final s ≡ Bool.true)

module _ {T R : Type 0} (E : ℕ → ℕ → R → Type 0) where
  -- With the byte at `s`, and nobody else writing it, the program has at most so many effects, and
  -- writes only the five states.
  abbrev pub Quick : ℕ → ℕ → Program T R → Type 0
  Quick n s (ret r) = E n s r
  Quick n s unreachable = Unit
  Quick n s out_of_fuel = Unit
  Quick zero s _ = ⊥
  Quick (suc n) s (atomic op k) = (value_after op s ≤ 4) × Quick n (value_after op s) (k s)
  Quick (suc n) s (act a p) = Quick n s p
  Quick (suc n) s (take_message k) = (m : T) → Quick n s (k m)
  Quick (suc n) s (read_message k) = (m : T) → Quick n s (k m)
  Quick (suc n) s (take_waker k) = (w : ReceiverWaker) → Quick n s (k w)
  Quick (suc n) s (now k) = (t : ℕ) → Quick n s (k t)

  -- From either state that the sender leaves.
  abbrev pub Finals : ℕ → Program T R → Type 0
  Finals n p = Quick n States.message p × Quick n States.disconnected p

  -- A swap that leaves `DISCONNECTED` behind and finds the sender alive is the last operation.
  abbrev pub Leaving : (Program T R → Type 0) → AtomicOp → (ℕ → Program T R) → Type 0
  Leaving D (load o) k = Unit
  Leaving D (store v o) k = Unit
  Leaving D (swap v o) k = v ≡ States.disconnected → D (k States.empty)
  Leaving D (fetch_add v o) k = ⊥
  Leaving D (fetch_xor v o) k = ⊥
  Leaving D (compare_exchange c v s f) k = ¬ (v ≡ States.disconnected)

  -- Whenever the sender becomes through, the rest of the program is quick.
  abbrev pub Prompt : (Program T R → Type 0) → ℕ → Program T R → Type 0
  Prompt D n (ret r) = Finals n (ret r)
  Prompt D n unreachable = Unit
  Prompt D n out_of_fuel = Unit
  Prompt D n (atomic op k) = Finals n (atomic op k) × Leaving D op k × ((v : ℕ) → Prompt D n (k v))
  Prompt D n (act a p) = Finals n (act a p) × Prompt D n p
  Prompt D n (take_message k) = Finals n (take_message k) × ((m : T) → Prompt D n (k m))
  Prompt D n (read_message k) = Finals n (read_message k) × ((m : T) → Prompt D n (k m))
  Prompt D n (take_waker k) = Finals n (take_waker k) × ((w : ReceiverWaker) → Prompt D n (k w))
  Prompt D n (now k) = Finals n (now k) × ((t : ℕ) → Prompt D n (k t))
