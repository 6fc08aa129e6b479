-- ===== src/Program.antt =====
-- A function of the crate as the sequence of its effects on the channel: an atomic operation, an
-- access to a cell, a wake-up. Between two effects the other endpoint may act. `do` blocks build
-- programs; the continuation of an effect takes its answer.
use oneshot.Prelude.{ℕ}
use oneshot.Atomic.{Ordering, AtomicOp}
use oneshot.Waker.{ReceiverWaker}

-- Effects that answer nothing.
pub data Action (T : Type 0) : Type 0 where
  fence : Ordering → Action T
  write_message : T → Action T
  drop_message : Action T
  write_waker : ReceiverWaker → Action T
  drop_waker : Action T
  dealloc : Action T
  park : Action T
  park_timeout : ℕ → Action T
  spin_loop : Action T
  unpark : ReceiverWaker → Action T

-- `unreachable` is the panic of `unreachable!()`. A loop runs on fuel: `out_of_fuel` stands for the
-- rounds that are left out, and is not an end of the program.
pub data Program (T R : Type 0) : Type 0 where
  ret : R → Program T R
  unreachable : Program T R
  out_of_fuel : Program T R
  atomic : AtomicOp → (ℕ → Program T R) → Program T R
  act : Action T → Program T R → Program T R
  take_message : (T → Program T R) → Program T R
  read_message : (T → Program T R) → Program T R
  take_waker : (ReceiverWaker → Program T R) → Program T R
  now : (ℕ → Program T R) → Program T R

module _ {T A B : Type 0} where
  infixl 5 ◌>>=◌ ◌>>◌
  abbrev pub ◌>>=◌ : Program T A → (A → Program T B) → Program T B
  ret a >>= f = f a
  unreachable >>= f = unreachable
  out_of_fuel >>= f = out_of_fuel
  atomic o k >>= f = atomic o (λ v. k v >>= f)
  act a p >>= f = act a (p >>= f)
  take_message k >>= f = take_message (λ m. k m >>= f)
  read_message k >>= f = read_message (λ m. k m >>= f)
  take_waker k >>= f = take_waker (λ w. k w >>= f)
  now k >>= f = now (λ t. k t >>= f)

  abbrev pub ◌>>◌ : Program T A → Program T B → Program T B
  p >> q = p >>= λ _. q
