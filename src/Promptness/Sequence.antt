-- ===== src/Promptness/Sequence.antt =====
-- Prompt programs one after the other.
use oneshot.Prelude.{ℕ, zero, suc, ◌≤◌, arith}
use oneshot.Atomic.{AtomicOp, load, store, swap, fetch_add, fetch_xor, compare_exchange}
use oneshot.Program.{
  Program, ret, unreachable, out_of_fuel, atomic, act, take_message, read_message, take_waker, now,
  ◌>>=◌,
}
use oneshot.Promptness.{AnyEnd, Quick, Finals, Leaving, Prompt}

module _ {T R : Type 0} where
  pub Quick-mono :
      (n n' s : ℕ) (p : Program T R) → n ≤ n' → Quick AnyEnd n s p → Quick AnyEnd n' s p
  Quick-mono n n' s (ret r) l h = tt
  Quick-mono n n' s unreachable l h = tt
  Quick-mono n n' s out_of_fuel l h = tt
  Quick-mono (suc n) (suc n') s (atomic op k) l h = (h.0, Quick-mono n n' _ (k s) (omega arith) h.1)
  Quick-mono (suc n) (suc n') s (act a p) l h = Quick-mono n n' s p (omega arith) h
  Quick-mono (suc n) (suc n') s (take_message k) l h =
      λ m. Quick-mono n n' s (k m) (omega arith) (h m)
  Quick-mono (suc n) (suc n') s (read_message k) l h =
      λ m. Quick-mono n n' s (k m) (omega arith) (h m)
  Quick-mono (suc n) (suc n') s (take_waker k) l h =
      λ w. Quick-mono n n' s (k w) (omega arith) (h w)
  Quick-mono (suc n) (suc n') s (now k) l h = λ t. Quick-mono n n' s (k t) (omega arith) (h t)
  Quick-mono (suc n) zero s p l h = omega arith
  Quick-mono zero n' s (atomic op k) l h = elim h [ ]
  Quick-mono zero n' s (act a p) l h = elim h [ ]
  Quick-mono zero n' s (take_message k) l h = elim h [ ]
  Quick-mono zero n' s (read_message k) l h = elim h [ ]
  Quick-mono zero n' s (take_waker k) l h = elim h [ ]
  Quick-mono zero n' s (now k) l h = elim h [ ]

  Finals-mono : (n n' : ℕ) (p : Program T R) → n ≤ n' → Finals AnyEnd n p → Finals AnyEnd n' p
  Finals-mono n n' p l h = (Quick-mono n n' _ p l h.0, Quick-mono n n' _ p l h.1)

  pub Prompt-Finals :
      (E : ℕ → ℕ → R → Type 0) (D : Program T R → Type 0) (n : ℕ) (p : Program T R)
      → Prompt E D n p
      → Finals E n p
  Prompt-Finals E D n (ret r) h = h
  Prompt-Finals E D n unreachable h = (tt, tt)
  Prompt-Finals E D n out_of_fuel h = (tt, tt)
  Prompt-Finals E D n (atomic op k) h = h.0
  Prompt-Finals E D n (act a p) h = h.0
  Prompt-Finals E D n (take_message k) h = h.0
  Prompt-Finals E D n (read_message k) h = h.0
  Prompt-Finals E D n (take_waker k) h = h.0
  Prompt-Finals E D n (now k) h = h.0

  pub Prompt-mono :
      (D : Program T R → Type 0) (n n' : ℕ) (p : Program T R)
      → n ≤ n'
      → Prompt AnyEnd D n p
      → Prompt AnyEnd D n' p
  Prompt-mono D n n' (ret r) l h = (tt, tt)
  Prompt-mono D n n' unreachable l h = tt
  Prompt-mono D n n' out_of_fuel l h = tt
  Prompt-mono D n n' (atomic op k) l h =
      (Finals-mono n n' (atomic op k) l h.0, h.1, λ v. Prompt-mono D n n' (k v) l (h.2 v))
  Prompt-mono D n n' (act a p) l h = (Finals-mono n n' (act a p) l h.0, Prompt-mono D n n' p l h.1)
  Prompt-mono D n n' (take_message k) l h =
      (Finals-mono n n' (take_message k) l h.0, λ m. Prompt-mono D n n' (k m) l (h.1 m))
  Prompt-mono D n n' (read_message k) l h =
      (Finals-mono n n' (read_message k) l h.0, λ m. Prompt-mono D n n' (k m) l (h.1 m))
  Prompt-mono D n n' (take_waker k) l h =
      (Finals-mono n n' (take_waker k) l h.0, λ w. Prompt-mono D n n' (k w) l (h.1 w))
  Prompt-mono D n n' (now k) l h =
      (Finals-mono n n' (now k) l h.0, λ t. Prompt-mono D n n' (k t) l (h.1 t))

module _ {T A B : Type 0} (E : ℕ → ℕ → A → Type 0) (E' : ℕ → ℕ → B → Type 0) (k : A → Program T B)
    (next : (n s : ℕ) (r : A) → E n s r → Quick E' n s (k r)) where
  Quick-bind : (n s : ℕ) (p : Program T A) → Quick E n s p → Quick E' n s (p >>= k)
  Quick-bind n s (ret r) h = next n s r h
  Quick-bind n s unreachable h = tt
  Quick-bind n s out_of_fuel h = tt
  Quick-bind (suc n) s (atomic op c) h = (h.0, Quick-bind n _ (c s) h.1)
  Quick-bind (suc n) s (act a p) h = Quick-bind n s p h
  Quick-bind (suc n) s (take_message c) h = λ m. Quick-bind n s (c m) (h m)
  Quick-bind (suc n) s (read_message c) h = λ m. Quick-bind n s (c m) (h m)
  Quick-bind (suc n) s (take_waker c) h = λ w. Quick-bind n s (c w) (h w)
  Quick-bind (suc n) s (now c) h = λ t. Quick-bind n s (c t) (h t)
  Quick-bind zero s (atomic op c) h = elim h [ ]
  Quick-bind zero s (act a p) h = elim h [ ]
  Quick-bind zero s (take_message c) h = elim h [ ]
  Quick-bind zero s (read_message c) h = elim h [ ]
  Quick-bind zero s (take_waker c) h = elim h [ ]
  Quick-bind zero s (now c) h = elim h [ ]

  Finals-bind : (n : ℕ) (p : Program T A) → Finals E n p → Finals E' n (p >>= k)
  Finals-bind n p h = (Quick-bind n _ p h.0, Quick-bind n _ p h.1)

  module _ (D : Program T A → Type 0) (D' : Program T B → Type 0)
      (last : (p : Program T A) → D p → D' (p >>= k)) where
    Leaving-bind :
        (op : AtomicOp) (c : ℕ → Program T A) → Leaving E D op c → Leaving E' D' op (λ v. c v >>= k)
    Leaving-bind (load o) c h = tt
    Leaving-bind (store v o) c h = tt
    Leaving-bind (swap v o) c h = λ e. last _ (h e)
    Leaving-bind (fetch_add v o) c h = elim h [ ]
    Leaving-bind (fetch_xor v o) c h = elim h [ ]
    Leaving-bind (compare_exchange e v s f) c h = h

    pub Prompt-bind :
        (n : ℕ) (p : Program T A)
        → ((r : A) → Prompt E' D' n (k r))
        → Prompt E D n p
        → Prompt E' D' n (p >>= k)
    Prompt-bind n (ret r) g h = g r
    Prompt-bind n unreachable g h = tt
    Prompt-bind n out_of_fuel g h = tt
    Prompt-bind n (atomic op c) g h =
        (Finals-bind n (atomic op c) h.0, Leaving-bind op c h.1, λ v. Prompt-bind n (c v) g (h.2 v))
    Prompt-bind n (act a p) g h = (Finals-bind n (act a p) h.0, Prompt-bind n p g h.1)
    Prompt-bind n (take_message c) g h =
        (Finals-bind n (take_message c) h.0, λ m. Prompt-bind n (c m) g (h.1 m))
    Prompt-bind n (read_message c) g h =
        (Finals-bind n (read_message c) h.0, λ m. Prompt-bind n (c m) g (h.1 m))
    Prompt-bind n (take_waker c) g h =
        (Finals-bind n (take_waker c) h.0, λ w. Prompt-bind n (c w) g (h.1 w))
    Prompt-bind n (now c) g h = (Finals-bind n (now c) h.0, λ t. Prompt-bind n (c t) g (h.1 t))
