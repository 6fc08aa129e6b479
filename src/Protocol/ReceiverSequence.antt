-- ===== src/Protocol/ReceiverSequence.antt =====
-- Programs of the receiver that keep to the rules, one after the other.
use oneshot.Prelude.{ℕ, Bool, true, false}
use oneshot.Atomic.{AtomicOp, load, store, swap, compare_exchange}
use oneshot.Memory.{Model, uninit, init}
use oneshot.Program.{
  Program, Action, ret, unreachable, out_of_fuel, atomic, act, take_message, now, ◌>>=◌, fence,
  drop_message, write_waker, drop_waker, dealloc, park, park_timeout, spin_loop, unpark,
}
use oneshot.Protocol.Phases.{ReceiverPhase, idle, armed, receiving, expired, got, over}
use oneshot.Protocol.ReceiverRules.{Unless, AtomicRule, ActRule, Receives}

Unless-mono : {P Q : Type 0} (b : Bool) → (P → Q) → Unless b P → Unless b Q
Unless-mono true f h = tt
Unless-mono false f h = f h

module _ {Φ Ψ : ℕ → ReceiverPhase → Type 0} (f : (v : ℕ) (ρ : ReceiverPhase) → Φ v ρ → Ψ v ρ) where
  AtomicRule-mono : (ρ : ReceiverPhase) (op : AtomicOp) → AtomicRule ρ op Φ → AtomicRule ρ op Ψ
  AtomicRule-mono idle (load o) h = (f _ _ h.0, (f _ _ h.1.0, f _ _ h.1.1))
  AtomicRule-mono idle (swap v o) h = (h.0, h.1, f _ _ h.2, (f _ _ h.3.0, f _ _ h.3.1))
  AtomicRule-mono (armed w) (swap v o) h = (h.0, h.1, f _ _ h.2, (f _ _ h.3.0, f _ _ h.3.1))
  AtomicRule-mono (armed w) (compare_exchange c n s e) h =
      (h.0, h.1, h.2, f _ _ h.3, (f _ _ h.4.0, f _ _ h.4.1))
  AtomicRule-mono (receiving w awake seen) (load o) h =
      (Unless-mono seen (f _ _) h.0, f _ _ h.1, (f _ _ h.2.0, f _ _ h.2.1))
  AtomicRule-mono (receiving w awake seen) (swap v o) h =
      (h.0, h.1, Unless-mono seen (f _ _) h.2, f _ _ h.3, (f _ _ h.4.0, f _ _ h.4.1))
  AtomicRule-mono (receiving w awake seen) (compare_exchange c n s e) h =
      (h.0, h.1, Unless-mono seen (f _ _) h.2, f _ _ h.3, (f _ _ h.4.0, f _ _ h.4.1))
  AtomicRule-mono (expired w awake) (load o) h = (f _ _ h.0, (f _ _ h.1.0, f _ _ h.1.1))
  AtomicRule-mono (got s waker y visible) (load o) h = f _ _ h
  AtomicRule-mono (got s waker y visible) (store v o) h = f _ _ h
  AtomicRule-mono (got s waker y visible) (swap v o) h = f _ _ h
  AtomicRule-mono (over b s waker y) (load o) h = f _ _ h
  AtomicRule-mono (over b s waker y) (store v o) h = f _ _ h
  AtomicRule-mono (over b s waker y) (swap v o) h = f _ _ h
  AtomicRule-mono _ _ h = elim h [ ]

module _ {T : Type 0} (model : Model) {Φ Ψ : ReceiverPhase → Type 0}
    (f : (ρ : ReceiverPhase) → Φ ρ → Ψ ρ) where
  ActRule-mono : (ρ : ReceiverPhase) (a : Action T) → ActRule model ρ a Φ → ActRule model ρ a Ψ
  ActRule-mono idle (write_waker w) h = f _ h
  ActRule-mono (armed w) drop_waker h = f _ h
  ActRule-mono (receiving w awake seen) park h = (h.0, h.1, f _ h.2)
  ActRule-mono (receiving w awake seen) (park_timeout d) h = f _ h
  ActRule-mono (expired w awake) park h = (h.0, h.1, f _ h.2)
  ActRule-mono (got s waker y visible) (fence o) h = (h.0, f _ h.1)
  ActRule-mono (got s (init w) y visible) drop_waker h = f _ h
  ActRule-mono (got s waker y visible) drop_message h = (h.0, f _ h.1)
  ActRule-mono (over b s waker y) (fence o) h = (h.0, f _ h.1)
  ActRule-mono (over b s (init w) y) drop_waker h = f _ h
  ActRule-mono (over b s uninit y) dealloc h = (h.0, f _ h.1)
  ActRule-mono (got s uninit y visible) spin_loop h = f _ h
  ActRule-mono (got s (init w) y visible) spin_loop h = f _ h
  ActRule-mono (over b s uninit y) spin_loop h = f _ h
  ActRule-mono (over b s (init w) y) spin_loop h = f _ h
  ActRule-mono _ spin_loop h = f _ h
  ActRule-mono (got s uninit y visible) (unpark v) h = f _ h
  ActRule-mono (got s (init w) y visible) (unpark v) h = f _ h
  ActRule-mono (over b s uninit y) (unpark v) h = f _ h
  ActRule-mono (over b s (init w) y) (unpark v) h = f _ h
  ActRule-mono _ (unpark v) h = f _ h
  ActRule-mono _ _ h = elim h [ ]

-- What the first program may end with is what the second may begin with.
module _ {T A B : Type 0} (model : Model) (m : T) (P : A → ReceiverPhase → Type 0)
    (Q : B → ReceiverPhase → Type 0) (k : A → Program T B)
    (next : (r : A) (ρ : ReceiverPhase) → P r ρ → Receives model m Q ρ (k r)) where
  pub Receives-bind :
      (ρ : ReceiverPhase) (p : Program T A)
      → Receives model m P ρ p
      → Receives model m Q ρ (p >>= k)
  Receives-bind ρ (ret r) h = next r ρ h
  Receives-bind ρ unreachable h = elim h [ ]
  Receives-bind ρ out_of_fuel h = tt
  Receives-bind ρ (atomic op c) h = AtomicRule-mono (λ v ρ'. Receives-bind ρ' (c v)) ρ op h
  Receives-bind ρ (act a p) h = ActRule-mono model (λ ρ'. Receives-bind ρ' p) ρ a h
  Receives-bind (got s waker y visible) (take_message c) h = (h.0, Receives-bind _ (c m) h.1)
  Receives-bind ρ (now c) h = λ t. Receives-bind ρ (c t) (h t)
  Receives-bind _ _ h = elim h [ ]
