-- ===== src/Protocol/SenderSequence.antt =====
-- Programs of the sender that keep to the rules, one after the other.
use oneshot.Prelude.{ℕ, true, false}
use oneshot.Atomic.{AtomicOp, load, swap, fetch_add, fetch_xor}
use oneshot.Program.{
  Program, Action, ret, unreachable, out_of_fuel, atomic, act, take_message, read_message,
  take_waker, now, ◌>>=◌, write_message, drop_message, dealloc, unpark,
}
use oneshot.Protocol.Phases.{SenderPhase, alive, claimed, holding, notifying, owner}
use oneshot.Protocol.SenderRules.{AtomicRule, ActRule, Sends}

module _ {Φ Ψ : ℕ → SenderPhase → Type 0} (f : (v : ℕ) (σ : SenderPhase) → Φ v σ → Ψ v σ) where
  AtomicRule-mono : (σ : SenderPhase) (op : AtomicOp) → AtomicRule σ op Φ → AtomicRule σ op Ψ
  AtomicRule-mono (alive written true) (load o) h = f _ _ h
  AtomicRule-mono (alive written false) (load o) h = (f _ _ h.0, f _ _ h.1, f _ _ h.2)
  AtomicRule-mono (alive true true) (fetch_add v o) h = (h.0, h.1, f _ _ h.2)
  AtomicRule-mono (alive true false) (fetch_add v o) h =
      (h.0, h.1, (f _ _ h.2.0, f _ _ h.2.1, f _ _ h.2.2))
  AtomicRule-mono (alive false true) (fetch_xor v o) h = (h.0, h.1, f _ _ h.2)
  AtomicRule-mono (alive false false) (fetch_xor v o) h =
      (h.0, h.1, (f _ _ h.2.0, f _ _ h.2.1, f _ _ h.2.2))
  AtomicRule-mono (holding sent w) (swap v o) h = (h.0, h.1, λ found. f _ _ (h.2 found))
  AtomicRule-mono _ _ h = elim h [ ]

module _ {T : Type 0} (m : T) {Φ Ψ : SenderPhase → Type 0} (f : (σ : SenderPhase) → Φ σ → Ψ σ) where
  ActRule-mono : (σ : SenderPhase) (a : Action T) → ActRule m σ a Φ → ActRule m σ a Ψ
  ActRule-mono (alive false closed) (write_message n) h = (h.0, f _ h.1)
  ActRule-mono (notifying sent v) (unpark w) h = (h.0, f _ h.1)
  ActRule-mono (owner true) drop_message h = f _ h
  ActRule-mono (owner false) dealloc h = f _ h
  ActRule-mono _ _ h = elim h [ ]

module _ {T A B : Type 0} (m : T) (P : A → SenderPhase → Type 0) (Q : B → SenderPhase → Type 0)
    (k : A → Program T B) (next : (r : A) (σ : SenderPhase) → P r σ → Sends m Q σ (k r)) where
  pub Sends-bind : (σ : SenderPhase) (p : Program T A) → Sends m P σ p → Sends m Q σ (p >>= k)
  Sends-bind σ (ret r) h = next r σ h
  Sends-bind σ unreachable h = elim h [ ]
  Sends-bind σ out_of_fuel h = elim h [ ]
  Sends-bind σ (atomic op c) h = AtomicRule-mono (λ v σ'. Sends-bind σ' (c v)) σ op h
  Sends-bind σ (act a p) h = ActRule-mono m (λ σ'. Sends-bind σ' p) σ a h
  Sends-bind (owner true) (take_message c) h = Sends-bind (owner false) (c m) h
  Sends-bind (owner true) (read_message c) h = Sends-bind (owner true) (c m) h
  Sends-bind (claimed sent) (take_waker c) h = λ w. Sends-bind (holding sent w) (c w) (h w)
  Sends-bind σ (now c) h = λ t. Sends-bind σ (c t) (h t)
  Sends-bind _ _ h = elim h [ ]
