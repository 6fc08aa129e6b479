-- ===== src/Soundness/ReceiverStep.antt =====
-- A step of the receiving thread keeps the two phases and the memory in agreement.
pub use oneshot.Soundness.ReceiverAccess.{Keeps}
use oneshot.Prelude.{ℕ, subst, true}
use oneshot.Atomic.{AtomicOp}
use oneshot.Memory.{Memory, Model, interleaving, is_racy, Slot, Access, done, init, uninit}
use oneshot.Memory.HappensBefore.{receiver}
use oneshot.Memory
use oneshot.Machine.{resume, act_on, step}
use oneshot.Program.{
  Program, Action, ret, unreachable, out_of_fuel, atomic, act, take_message, now, fence,
  drop_message, write_waker, drop_waker, dealloc, park, park_timeout, spin_loop, unpark,
}
use oneshot.Protocol.Phases.{SenderPhase, ReceiverPhase, idle, armed, receiving, expired, got, over}
use oneshot.Protocol.Agreement.{Agree}
use oneshot.Protocol.ReceiverRules.{AtomicRule, ActRule, Receives}
use oneshot.Soundness.Access.{atomic-done}
use oneshot.Soundness.Through.{got-Through, over-Through}
use oneshot.Soundness.Cells
use oneshot.Soundness.ReceiverAtomic.{atomic-Keeps}
use oneshot.Soundness.ReceiverAccess.{
  resume-Keeps, ActRule-spin_loop, ActRule-unpark, write_waker-Keeps, drop_waker-Keeps,
  got-drop_waker, over-drop_waker, take-Keeps, fence-got, fence-over, free-Keeps, park-Keeps,
  unpark-Keeps, receiving-blocked, expired-blocked,
}

module _ {T R : Type 0} (model : Model) (m : T) (Q : R → ReceiverPhase → Type 0) (mem : Memory T)
    (σ : SenderPhase) where
  act-Keeps :
      (ρ : ReceiverPhase) (e : Action T) (p : Program T R)
      → Agree m σ ρ mem
      → ActRule model ρ e (λ ρ'. Receives model m Q ρ' p)
      → Keeps model m Q σ (act_on model receiver e mem p)
  act-Keeps idle (write_waker w) p a h = write_waker-Keeps model m Q mem σ w p a h
  act-Keeps (armed w) drop_waker p a h = drop_waker-Keeps model m Q mem σ w p a h
  act-Keeps (receiving w awake seen) park p a h =
      let a' = subst (λ b. Agree m σ (receiving w b seen) mem) h.1 a in
      park-Keeps model m Q mem σ (receiving w true seen) p mem.token
        (λ _. Cells.receiving-consume m mem σ w awake seen a)
        (receiving-blocked model m Q mem σ w seen a' h.0) h.2
  act-Keeps (receiving w awake seen) (park_timeout d) p a h =
      (receiving w true seen, Cells.receiving-consume m mem σ w awake seen a, h)
  act-Keeps (expired w awake) park p a h =
      let a' = subst (λ b. Agree m σ (expired w b) mem) h.1 a in
      park-Keeps model m Q mem σ (expired w true) p mem.token
        (λ _. Cells.expired-consume m mem σ w awake a) (expired-blocked model m Q mem σ w a' h.0)
        h.2
  act-Keeps (got s waker y visible) (fence o) p a h =
      fence-got model m Q mem σ s waker y visible o p (got-Through m σ s waker y visible mem a) h.0
        h.1
  act-Keeps (got s (init w) y visible) drop_waker p a h =
      got-drop_waker model m Q mem σ s w y visible p (got-Through m σ s (init w) y visible mem a) h
  act-Keeps (got s waker y visible) drop_message p a h =
      take-Keeps model m Q mem σ s waker y visible (λ _. p)
        (got-Through m σ s waker y visible mem a) h.0 h.1
  act-Keeps (over b s waker y) (fence o) p a h =
      fence-over model m Q mem σ b s waker y o p (over-Through m σ b s waker y mem a) h.0 h.1
  act-Keeps (over b s (init w) y) drop_waker p a h =
      over-drop_waker model m Q mem σ b s w y p (over-Through m σ b s (init w) y mem a) h
  act-Keeps (over b s uninit y) dealloc p a h =
      free-Keeps model m Q mem σ b s y p (over-Through m σ b s uninit y mem a) h.0 h.1
  act-Keeps ρ spin_loop p a h =
      (ρ, a, ActRule-spin_loop T model (λ ρ'. Receives model m Q ρ' p) ρ h)
  act-Keeps ρ (unpark w) p a h =
      unpark-Keeps model m Q mem σ ρ w p a
        (ActRule-unpark T model (λ ρ'. Receives model m Q ρ' p) ρ w h)
  act-Keeps _ _ p a h = elim h [ ]

  atomic_step-Keeps :
      (ρ : ReceiverPhase) (op : AtomicOp) (k : ℕ → Program T R)
      → Agree m σ ρ mem
      → AtomicRule ρ op (λ v ρ'. Receives model m Q ρ' (k v))
      → Keeps model m Q σ (resume (Memory.atomic receiver op mem) k)
  atomic_step-Keeps ρ op k a h =
      let (ρ', live, a', h') =
        atomic-Keeps m (λ v ρ'. Receives model m Q ρ' (k v)) mem σ ρ op a h in
      resume-Keeps model m Q σ k _ (atomic-done receiver op mem live) (ρ', a', h')

  -- A program that keeps to the rules makes no faulty access and does not panic, and it blocks only
  -- while the sender has something left to do.
  pub step-Keeps :
      (ρ : ReceiverPhase) (p : Program T R)
      → Agree m σ ρ mem
      → Receives model m Q ρ p
      → Keeps model m Q σ (step model receiver p mem)
  unfolding step
  step-Keeps ρ (ret r) a h = tt
  step-Keeps ρ unreachable a h = elim h [ ]
  step-Keeps ρ out_of_fuel a h = tt
  step-Keeps ρ (atomic op k) a h = atomic_step-Keeps ρ op k a h
  step-Keeps ρ (act e p) a h = act-Keeps ρ e p a h
  step-Keeps (got s waker y visible) (take_message k) a h =
      take-Keeps model m Q mem σ s waker y visible k (got-Through m σ s waker y visible mem a) h.0
        h.1
  step-Keeps ρ (now k) a h = (ρ, a, h mem.clock)
  step-Keeps _ _ a h = elim h [ ]
