-- ===== src/Soundness/SenderStep.antt =====
-- A step of the sending thread keeps the two phases and the memory in agreement.
use oneshot.Prelude.{ℕ, ◌≡◌, sym, subst, Bool, true, false, arith}
use oneshot.Atomic.{AtomicOp}
use oneshot.Memory.{Memory, Model, Access, done, init, uninit, after_atomic}
use oneshot.Memory.HappensBefore.{sender}
use oneshot.Memory
use oneshot.Machine.{Outcome, running, returned, resume, act_on, step}
use oneshot.Program.{
  Program, Action, ret, unreachable, out_of_fuel, atomic, act, take_message, read_message,
  take_waker, now, write_message, drop_message, dealloc, unpark,
}
use oneshot.Protocol.Phases.{
  SenderPhase, alive, claimed, holding, notifying, finished, owner, released, ReceiverPhase, idle,
  armed, receiving, expired, dropped,
}
use oneshot.Protocol.Agreement.{Agree}
use oneshot.Protocol.SenderRules.{AtomicRule, ActRule, Sends}
use oneshot.Soundness.Access.{
  atomic-done, write_message-done, take_message-done, read_message-done, take_waker-done, free-done,
}
use oneshot.Soundness.SenderAtomic.{atomic-Keeps}
use oneshot.Soundness.Waking.{unpark-Agree}
use oneshot.Waker.{ReceiverWaker}

module _ {T R : Type 0} (model : Model) (m : T) (Q : R → SenderPhase → Type 0) where
  -- The outcome of a step after which the protocol can go on.
  abbrev pub Keeps : ReceiverPhase → Outcome T R → Type 0
  Keeps ρ (running mem p) = (σ : SenderPhase) × Agree m σ ρ mem × Sends m Q σ p
  Keeps ρ (returned r) = Unit
  Keeps ρ _ = ⊥

  resume-Keeps :
      {A : Type 0} (ρ : ReceiverPhase) (k : A → Program T R) {a : A} {mem : Memory T}
      (access : Access A T)
      → access ≡ done a mem
      → (σ : SenderPhase) × Agree m σ ρ mem × Sends m Q σ (k a)
      → Keeps ρ (resume access k)
  resume-Keeps ρ k access e h = subst (λ x. Keeps ρ (resume x k)) (sym e) h

  module _ (mem : Memory T) where
    write_message-Keeps :
        (closed : Bool) (ρ : ReceiverPhase) (p : Program T R)
        → Agree m (alive false closed) ρ mem
        → Sends m Q (alive true closed) p
        → Keeps ρ (resume (Memory.write_message model sender m mem) (λ _. p))
    write_message-Keeps closed dropped p a h =
        resume-Keeps dropped _ _ (write_message-done model sender mem a.0.live m a.1 a.0.message_is)
          (alive true closed, ground arith, h)
    write_message-Keeps closed idle p a h =
        resume-Keeps idle _ _ (write_message-done model sender mem a.0.live m a.1 a.0.message_is)
          (alive true closed, ground arith, h)
    write_message-Keeps closed (armed w) p a h =
        resume-Keeps (armed w) _ _
          (write_message-done model sender mem a.0.live m a.1 a.0.message_is)
          (alive true closed, ground arith, h)
    write_message-Keeps closed (receiving w awake seen) p a h =
        resume-Keeps (receiving w awake seen) _ _
          (write_message-done model sender mem a.0.live m a.1 a.0.message_is)
          (alive true closed, ground arith, h)
    write_message-Keeps _ _ p a h = elim a [ ]

    take_waker-Keeps :
        (sent : Bool) (ρ : ReceiverPhase) (k : ReceiverWaker → Program T R)
        → Agree m (claimed sent) ρ mem
        → ((w : ReceiverWaker) → Sends m Q (holding sent w) (k w))
        → Keeps ρ (resume (Memory.take_waker model sender mem) k)
    take_waker-Keeps sent (receiving w awake seen) k a h =
        resume-Keeps (receiving w awake seen) k _
          (take_waker-done model sender mem a.0.live w a.1 a.0.waker_is)
          (holding sent w, ground arith, h w)
    take_waker-Keeps sent (expired w awake) k a h =
        resume-Keeps (expired w awake) k _
          (take_waker-done model sender mem a.0.live w a.1 a.0.waker_is)
          (holding sent w, ground arith, h w)
    take_waker-Keeps _ _ k a h = elim a [ ]

    -- An owner of the channel is alone with it.
    take-Keeps :
        (ρ : ReceiverPhase) (k : T → Program T R)
        → Agree m (owner true) ρ mem
        → Sends m Q (owner false) (k m)
        → Keeps ρ (resume (Memory.take_message model sender mem) k)
    take-Keeps dropped k a h =
        resume-Keeps dropped k _ (take_message-done model sender mem a.2 m a.4.message a.0)
          (owner false, ground arith, h)
    take-Keeps _ k a h = elim a [ ]

    read-Keeps :
        (ρ : ReceiverPhase) (k : T → Program T R)
        → Agree m (owner true) ρ mem
        → Sends m Q (owner true) (k m)
        → Keeps ρ (resume (Memory.read_message model sender mem) k)
    read-Keeps dropped k a h =
        resume-Keeps dropped k _ (read_message-done model sender mem a.2 m a.4.message a.0)
          (owner true, ground arith, h)
    read-Keeps _ k a h = elim a [ ]

    free-Keeps :
        (ρ : ReceiverPhase) (p : Program T R)
        → Agree m (owner false) ρ mem
        → Sends m Q released p
        → Keeps ρ (resume (Memory.free model sender mem) (λ _. p))
    free-Keeps dropped p a h =
        resume-Keeps dropped _ _ (free-done model sender mem a.2 (ground arith) a.0 a.1 a.3)
          (released, ground arith, h)
    free-Keeps _ p a h = elim a [ ]

    act-Keeps :
        (σ : SenderPhase) (ρ : ReceiverPhase) (e : Action T) (p : Program T R)
        → Agree m σ ρ mem
        → ActRule m σ e (λ σ'. Sends m Q σ' p)
        → Keeps ρ (act_on model sender e mem p)
    act-Keeps (alive false closed) ρ (write_message n) p a h =
        subst (λ x. Keeps ρ (resume (Memory.write_message model sender x mem) (λ _. p))) (sym h.0)
          (write_message-Keeps closed ρ p a h.1)
    act-Keeps (notifying sent v) ρ (unpark w) p a h =
        subst (λ x. Keeps ρ (running (Memory.wake x mem) p)) (sym h.0)
          (finished sent, unpark-Agree m sent v ρ mem a, h.1)
    act-Keeps (owner true) ρ drop_message p a h = take-Keeps ρ (λ _. p) a h
    act-Keeps (owner false) ρ dealloc p a h = free-Keeps ρ p a h
    act-Keeps _ ρ _ p a h = elim h [ ]

    atomic_step-Keeps :
        (σ : SenderPhase) (ρ : ReceiverPhase) (op : AtomicOp) (k : ℕ → Program T R)
        → Agree m σ ρ mem
        → AtomicRule σ op (λ v σ'. Sends m Q σ' (k v))
        → Keeps ρ (resume (Memory.atomic sender op mem) k)
    atomic_step-Keeps σ ρ op k a h =
        let (σ', live, a', h') = atomic-Keeps m (λ v σ'. Sends m Q σ' (k v)) mem σ ρ op a h in
        resume-Keeps ρ k _ (atomic-done sender op mem live) (σ', a', h')

    -- A program that keeps to the rules makes no faulty access, does not panic and never blocks.
    pub step-Keeps :
        (σ : SenderPhase) (ρ : ReceiverPhase) (p : Program T R)
        → Agree m σ ρ mem
        → Sends m Q σ p
        → Keeps ρ (step model sender p mem)
    unfolding step
    step-Keeps σ ρ (ret r) a h = tt
    step-Keeps σ ρ unreachable a h = elim h [ ]
    step-Keeps σ ρ out_of_fuel a h = elim h [ ]
    step-Keeps σ ρ (atomic op k) a h = atomic_step-Keeps σ ρ op k a h
    step-Keeps σ ρ (act e p) a h = act-Keeps σ ρ e p a h
    step-Keeps (owner true) ρ (take_message k) a h = take-Keeps ρ k a h
    step-Keeps (owner true) ρ (read_message k) a h = read-Keeps ρ k a h
    step-Keeps (claimed sent) ρ (take_waker k) a h = take_waker-Keeps sent ρ k a h
    step-Keeps σ ρ (now k) a h = (σ, a, h mem.clock)
    step-Keeps _ ρ _ a h = elim h [ ]
