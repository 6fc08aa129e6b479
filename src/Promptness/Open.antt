-- ===== src/Promptness/Open.antt =====
-- While the sender has its last atomic operation before it, and when it has made it.
use oneshot.Prelude.{
  ℕ, ◌≡◌, ◌≢◌, ◌⊎◌, ◌≤◌, inl, inr, refl, sym, subst, Bool, true, false, Bool-cases, arith,
}
use oneshot.Atomic.{
  Ordering, AtomicOp, load, store, swap, fetch_add, fetch_xor, compare_exchange, value_after,
}
use oneshot.Memory.{Memory, Model}
use oneshot.Program.{
  Program, ret, unreachable, out_of_fuel, atomic, act, take_message, read_message, take_waker, now,
}
use oneshot.Protocol.Phases.{
  SenderPhase, alive, claimed, holding, notifying, finished, owner, released, ReceiverPhase, idle,
  armed, receiving, expired, dropped,
}
use oneshot.Protocol.Agreement.{Agree}
use oneshot.Protocol.SenderRules
use oneshot.Protocol.SenderRules.{Sends}
use oneshot.Protocol.ReceiverRules
use oneshot.Protocol.ReceiverRules.{Receives}
use oneshot.Promptness.{is_final, IsDone, AnyEnd, Leaving, Prompt}
use oneshot.Promptness.Steps.{Next}
use oneshot.States

-- The sender has an atomic operation to make that is not a load.
abbrev pub is_open : SenderPhase → Bool
is_open (alive written closed) = true
is_open (claimed sent) = true
is_open (holding sent w) = true
is_open _ = false

abbrev pub IsEarly : ReceiverPhase → Type 0
IsEarly idle = Unit
IsEarly (armed w) = Unit
IsEarly (receiving w awake seen) = Unit
IsEarly (expired w awake) = Unit
IsEarly _ = ⊥

module _ {T : Type 0} (m : T) (mem : Memory T) where
  -- The receiver has not found the sender through, or was dropped.
  pub open-Agree :
      (σ : SenderPhase) (ρ : ReceiverPhase)
      → is_open σ ≡ true
      → Agree m σ ρ mem
      → (IsEarly ρ × (is_final mem.state ≡ false))
        ⊎ ((ρ ≡ dropped) × (mem.state ≡ States.disconnected))
  open-Agree (alive written closed) ρ e a = ground arith
  open-Agree (claimed sent) ρ e a = ground arith
  open-Agree (holding sent v) ρ e a = ground arith
  open-Agree _ ρ e a = ground arith

  pub closed-Agree :
      (σ : SenderPhase) (ρ : ReceiverPhase)
      → is_open σ ≡ false
      → Agree m σ ρ mem
      → IsEarly ρ
      → is_final mem.state ≡ true
  closed-Agree (notifying sent v) ρ e a h = ground arith
  closed-Agree (finished sent) ρ e a h = ground arith
  closed-Agree (owner full) ρ e a h = ground arith
  closed-Agree released ρ e a h = ground arith
  closed-Agree _ ρ e a h = ground arith

  pub open-state :
      (σ : SenderPhase) (ρ : ReceiverPhase) → is_open σ ≡ true → Agree m σ ρ mem → mem.state ≤ 4
  open-state (alive written closed) ρ e a = ground arith
  open-state (claimed sent) ρ e a = ground arith
  open-state (holding sent v) ρ e a = ground arith
  open-state _ ρ e a = ground arith

  -- The sender's operation leaves one of the five states.
  open_atomic-state :
      (σ : SenderPhase) (ρ : ReceiverPhase) (op : AtomicOp) (Φ : ℕ → SenderPhase → Type 0)
      → Agree m σ ρ mem
      → SenderRules.AtomicRule σ op Φ
      → value_after op mem.state ≤ 4
  open_atomic-state (alive written closed) ρ (load o) Φ a h =
      open-state (alive written closed) ρ refl a
  open_atomic-state (alive true closed) ρ (fetch_add v o) Φ a h = ground arith
  open_atomic-state (alive false closed) ρ (fetch_xor v o) Φ a h = ground arith
  open_atomic-state (holding sent w) ρ (swap v o) Φ a h = ground arith
  open_atomic-state _ _ _ Φ a h = ground arith

  -- Only an open sender has an operation to make.
  closed_atomic :
      (σ : SenderPhase) (op : AtomicOp) (Φ : ℕ → SenderPhase → Type 0)
      → SenderRules.AtomicRule σ op Φ
      → is_open σ ≡ true
  closed_atomic (alive written closed) op Φ h = refl
  closed_atomic (claimed sent) op Φ h = refl
  closed_atomic (holding sent w) op Φ h = refl
  closed_atomic _ _ Φ h = elim h [ ]

  closed-dropped :
      (σ : SenderPhase) → is_open σ ≡ false → Agree m σ dropped mem → mem.state ≡ States.empty
  closed-dropped (owner full) e a = ground arith
  closed-dropped released e a = a.1
  closed-dropped (notifying sent v) e a = ground arith
  closed-dropped (finished sent) e a = ground arith
  closed-dropped _ e a = ground arith

module _ {T : Type 0} (m : T) (mem mem' : Memory T) where
  -- A sender that leaves the byte alone does not become open again.
  pub stays_closed :
      (σ σ' : SenderPhase) (ρ : ReceiverPhase)
      → is_open σ ≡ false
      → Agree m σ ρ mem
      → Agree m σ' ρ mem'
      → mem'.state ≡ mem.state
      → is_open σ' ≡ false
  stays_closed σ σ' ρ e a a' same = elim (Bool-cases (is_open σ')) [
    | inr e' ↦ e'
    | inl e' ↦ elim (open-Agree m mem' σ' ρ e' a') [
      | inl (early, nonfinal) ↦ clash early nonfinal
      | inr (gone, byte) ↦ clash_dropped gone byte
    ]
  ]
    where
      clash : IsEarly ρ → is_final mem'.state ≡ false → is_open σ' ≡ false
      clash early nonfinal =
          let final = closed-Agree m mem σ ρ e a early in
          let final' = subst (λ s. is_final s ≡ true) (sym same) final in cc

      clash_dropped : ρ ≡ dropped → mem'.state ≡ States.disconnected → is_open σ' ≡ false
      clash_dropped gone byte =
          let byte' = closed-dropped m mem σ e (subst (λ x. Agree m σ x mem) gone a) in
          let clash : ⊥ = omega arith in elim clash [ ]

module _ {T R : Type 0} (m : T) (Q : R → SenderPhase → Type 0) (mem : Memory T) where
  -- What the sender's step makes of the byte.
  pub open-Next :
      (σ : SenderPhase) (ρ : ReceiverPhase) (p : Program T R)
      → is_open σ ≡ true
      → Agree m σ ρ mem
      → Sends m Q σ p
      → Next (λ s q. s ≤ 4) mem.state p
  open-Next σ ρ (ret r) e a h = tt
  open-Next σ ρ unreachable e a h = tt
  open-Next σ ρ out_of_fuel e a h = tt
  open-Next σ ρ (atomic op k) e a h = open_atomic-state m mem σ ρ op _ a h
  open-Next σ ρ (act c p) e a h = open-state m mem σ ρ e a
  open-Next σ ρ (take_message k) e a h = λ n. open-state m mem σ ρ e a
  open-Next σ ρ (read_message k) e a h = λ n. open-state m mem σ ρ e a
  open-Next σ ρ (take_waker k) e a h = λ w. open-state m mem σ ρ e a
  open-Next σ ρ (now k) e a h = λ t. open-state m mem σ ρ e a

  pub closed-Next :
      (σ : SenderPhase) (p : Program T R)
      → is_open σ ≡ false
      → Sends m Q σ p
      → Next (λ s q. s ≡ mem.state) mem.state p
  closed-Next σ (ret r) e h = tt
  closed-Next σ unreachable e h = tt
  closed-Next σ out_of_fuel e h = tt
  closed-Next σ (atomic op k) e h = let e' = closed_atomic m mem σ op _ h in cc
  closed-Next σ (act c p) e h = refl
  closed-Next σ (take_message k) e h = λ n. refl
  closed-Next σ (read_message k) e h = λ n. refl
  closed-Next σ (take_waker k) e h = λ w. refl
  closed-Next σ (now k) e h = λ t. refl

module _ {T R : Type 0} where
  -- A prompt program, and the end of it when the byte says that the receiver is gone.
  abbrev pub OpenPace : ℕ → ℕ → Program T R → Type 0
  OpenPace n s p = Prompt AnyEnd IsDone n p × (s ≡ States.disconnected → IsDone p)

-- A receiver that faces an open sender.
module _ {T R : Type 0} (model : Model) (m : T) (Q : R → ReceiverPhase → Type 0)
    (mem : Memory T) where
  -- A swap of `DISCONNECTED` finds the channel empty, and nothing is stored.
  swap-found :
      (σ : SenderPhase) (ρ : ReceiverPhase) (v : ℕ) (o : Ordering) (Φ : ℕ → ReceiverPhase → Type 0)
      → is_open σ ≡ true
      → Agree m σ ρ mem
      → ReceiverRules.AtomicRule ρ (swap v o) Φ
      → v ≡ States.disconnected
      → mem.state ≡ States.empty
  swap-found (alive written closed) ρ v o Φ e a h d = ground arith
  swap-found (claimed sent) ρ v o Φ e a h d = ground arith
  swap-found (holding sent w) ρ v o Φ e a h d = ground arith
  swap-found _ ρ v o Φ e a h d = ground arith

  open_atomic-Next :
      (σ : SenderPhase) (ρ : ReceiverPhase) (op : AtomicOp) (k : ℕ → Program T R)
      (Φ : ℕ → ReceiverPhase → Type 0)
      → is_open σ ≡ true
      → Agree m σ ρ mem
      → ReceiverRules.AtomicRule ρ op Φ
      → Leaving AnyEnd IsDone op k
      → mem.state ≢ States.disconnected
      → value_after op mem.state ≡ States.disconnected
      → IsDone (k mem.state)
  open_atomic-Next σ ρ (load o) k Φ e a r h other d = elim (other d) [ ]
  open_atomic-Next σ ρ (store v o) k Φ e a r h other d = ground arith
  open_atomic-Next σ ρ (swap v o) k Φ e a r h other d =
      subst (λ x. IsDone (k x)) (sym (swap-found σ ρ v o Φ e a r d)) (h d)
  open_atomic-Next σ ρ (fetch_add v o) k Φ e a r h other d = elim h [ ]
  open_atomic-Next σ ρ (fetch_xor v o) k Φ e a r h other d = elim h [ ]
  open_atomic-Next σ ρ (compare_exchange c v s f) k Φ e a r h other d = ground arith

  pub Prompt-Next :
      (n : ℕ) (σ : SenderPhase) (ρ : ReceiverPhase) (p : Program T R)
      → is_open σ ≡ true
      → Agree m σ ρ mem
      → Receives model m Q ρ p
      → OpenPace n mem.state p
      → Next (OpenPace n) mem.state p
  Prompt-Next n σ ρ (ret r) e a r' h = tt
  Prompt-Next n σ ρ unreachable e a r' h = tt
  Prompt-Next n σ ρ out_of_fuel e a r' h = tt
  Prompt-Next n σ ρ (atomic op k) e a r' h =
      (h.0.2 mem.state, open_atomic-Next σ ρ op k _ e a r' h.0.1 h.1)
  Prompt-Next n σ ρ (act c p) e a r' h = (h.0.1, λ d. elim (h.1 d) [ ])
  Prompt-Next n σ ρ (take_message k) e a r' h = λ x. (h.0.1 x, λ d. elim (h.1 d) [ ])
  Prompt-Next n σ ρ (read_message k) e a r' h = λ x. (h.0.1 x, λ d. elim (h.1 d) [ ])
  Prompt-Next n σ ρ (take_waker k) e a r' h = λ x. (h.0.1 x, λ d. elim (h.1 d) [ ])
  Prompt-Next n σ ρ (now k) e a r' h = λ x. (h.0.1 x, λ d. elim (h.1 d) [ ])
