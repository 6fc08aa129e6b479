-- ===== src/Promptness/Pace.antt =====
-- How the pace of the receiver changes with a step.
use oneshot.Prelude.{
  ℕ, zero, suc, ◌≡◌, ◌≤◌, inl, inr, refl, sym, subst, ◌∙◌, Bool, true, false, arith,
}
use oneshot.Memory.{Memory, Model}
use oneshot.Memory.HappensBefore.{receiver}
use oneshot.Machine.{step}
use oneshot.Program.{Program, act, park}
use oneshot.Protocol.Phases.{SenderPhase, ReceiverPhase}
use oneshot.Protocol.Agreement.{Agree}
use oneshot.Protocol.ReceiverRules.{Receives}
use oneshot.Machine.Effects.{pred}
use oneshot.Promptness.{is_final, IsDone, AnyEnd, Quick}
use oneshot.Promptness.Sequence.{Quick-mono, Prompt-Finals}
use oneshot.Promptness.Steps.{Goes, step-Goes, Quick-Next, Done-Quick, Goes-map, Shorter}
use oneshot.Promptness.Client.{Finals-Quick}
use oneshot.Promptness.Open.{
  is_open, IsEarly, open-Agree, closed-Agree, open-state, stays_closed, OpenPace, Prompt-Next,
}

module _ {T B : Type 0} (n : ℕ) where
  abbrev pub ClosedPace : ℕ → Program T B → Type 0
  ClosedPace s q = Quick AnyEnd n s q × (s ≤ 4)

  -- The receiver is prompt while the sender is open, then quick.
  abbrev pub Pace : Bool → ℕ → Program T B → Type 0
  Pace true s q = OpenPace n s q
  Pace false s q = ClosedPace s q

pred≤ : (n : ℕ) → pred n ≤ n
pred≤ zero = omega arith
pred≤ (suc n) = omega arith

true≢false : ¬ (true ≡ false)
true≢false e = cc

module _ {T B : Type 0} (m : T) (n : ℕ) where
  -- The sender's step: the receiver and its phase stay.
  closing-Pace :
      (σ σ' : SenderPhase) (ρ : ReceiverPhase) (mem mem' : Memory T) (q : Program T B)
      → is_open σ ≡ true
      → is_open σ' ≡ false
      → Agree m σ ρ mem
      → Agree m σ' ρ mem'
      → mem'.state ≤ 4
      → OpenPace n mem.state q
      → ClosedPace n mem'.state q
  closing-Pace σ σ' ρ mem mem' q e e' a a' small h = elim (open-Agree m mem σ ρ e a) [
    | inl (early, other) ↦ (
      Finals-Quick n mem'.state q (closed-Agree m mem' σ' ρ e' a' early)
          (Prompt-Finals AnyEnd IsDone n q h.0),
      small,
    )
    | inr (gone, byte) ↦ (Done-Quick n mem'.state q (h.1 byte), small)
  ]

  opening-Pace :
      (σ σ' : SenderPhase) (ρ : ReceiverPhase) (mem mem' : Memory T) (q : Program T B)
      → is_open σ ≡ true
      → is_open σ' ≡ true
      → Agree m σ ρ mem
      → Agree m σ' ρ mem'
      → OpenPace n mem.state q
      → OpenPace n mem'.state q
  opening-Pace σ σ' ρ mem mem' q e e' a a' h = (
    h.0,
    λ d. elim (open-Agree m mem' σ' ρ e' a') [
      | inl (early, other) ↦
          (let final = subst (λ s. is_final s ≡ false) d other in elim (true≢false final) [ ])
      | inr (gone, byte) ↦ elim (open-Agree m mem σ ρ e a) [
        | inl (early, other) ↦ elim (subst IsEarly gone early) [ ]
        | inr (gone', byte') ↦ h.1 byte'
      ]
    ],
  )

  pub sender-Pace :
      (b b' : Bool) (σ σ' : SenderPhase) (ρ : ReceiverPhase) (mem mem' : Memory T) (q : Program T B)
      → is_open σ ≡ b
      → is_open σ' ≡ b'
      → Agree m σ ρ mem
      → Agree m σ' ρ mem'
      → (b ≡ true → mem'.state ≤ 4)
      → (b ≡ false → mem'.state ≡ mem.state)
      → Pace n b mem.state q
      → Pace n b' mem'.state q
  sender-Pace true true σ σ' ρ mem mem' q e e' a a' small same h =
      opening-Pace σ σ' ρ mem mem' q e e' a a' h
  sender-Pace true false σ σ' ρ mem mem' q e e' a a' small same h =
      closing-Pace σ σ' ρ mem mem' q e e' a a' (small refl) h
  sender-Pace false false σ σ' ρ mem mem' q e e' a a' small same h =
      subst (λ s. ClosedPace n s q) (sym (same refl)) h
  sender-Pace false true σ σ' ρ mem mem' q e e' a a' small same h =
      elim (true≢false (sym e' ∙ stays_closed m mem mem' σ σ' ρ e a a' (same refl))) [ ]

  pub Pace-small :
      (b : Bool) (σ : SenderPhase) (ρ : ReceiverPhase) (mem : Memory T) (p : Program T B)
      → is_open σ ≡ b
      → Agree m σ ρ mem
      → Pace n b mem.state p
      → mem.state ≤ 4
  Pace-small true σ ρ mem p e a h = open-state m mem σ ρ e a
  Pace-small false σ ρ mem p e a h = h.1

module _ {T B : Type 0} (n : ℕ) where
  pub park-Pace : (b : Bool) (s : ℕ) (p : Program T B) → Pace n b s (act park p) → Pace n b s p
  park-Pace true s p h = (h.0.1, λ d. elim (h.1 d) [ ])
  park-Pace false s p h = (Quick-mono (pred n) n s p (pred≤ n) (park-Quick n h.0), h.1)
    where
      park-Quick : (n : ℕ) → Quick AnyEnd n s (act park p) → Quick AnyEnd (pred n) s p
      park-Quick zero h = elim h [ ]
      park-Quick (suc n) h = h

module _ {T B : Type 0} (model : Model) (m : T) (R : B → ReceiverPhase → Type 0) (n : ℕ) where
  pub receiver-Pace :
      (b : Bool) (σ : SenderPhase) (ρ : ReceiverPhase) (mem : Memory T) (p : Program T B)
      → is_open σ ≡ b
      → Agree m σ ρ mem
      → Receives model m R ρ p
      → Pace n b mem.state p
      → Goes (Pace n b) (step model receiver p mem)
  receiver-Pace true σ ρ mem p e a r h =
      step-Goes model receiver mem (OpenPace n) p (Prompt-Next model m R mem n σ ρ p e a r h)
  receiver-Pace false σ ρ mem p e a r h =
      Goes-map (Shorter n) (ClosedPace n)
        (λ s q (k, more, quick, small). (Quick-mono k n s q (omega arith) quick, small)) _
        (step-Goes model receiver mem (Shorter n) p (Quick-Next n mem.state p h.1 h.0))
