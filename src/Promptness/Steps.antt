-- ===== src/Promptness/Steps.antt =====
-- A step of a quick or prompt program, and what it makes of the byte.
use oneshot.Prelude.{
  ℕ, zero, suc, ◌≡◌, ◌≤◌, refl, sym, subst, Bool, true, false, if◌then◌else◌, arith,
}
use oneshot.Atomic.{AtomicOp, value_after}
use oneshot.Memory.{Memory, Model, Access, done, fault}
use oneshot.Memory
use oneshot.Memory.HappensBefore.{Side}
use oneshot.Program.{
  Program, Action, ret, unreachable, out_of_fuel, atomic, act, take_message, read_message,
  take_waker, now, fence, write_message, drop_message, write_waker, drop_waker, dealloc, park,
  park_timeout, spin_loop, unpark,
}
use oneshot.Waker.{ReceiverWaker, thread, task}
use oneshot.Promptness.{IsDone, AnyEnd, Quick}
use oneshot.Machine.{Outcome, running, blocked, resume, act_on, step}

module _ {T R : Type 0} (P : ℕ → Program T R → Type 0) where
  -- The next byte and the next program.
  abbrev pub Goes : Outcome T R → Type 0
  Goes (running mem p) = P mem.state p
  Goes _ = Unit

  -- It follows for every answer.
  abbrev pub Next : ℕ → Program T R → Type 0
  Next s (ret r) = Unit
  Next s unreachable = Unit
  Next s out_of_fuel = Unit
  Next s (atomic op k) = P (value_after op s) (k s)
  Next s (act a p) = P s p
  Next s (take_message k) = (m : T) → P s (k m)
  Next s (read_message k) = (m : T) → P s (k m)
  Next s (take_waker k) = (w : ReceiverWaker) → P s (k w)
  Next s (now k) = (t : ℕ) → P s (k t)

module _ {T : Type 0} (model : Model) (side : Side) (mem : Memory T) where
  -- An access to a cell leaves the byte alone.
  abbrev SameByte : {A : Type 0} → Access A T → Type 0
  SameByte (done a mem') = mem'.state ≡ mem.state
  SameByte (fault f) = Unit

  write_message-SameByte : (m : T) → SameByte (Memory.write_message model side m mem)
  write_message-SameByte m = ground arith

  take_message-SameByte : SameByte (Memory.take_message model side mem)
  take_message-SameByte = ground arith

  read_message-SameByte : SameByte (Memory.read_message model side mem)
  read_message-SameByte = ground arith

  free-SameByte : SameByte (Memory.free model side mem)
  free-SameByte = ground arith

  write_waker-SameByte : (w : ReceiverWaker) → SameByte (Memory.write_waker model side w mem)
  write_waker-SameByte w = ground arith

  take_waker-SameByte : SameByte (Memory.take_waker model side mem)
  take_waker-SameByte = ground arith

  module _ {R : Type 0} (P : ℕ → Program T R → Type 0) where
    resume-Goes :
        {A : Type 0} (x : Access A T) (k : A → Program T R)
        → SameByte x
        → ((a : A) → P mem.state (k a))
        → Goes P (resume x k)
    resume-Goes (done a mem') k same h = subst (λ s. P s (k a)) (sym same) (h a)
    resume-Goes (fault f) k same h = tt

    atomic-Goes :
        (op : AtomicOp) (k : ℕ → Program T R)
        → P (value_after op mem.state) (k mem.state)
        → Goes P (resume (Memory.atomic side op mem) k)
    atomic-Goes op k h = ground (arith, h)

    park-Goes :
        (token : Bool) (p : Program T R)
        → P mem.state p
        → Goes P (if token then running (record mem { token = false }) p else blocked)
    park-Goes true p h = h
    park-Goes false p h = tt

    unpark-Goes :
        (w : ReceiverWaker) (p : Program T R)
        → P mem.state p
        → Goes P (running (Memory.wake w mem) p)
    unpark-Goes thread p h = h
    unpark-Goes (task i) p h = h

    act-Goes : (a : Action T) (p : Program T R) → P mem.state p → Goes P (act_on model side a mem p)
    act-Goes (fence o) p h = h
    act-Goes (write_message m) p h = resume-Goes _ _ (write_message-SameByte m) (λ _. h)
    act-Goes drop_message p h = resume-Goes _ _ take_message-SameByte (λ _. h)
    act-Goes (write_waker w) p h = resume-Goes _ _ (write_waker-SameByte w) (λ _. h)
    act-Goes drop_waker p h = resume-Goes _ _ take_waker-SameByte (λ _. h)
    act-Goes dealloc p h = resume-Goes _ _ free-SameByte (λ _. h)
    act-Goes park p h = park-Goes mem.token p h
    act-Goes (park_timeout d) p h = h
    act-Goes spin_loop p h = h
    act-Goes (unpark w) p h = unpark-Goes w p h

    pub step-Goes : (p : Program T R) → Next P mem.state p → Goes P (step model side p mem)
    unfolding step
    step-Goes (ret r) h = tt
    step-Goes unreachable h = tt
    step-Goes out_of_fuel h = tt
    step-Goes (atomic op k) h = atomic-Goes op k h
    step-Goes (act a p) h = act-Goes a p h
    step-Goes (take_message k) h = resume-Goes _ k take_message-SameByte h
    step-Goes (read_message k) h = resume-Goes _ k read_message-SameByte h
    step-Goes (take_waker k) h = resume-Goes _ k take_waker-SameByte h
    step-Goes (now k) h = h mem.clock

module _ {T R : Type 0} where
  abbrev pub Shorter : ℕ → ℕ → Program T R → Type 0
  Shorter n s p = (k : ℕ) × (suc k ≡ n) × Quick AnyEnd k s p × (s ≤ 4)

  -- Of a quick program, one effect less is left.
  pub Quick-Next : (n s : ℕ) (p : Program T R) → s ≤ 4 → Quick AnyEnd n s p → Next (Shorter n) s p
  Quick-Next n s (ret r) l h = tt
  Quick-Next n s unreachable l h = tt
  Quick-Next n s out_of_fuel l h = tt
  Quick-Next (suc n) s (atomic op k) l h = (n, refl, h.1, h.0)
  Quick-Next (suc n) s (act a p) l h = (n, refl, h, l)
  Quick-Next (suc n) s (take_message k) l h = λ m. (n, refl, h m, l)
  Quick-Next (suc n) s (read_message k) l h = λ m. (n, refl, h m, l)
  Quick-Next (suc n) s (take_waker k) l h = λ w. (n, refl, h w, l)
  Quick-Next (suc n) s (now k) l h = λ t. (n, refl, h t, l)
  Quick-Next zero s (atomic op k) l h = elim h [ ]
  Quick-Next zero s (act a p) l h = elim h [ ]
  Quick-Next zero s (take_message k) l h = elim h [ ]
  Quick-Next zero s (read_message k) l h = elim h [ ]
  Quick-Next zero s (take_waker k) l h = elim h [ ]
  Quick-Next zero s (now k) l h = elim h [ ]

  pub Done-Next : (P : ℕ → Program T R → Type 0) (s : ℕ) (p : Program T R) → IsDone p → Next P s p
  Done-Next P s (ret r) h = tt
  Done-Next P s _ h = elim h [ ]

  pub Done-Quick : (n s : ℕ) (p : Program T R) → IsDone p → Quick AnyEnd n s p
  Done-Quick n s (ret r) h = tt
  Done-Quick n s _ h = elim h [ ]

  pub Goes-map :
      (P Q : ℕ → Program T R → Type 0) (f : (s : ℕ) (q : Program T R) → P s q → Q s q)
      (o : Outcome T R)
      → Goes P o
      → Goes Q o
  Goes-map P Q f (running mem p) h = f mem.state p h
  Goes-map P Q f _ h = tt
