-- ===== src/Machine/Effects.antt =====
-- How many effects a program has.
use oneshot.Prelude.{ℕ, zero, suc, ◌≡◌, ◌≤◌, arith, refl, ap, Bool, true, false, if◌then◌else◌}
use oneshot.Memory.{Memory, Model, Access, done, fault}
use oneshot.Memory
use oneshot.Memory.HappensBefore.{Side}
use oneshot.Program.{
  Program, Action, ret, unreachable, out_of_fuel, atomic, act, take_message, read_message,
  take_waker, now, fence, write_message, drop_message, write_waker, drop_waker, dealloc, park,
  park_timeout, spin_loop, unpark,
}
use oneshot.Waker.{ReceiverWaker}
use oneshot.Machine.{Outcome, running, blocked, resume, act_on, step}

abbrev pub pred : ℕ → ℕ
pred zero = zero
pred (suc n) = n

module _ {T R : Type 0} where
  -- The program has at most so many effects, whatever they answer.
  abbrev pub Within : ℕ → Program T R → Type 0
  Within n (ret r) = Unit
  Within n unreachable = Unit
  Within n out_of_fuel = Unit
  Within zero _ = ⊥
  Within (suc n) (atomic op k) = (v : ℕ) → Within n (k v)
  Within (suc n) (act a p) = Within n p
  Within (suc n) (take_message k) = (m : T) → Within n (k m)
  Within (suc n) (read_message k) = (m : T) → Within n (k m)
  Within (suc n) (take_waker k) = (w : ReceiverWaker) → Within n (k w)
  Within (suc n) (now k) = (t : ℕ) → Within n (k t)

  pub Within-mono : (n n' : ℕ) (p : Program T R) → n ≤ n' → Within n p → Within n' p
  Within-mono n n' (ret r) l h = tt
  Within-mono n n' unreachable l h = tt
  Within-mono n n' out_of_fuel l h = tt
  Within-mono (suc n) (suc n') (atomic op k) l h = λ v. Within-mono n n' (k v) (omega arith) (h v)
  Within-mono (suc n) (suc n') (act a p) l h = Within-mono n n' p (omega arith) h
  Within-mono (suc n) (suc n') (take_message k) l h =
      λ m. Within-mono n n' (k m) (omega arith) (h m)
  Within-mono (suc n) (suc n') (read_message k) l h =
      λ m. Within-mono n n' (k m) (omega arith) (h m)
  Within-mono (suc n) (suc n') (take_waker k) l h = λ w. Within-mono n n' (k w) (omega arith) (h w)
  Within-mono (suc n) (suc n') (now k) l h = λ t. Within-mono n n' (k t) (omega arith) (h t)
  Within-mono (suc n) zero p l h = omega arith
  Within-mono zero n' (atomic op k) l h = elim h [ ]
  Within-mono zero n' (act a p) l h = elim h [ ]
  Within-mono zero n' (take_message k) l h = elim h [ ]
  Within-mono zero n' (read_message k) l h = elim h [ ]
  Within-mono zero n' (take_waker k) l h = elim h [ ]
  Within-mono zero n' (now k) l h = elim h [ ]

  -- The program does not run out of fuel before so many effects.
  abbrev pub Lasts : ℕ → Program T R → Type 0
  Lasts n (ret r) = Unit
  Lasts n unreachable = Unit
  Lasts n out_of_fuel = n ≡ 0
  Lasts n (atomic op k) = (v : ℕ) → Lasts (pred n) (k v)
  Lasts n (act a p) = Lasts (pred n) p
  Lasts n (take_message k) = (m : T) → Lasts (pred n) (k m)
  Lasts n (read_message k) = (m : T) → Lasts (pred n) (k m)
  Lasts n (take_waker k) = (w : ReceiverWaker) → Lasts (pred n) (k w)
  Lasts n (now k) = (t : ℕ) → Lasts (pred n) (k t)

  pub Lasts-pred : (n : ℕ) (p : Program T R) → Lasts n p → Lasts (pred n) p
  Lasts-pred n (ret r) h = tt
  Lasts-pred n unreachable h = tt
  Lasts-pred n out_of_fuel h = ap pred h
  Lasts-pred n (atomic op k) h = λ v. Lasts-pred (pred n) (k v) (h v)
  Lasts-pred n (act a p) h = Lasts-pred (pred n) p h
  Lasts-pred n (take_message k) h = λ m. Lasts-pred (pred n) (k m) (h m)
  Lasts-pred n (read_message k) h = λ m. Lasts-pred (pred n) (k m) (h m)
  Lasts-pred n (take_waker k) h = λ w. Lasts-pred (pred n) (k w) (h w)
  Lasts-pred n (now k) h = λ t. Lasts-pred (pred n) (k t) (h t)

  -- What a step leaves of the two bounds.
  module _ (P : Program T R → Type 0) where
    abbrev pub Leaves : Outcome T R → Type 0
    Leaves (running mem p) = P p
    Leaves _ = Unit

    resume-Leaves :
        {A : Type 0} (x : Access A T) (k : A → Program T R)
        → ((a : A) → P (k a))
        → Leaves (resume x k)
    resume-Leaves (done a mem) k h = h a
    resume-Leaves (fault f) k h = tt

    park-Leaves :
        (token : Bool) (mem : Memory T) (p : Program T R)
        → P p
        → Leaves (if token then running (record mem { token = false }) p else blocked)
    park-Leaves true mem p h = h
    park-Leaves false mem p h = tt

    act-Leaves :
        (model : Model) (side : Side) (a : Action T) (mem : Memory T) (p : Program T R)
        → P p
        → Leaves (act_on model side a mem p)
    act-Leaves model side (fence o) mem p h = h
    act-Leaves model side (write_message n) mem p h =
        resume-Leaves (Memory.write_message model side n mem) _ (λ _. h)
    act-Leaves model side drop_message mem p h =
        resume-Leaves (Memory.take_message model side mem) _ (λ _. h)
    act-Leaves model side (write_waker w) mem p h =
        resume-Leaves (Memory.write_waker model side w mem) _ (λ _. h)
    act-Leaves model side drop_waker mem p h =
        resume-Leaves (Memory.take_waker model side mem) _ (λ _. h)
    act-Leaves model side dealloc mem p h = resume-Leaves (Memory.free model side mem) _ (λ _. h)
    act-Leaves model side park mem p h = park-Leaves mem.token mem p h
    act-Leaves model side (park_timeout d) mem p h = h
    act-Leaves model side spin_loop mem p h = h
    act-Leaves model side (unpark w) mem p h = h

  module _ (model : Model) (side : Side) (mem : Memory T) where
    pub Lasts-Leaves :
        (n : ℕ) (p : Program T R) → Lasts (suc n) p → Leaves (Lasts n) (step model side p mem)
    unfolding step
    Lasts-Leaves n (ret r) h = tt
    Lasts-Leaves n unreachable h = tt
    Lasts-Leaves n out_of_fuel h = tt
    Lasts-Leaves n (atomic op k) h = resume-Leaves (Lasts n) (Memory.atomic side op mem) k h
    Lasts-Leaves n (act a p) h = act-Leaves (Lasts n) model side a mem p h
    Lasts-Leaves n (take_message k) h =
        resume-Leaves (Lasts n) (Memory.take_message model side mem) k h
    Lasts-Leaves n (read_message k) h =
        resume-Leaves (Lasts n) (Memory.read_message model side mem) k h
    Lasts-Leaves n (take_waker k) h = resume-Leaves (Lasts n) (Memory.take_waker model side mem) k h
    Lasts-Leaves n (now k) h = h mem.clock

    pub Within-Leaves :
        (n : ℕ) (p : Program T R)
        → Within n p
        → Leaves (λ q. (k : ℕ) × (suc k ≡ n) × Within k q) (step model side p mem)
    unfolding step
    Within-Leaves n (ret r) h = tt
    Within-Leaves n unreachable h = tt
    Within-Leaves n out_of_fuel h = tt
    Within-Leaves (suc n) (atomic op k) h =
        resume-Leaves _ (Memory.atomic side op mem) k (λ v. (n, refl, h v))
    Within-Leaves (suc n) (act a p) h = act-Leaves _ model side a mem p (n, refl, h)
    Within-Leaves (suc n) (take_message k) h =
        resume-Leaves _ (Memory.take_message model side mem) k (λ m. (n, refl, h m))
    Within-Leaves (suc n) (read_message k) h =
        resume-Leaves _ (Memory.read_message model side mem) k (λ m. (n, refl, h m))
    Within-Leaves (suc n) (take_waker k) h =
        resume-Leaves _ (Memory.take_waker model side mem) k (λ w. (n, refl, h w))
    Within-Leaves (suc n) (now k) h = (n, refl, h mem.clock)
    Within-Leaves zero (atomic op k) h = elim h [ ]
    Within-Leaves zero (act a p) h = elim h [ ]
    Within-Leaves zero (take_message k) h = elim h [ ]
    Within-Leaves zero (read_message k) h = elim h [ ]
    Within-Leaves zero (take_waker k) h = elim h [ ]
    Within-Leaves zero (now k) h = elim h [ ]
