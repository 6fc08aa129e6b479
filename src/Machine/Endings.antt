-- ===== src/Machine/Endings.antt =====
-- Which programs a step finds at an end.
use oneshot.Prelude.{◌≡◌, refl, subst, Bool, true, false, if◌then◌else◌}
use oneshot.Memory.{Memory, Model, Access, done, fault}
use oneshot.Memory
use oneshot.Memory.HappensBefore.{Side}
use oneshot.Program.{
  Program, Action, ret, unreachable, out_of_fuel, atomic, act, take_message, read_message,
  take_waker, now, fence, write_message, drop_message, write_waker, drop_waker, dealloc, park,
  park_timeout, spin_loop, unpark,
}
use oneshot.Machine.{failed, Outcome, running, returned, blocked, exhausted, resume, act_on, step}

module _ {T R : Type 0} where
  -- An effect was tried.
  abbrev IsTry : Outcome T R → Type 0
  IsTry (running mem p) = Unit
  IsTry (failed f) = Unit
  IsTry blocked = Unit
  IsTry _ = ⊥

  resume-IsTry : {A : Type 0} (x : Access A T) (k : A → Program T R) → IsTry (resume x k)
  resume-IsTry (done a mem) k = tt
  resume-IsTry (fault f) k = tt

  park-IsTry :
      (token : Bool) (mem : Memory T) (p : Program T R)
      → IsTry (if token then running (record mem { token = false }) p else blocked)
  park-IsTry true mem p = tt
  park-IsTry false mem p = tt

  act-IsTry :
      (model : Model) (side : Side) (a : Action T) (mem : Memory T) (p : Program T R)
      → IsTry (act_on model side a mem p)
  act-IsTry model side (fence o) mem p = tt
  act-IsTry model side (write_message n) mem p =
      resume-IsTry (Memory.write_message model side n mem) _
  act-IsTry model side drop_message mem p = resume-IsTry (Memory.take_message model side mem) _
  act-IsTry model side (write_waker w) mem p = resume-IsTry (Memory.write_waker model side w mem) _
  act-IsTry model side drop_waker mem p = resume-IsTry (Memory.take_waker model side mem) _
  act-IsTry model side dealloc mem p = resume-IsTry (Memory.free model side mem) _
  act-IsTry model side park mem p = park-IsTry mem.token mem p
  act-IsTry model side (park_timeout d) mem p = tt
  act-IsTry model side spin_loop mem p = tt
  act-IsTry model side (unpark w) mem p = tt

  module _ (model : Model) (side : Side) (mem : Memory T) where
    pub returned-ret : (r : R) (p : Program T R) → step model side p mem ≡ returned r → p ≡ ret r
    unfolding step
    returned-ret r (ret a) e = cc
    returned-ret r unreachable e = cc
    returned-ret r out_of_fuel e = cc
    returned-ret r (atomic op k) e =
        elim (subst IsTry e (resume-IsTry (Memory.atomic side op mem) k)) [ ]
    returned-ret r (act a p) e = elim (subst IsTry e (act-IsTry model side a mem p)) [ ]
    returned-ret r (take_message k) e =
        elim (subst IsTry e (resume-IsTry (Memory.take_message model side mem) k)) [ ]
    returned-ret r (read_message k) e =
        elim (subst IsTry e (resume-IsTry (Memory.read_message model side mem) k)) [ ]
    returned-ret r (take_waker k) e =
        elim (subst IsTry e (resume-IsTry (Memory.take_waker model side mem) k)) [ ]
    returned-ret r (now k) e = cc

    pub exhausted-out_of_fuel :
        (p : Program T R) → step model side p mem ≡ exhausted → p ≡ out_of_fuel
    unfolding step
    exhausted-out_of_fuel (ret a) e = cc
    exhausted-out_of_fuel unreachable e = cc
    exhausted-out_of_fuel out_of_fuel e = refl
    exhausted-out_of_fuel (atomic op k) e =
        elim (subst IsTry e (resume-IsTry (Memory.atomic side op mem) k)) [ ]
    exhausted-out_of_fuel (act a p) e = elim (subst IsTry e (act-IsTry model side a mem p)) [ ]
    exhausted-out_of_fuel (take_message k) e =
        elim (subst IsTry e (resume-IsTry (Memory.take_message model side mem) k)) [ ]
    exhausted-out_of_fuel (read_message k) e =
        elim (subst IsTry e (resume-IsTry (Memory.read_message model side mem) k)) [ ]
    exhausted-out_of_fuel (take_waker k) e =
        elim (subst IsTry e (resume-IsTry (Memory.take_waker model side mem) k)) [ ]
    exhausted-out_of_fuel (now k) e = cc
