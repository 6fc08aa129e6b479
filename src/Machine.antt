-- ===== src/Machine.antt =====
-- The two threads over one channel: one effect at a time, in any order. The receiver may also wake
-- up without being unparked, and time passes.
pub mod Schedule
pub mod Effects
pub mod Counting
pub mod Endings
use oneshot.Prelude.{ℕ, ◌+◌, ◌≡◌, false, if◌then◌else◌}
use oneshot.Memory.{Memory, Slot, Access, Fault, Model, done, fault}
use oneshot.Memory.HappensBefore.{Side, sender, receiver}
use oneshot.Memory
use oneshot.Program.{
  Program, Action, ret, unreachable, out_of_fuel, atomic, act, take_message, read_message,
  take_waker, now, fence, write_message, drop_message, write_waker, drop_waker, dealloc, park,
  park_timeout, spin_loop, unpark,
}

pub data Outcome (T R : Type 0) : Type 0 where
  running : Memory T → Program T R → Outcome T R
  returned : R → Outcome T R
  -- a parked thread without a token
  blocked : Outcome T R
  failed : Fault → Outcome T R
  panicked : Outcome T R
  exhausted : Outcome T R

module _ {T R : Type 0} where
  abbrev pub resume : {A : Type 0} → Access A T → (A → Program T R) → Outcome T R
  resume (done a mem) k = running mem (k a)
  resume (fault f) k = failed f

  abbrev pub act_on : Model → Side → Action T → Memory T → Program T R → Outcome T R
  act_on model side (fence o) mem p = running (Memory.fence side o mem) p
  act_on model side (write_message m) mem p =
      resume (Memory.write_message model side m mem) (λ _. p)
  act_on model side drop_message mem p = resume (Memory.take_message model side mem) (λ _. p)
  act_on model side (write_waker w) mem p = resume (Memory.write_waker model side w mem) (λ _. p)
  act_on model side drop_waker mem p = resume (Memory.take_waker model side mem) (λ _. p)
  act_on model side dealloc mem p = resume (Memory.free model side mem) (λ _. p)
  act_on model side park mem p =
      if mem.token then running (record mem { token = false }) p else blocked
  act_on model side (park_timeout d) mem p = running (record mem { token = false }) p
  act_on model side spin_loop mem p = running mem p
  act_on model side (unpark w) mem p = running (Memory.wake w mem) p

  -- One effect of a program of one side.
  unfoldable pub step : Model → Side → Program T R → Memory T → Outcome T R
  step model side (ret r) mem = returned r
  step model side unreachable mem = panicked
  step model side out_of_fuel mem = exhausted
  step model side (atomic op k) mem = resume (Memory.atomic side op mem) k
  step model side (act a p) mem = act_on model side a mem p
  step model side (take_message k) mem = resume (Memory.take_message model side mem) k
  step model side (read_message k) mem = resume (Memory.read_message model side mem) k
  step model side (take_waker k) mem = resume (Memory.take_waker model side mem) k
  step model side (now k) mem = running mem (k mem.clock)

-- The channel with the thread that has the sender and the thread that has the receiver.
pub record System (T A B : Type 0) : Type 0 where
  pub mem : Memory T
  pub tx : Program T A
  pub rx : Program T B

module _ {T A B : Type 0} (model : Model) where
  pub data Step (s u : System T A B) : Type 0 where
    sender_step :
        {mem : Memory T} {p : Program T A}
        → step model sender s.tx s.mem ≡ running mem p
        → u ≡ record { mem = mem; tx = p; rx = s.rx }
        → Step s u
    receiver_step :
        {mem : Memory T} {p : Program T B}
        → step model receiver s.rx s.mem ≡ running mem p
        → u ≡ record { mem = mem; tx = s.tx; rx = p }
        → Step s u
    -- `park` and `park_timeout` may return spuriously
    spurious_wakeup :
        {p : Program T B}
        → s.rx ≡ act park p
        → u ≡ record { mem = s.mem; tx = s.tx; rx = p }
        → Step s u
    time_passes :
        (ticks : ℕ)
        → u ≡ record { mem = record s.mem { clock = s.mem.clock + ticks }; tx = s.tx; rx = s.rx }
        → Step s u

  pub data Reach (s : System T A B) : System T A B → Type 0 where
    start : Reach s s
    later : {t u : System T A B} → Reach s t → Step t u → Reach s u
