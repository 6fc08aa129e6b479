-- ===== src/Soundness/System.antt =====
-- Two programs that keep to the protocol, run together from any pair of phases that agrees with the
-- memory.
use oneshot.Prelude.{ℕ, ◌+◌, ◌≡◌, sym, subst, Bool, true, false, arith}
use oneshot.Memory.{Memory, Model, uninit, init, fresh}
use oneshot.Memory.HappensBefore.{sender, receiver}
use oneshot.Machine.{
  Outcome, running, returned, failed, panicked, step, System, Step, sender_step, receiver_step,
  spurious_wakeup, time_passes, Reach, start, later,
}
use oneshot.Program.{Program, act, park}
use oneshot.Protocol.Phases.{
  SenderPhase, alive, claimed, holding, notifying, finished, ReceiverPhase, idle, receiving,
  expired, got, over,
}
use oneshot.Protocol.Agreement.{Agree}
use oneshot.Protocol.SenderRules.{Sends}
use oneshot.Protocol.ReceiverRules.{Receives}
use oneshot.Soundness.Waking.{time-Agree}
use oneshot.Soundness.SenderStep
use oneshot.Soundness.ReceiverStep
use oneshot.Waker.{ReceiverWaker}

module _ {T A B : Type 0} (model : Model) (m : T) (S : A → SenderPhase → Type 0)
    (R : B → ReceiverPhase → Type 0) where
  -- The invariant: each thread keeps to the rules from a phase on, and the phases agree with the
  -- memory.
  pub record Inv (s : System T A B) : Type 0 where
    pub sending : SenderPhase
    pub receiving : ReceiverPhase
    pub agree : Agree m sending receiving s.mem
    pub sends : Sends m S sending s.tx
    pub receives : Receives model m R receiving s.rx

  sender_step-Inv :
      {s : System T A B} (mem : Memory T) (p : Program T A)
      → Inv s
      → step model sender s.tx s.mem ≡ running mem p
      → Inv (record { mem = mem; tx = p; rx = s.rx })
  sender_step-Inv {s} mem p inv e =
      let (σ, a, h) = subst (SenderStep.Keeps model m S inv.receiving) e (
        SenderStep.step-Keeps model m S s.mem inv.sending inv.receiving s.tx inv.agree inv.sends) in
      record {
        sending = σ;
        receiving = inv.receiving;
        agree = a;
        sends = h;
        receives = inv.receives;
      }

  receiver_step-Inv :
      {s : System T A B} (mem : Memory T) (p : Program T B)
      → Inv s
      → step model receiver s.rx s.mem ≡ running mem p
      → Inv (record { mem = mem; tx = s.tx; rx = p })
  receiver_step-Inv {s} mem p inv e =
      let (ρ, a, h) = subst (ReceiverStep.Keeps model m R inv.sending) e (
        ReceiverStep.step-Keeps model m R s.mem inv.sending inv.receiving s.rx inv.agree
          inv.receives) in
      record { sending = inv.sending; receiving = ρ; agree = a; sends = inv.sends; receives = h }

  receiving-wakes :
      (mem : Memory T) (σ : SenderPhase) (w : ReceiverWaker) (awake seen : Bool)
      → Agree m σ (receiving w awake seen) mem
      → Agree m σ (receiving w true seen) mem
  receiving-wakes mem (alive written closed) w awake seen a = a
  receiving-wakes mem (claimed sent) w awake seen a = a
  receiving-wakes mem (holding sent v) w awake seen a = a
  receiving-wakes mem (notifying sent v) w awake seen a = a
  receiving-wakes mem (finished sent) w awake seen a = (a.0, tt)
  receiving-wakes mem _ w awake seen a = elim a [ ]

  expired-wakes :
      (mem : Memory T) (σ : SenderPhase) (w : ReceiverWaker) (awake : Bool)
      → Agree m σ (expired w awake) mem
      → Agree m σ (expired w true) mem
  expired-wakes mem (claimed sent) w awake a = a
  expired-wakes mem (holding sent v) w awake a = a
  expired-wakes mem (notifying sent v) w awake a = a
  expired-wakes mem (finished sent) w awake a = (a.0, tt)
  expired-wakes mem _ w awake a = elim a [ ]

  -- A parked receiver may go on at any time.
  pub park-wakes :
      (mem : Memory T) (σ : SenderPhase) (ρ : ReceiverPhase) (p : Program T B)
      → Agree m σ ρ mem
      → Receives model m R ρ (act park p)
      → (ρ' : ReceiverPhase) × Agree m σ ρ' mem × Receives model m R ρ' p
  park-wakes mem σ (receiving w awake seen) p a h =
      (receiving w true seen, receiving-wakes mem σ w awake seen a, h.2)
  park-wakes mem σ (expired w awake) p a h = (expired w true, expired-wakes mem σ w awake a, h.2)
  park-wakes mem σ (got s uninit y visible) p a h = elim h [ ]
  park-wakes mem σ (got s (init w) y visible) p a h = elim h [ ]
  park-wakes mem σ (over b s uninit y) p a h = elim h [ ]
  park-wakes mem σ (over b s (init w) y) p a h = elim h [ ]
  park-wakes mem σ _ p a h = elim h [ ]

  spurious_wakeup-Inv :
      {s : System T A B} (p : Program T B)
      → Inv s
      → s.rx ≡ act park p
      → Inv (record { mem = s.mem; tx = s.tx; rx = p })
  spurious_wakeup-Inv {s} p inv e =
      let (ρ, a, h) =
        park-wakes s.mem inv.sending inv.receiving p inv.agree
          (subst (Receives model m R inv.receiving) e inv.receives) in
      record { sending = inv.sending; receiving = ρ; agree = a; sends = inv.sends; receives = h }

  time_passes-Inv :
      {s : System T A B} (ticks : ℕ)
      → Inv s
      → Inv (record { mem = record s.mem { clock = s.mem.clock + ticks }; tx = s.tx; rx = s.rx })
  time_passes-Inv {s} ticks inv = record {
    sending = inv.sending;
    receiving = inv.receiving;
    agree = time-Agree m ticks inv.sending inv.receiving s.mem inv.agree;
    sends = inv.sends;
    receives = inv.receives;
  }

  pub Step-Inv : {s u : System T A B} → Step model s u → Inv s → Inv u
  Step-Inv (sender_step {mem} {p} e u) inv = subst Inv (sym u) (sender_step-Inv mem p inv e)
  Step-Inv (receiver_step {mem} {p} e u) inv = subst Inv (sym u) (receiver_step-Inv mem p inv e)
  Step-Inv (spurious_wakeup {p} e u) inv = subst Inv (sym u) (spurious_wakeup-Inv p inv e)
  Step-Inv (time_passes ticks u) inv = subst Inv (sym u) (time_passes-Inv ticks inv)

  pub Reach-Inv : {s u : System T A B} → Reach model s u → Inv s → Inv u
  Reach-Inv start inv = inv
  Reach-Inv (later r st) inv = Step-Inv st (Reach-Inv r inv)

  -- A new channel with a sender and a receiver.
  pub fresh-Inv :
      (clock : ℕ) (tx : Program T A) (rx : Program T B)
      → Sends m S (alive false false) tx
      → Receives model m R idle rx
      → Inv (record { mem = fresh clock; tx = tx; rx = rx })
  unfolding fresh
  fresh-Inv clock tx rx h k = record {
    sending = alive false false;
    receiving = idle;
    agree = ground arith;
    sends = h;
    receives = k;
  }

-- No faulty access and no panic.
abbrev pub IsSound : {T R : Type 0} → Outcome T R → Type 0
IsSound (failed f) = ⊥
IsSound panicked = ⊥
IsSound _ = Unit

-- It takes a step or is through; it neither waits nor gives up.
abbrev pub IsFree : {T R : Type 0} → Outcome T R → Type 0
IsFree (running mem p) = Unit
IsFree (returned r) = Unit
IsFree _ = ⊥
