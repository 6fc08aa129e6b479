-- ===== src/Promptness/System.antt =====
-- The pace of the receiver in a run of two threads that keep to the protocol.
use oneshot.Prelude.{ℕ, ◌+◌, ◌≡◌, ◌≢◌, ◌≤◌, refl, sym, subst, false, arith}
use oneshot.Memory.{Memory, Model, fresh}
use oneshot.Memory.HappensBefore.{sender, receiver}
use oneshot.Machine.{
  running, step, System, Step, sender_step, receiver_step, spurious_wakeup, time_passes, Reach,
  start, later,
}
use oneshot.Program.{Program, act, park}
use oneshot.Protocol.Phases.{SenderPhase, alive, ReceiverPhase, idle}
use oneshot.Protocol.Agreement.{Agree}
use oneshot.Protocol.SenderRules.{Sends}
use oneshot.Protocol.ReceiverRules.{Receives}
use oneshot.Soundness.Waking.{time-Agree}
use oneshot.Soundness.SenderStep
use oneshot.Soundness.ReceiverStep
use oneshot.Soundness.System.{park-wakes}
use oneshot.Promptness.{IsDone, AnyEnd, Prompt}
use oneshot.Promptness.Steps.{Goes, step-Goes}
use oneshot.Promptness.Open.{is_open, open-Next, closed-Next}
use oneshot.Promptness.Pace.{Pace, sender-Pace, receiver-Pace, park-Pace, Pace-small}
use oneshot.States

empty≢disconnected : States.empty ≢ States.disconnected
empty≢disconnected e = omega arith

module _ {T A B : Type 0} (model : Model) (m : T) (S : A → SenderPhase → Type 0)
    (R : B → ReceiverPhase → Type 0) (n : ℕ) where
  pub record Live (s : System T A B) : Type 0 where
    pub sending : SenderPhase
    pub receiving : ReceiverPhase
    pub agree : Agree m sending receiving s.mem
    pub sends : Sends m S sending s.tx
    pub receives : Receives model m R receiving s.rx
    pub pace : Pace n (is_open sending) s.mem.state s.rx

  sender_step-Live :
      {s : System T A B} (mem : Memory T) (p : Program T A)
      → Live s
      → step model sender s.tx s.mem ≡ running mem p
      → Live (record { mem = mem; tx = p; rx = s.rx })
  sender_step-Live {s} mem p live e =
      let (σ, a, h) = subst (SenderStep.Keeps model m S live.receiving) e (
        SenderStep.step-Keeps model m S s.mem live.sending live.receiving s.tx live.agree
          live.sends) in
      record {
        sending = σ;
        receiving = live.receiving;
        agree = a;
        sends = h;
        receives = live.receives;
        pace =
            sender-Pace m n (is_open live.sending) (is_open σ) live.sending σ live.receiving s.mem
              mem s.rx refl refl live.agree a
              (λ opened. subst (Goes (λ b q. b ≤ 4)) e (
                step-Goes model sender s.mem (λ b q. b ≤ 4) s.tx
                  (open-Next m S s.mem live.sending live.receiving s.tx opened live.agree
                    live.sends)))
              (λ closed. subst (Goes (λ b q. b ≡ s.mem.state)) e (
                step-Goes model sender s.mem (λ b q. b ≡ s.mem.state) s.tx
                  (closed-Next m S s.mem live.sending s.tx closed live.sends)))
              live.pace;
      }

  receiver_step-Live :
      {s : System T A B} (mem : Memory T) (p : Program T B)
      → Live s
      → step model receiver s.rx s.mem ≡ running mem p
      → Live (record { mem = mem; tx = s.tx; rx = p })
  receiver_step-Live {s} mem p live e =
      let (ρ, a, h) = subst (ReceiverStep.Keeps model m R live.sending) e (
        ReceiverStep.step-Keeps model m R s.mem live.sending live.receiving s.rx live.agree
          live.receives) in
      record {
        sending = live.sending;
        receiving = ρ;
        agree = a;
        sends = live.sends;
        receives = h;
        pace = subst (Goes (Pace n (is_open live.sending))) e (
            receiver-Pace model m R n (is_open live.sending) live.sending live.receiving s.mem s.rx
              refl live.agree live.receives live.pace);
      }

  spurious_wakeup-Live :
      {s : System T A B} (p : Program T B)
      → Live s
      → s.rx ≡ act park p
      → Live (record { mem = s.mem; tx = s.tx; rx = p })
  spurious_wakeup-Live {s} p live e =
      let (ρ, a, h) =
        park-wakes model m S R s.mem live.sending live.receiving p live.agree
          (subst (Receives model m R live.receiving) e live.receives) in
      record {
        sending = live.sending;
        receiving = ρ;
        agree = a;
        sends = live.sends;
        receives = h;
        pace =
            park-Pace n (is_open live.sending) s.mem.state p
              (subst (Pace n (is_open live.sending) s.mem.state) e live.pace);
      }

  time_passes-Live :
      {s : System T A B} (ticks : ℕ)
      → Live s
      → Live (record { mem = record s.mem { clock = s.mem.clock + ticks }; tx = s.tx; rx = s.rx })
  time_passes-Live {s} ticks live = record {
    sending = live.sending;
    receiving = live.receiving;
    agree = time-Agree m ticks live.sending live.receiving s.mem live.agree;
    sends = live.sends;
    receives = live.receives;
    pace = live.pace;
  }

  Step-Live : {s u : System T A B} → Step model s u → Live s → Live u
  Step-Live (sender_step {mem} {p} e u) live = subst Live (sym u) (sender_step-Live mem p live e)
  Step-Live (receiver_step {mem} {p} e u) live =
      subst Live (sym u) (receiver_step-Live mem p live e)
  Step-Live (spurious_wakeup {p} e u) live = subst Live (sym u) (spurious_wakeup-Live p live e)
  Step-Live (time_passes ticks u) live = subst Live (sym u) (time_passes-Live ticks live)

  pub Reach-Live : {s u : System T A B} → Reach model s u → Live s → Live u
  Reach-Live start live = live
  Reach-Live (later r st) live = Step-Live st (Reach-Live r live)

  pub fresh-Live :
      (clock : ℕ) (tx : Program T A) (rx : Program T B)
      → Sends m S (alive false false) tx
      → Receives model m R idle rx
      → Prompt AnyEnd IsDone n rx
      → Live (record { mem = fresh clock; tx = tx; rx = rx })
  unfolding fresh
  fresh-Live clock tx rx h k prompt = record {
    sending = alive false false;
    receiving = idle;
    agree = ground arith;
    sends = h;
    receives = k;
    pace = (prompt, λ e. elim (empty≢disconnected e) [ ]);
  }

  -- The byte is always one of the five states.
  pub Live-state : {s : System T A B} → Live s → s.mem.state ≤ 4
  Live-state {s} live =
      Pace-small m n (is_open live.sending) live.sending live.receiving s.mem s.rx refl live.agree
        live.pace
