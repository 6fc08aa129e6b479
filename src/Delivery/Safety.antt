-- ===== src/Delivery/Safety.antt =====
-- The next effect of each thread, for src/sender.rs against the blocking methods of src/receiver.rs.
use oneshot.Prelude.{ℕ, List}
use oneshot.Memory.{Model}
use oneshot.Memory.HappensBefore.{sender, receiver}
use oneshot.Machine.{Outcome, running, returned, failed, panicked, step, System, Reach}
use oneshot.Protocol.Phases.{SenderPhase, ReceiverPhase}
use oneshot.Soundness.System.{IsSound, IsFree}
use oneshot.Soundness.SenderStep
use oneshot.Soundness.ReceiverStep
use oneshot.Client.{SenderUse, SenderResult, ReceiverCall, ReceiverEnd}
use oneshot.Client.Sending.{SenderAnswer, Sending}
use oneshot.Client.Calls.{Allowed}
use oneshot.Client.Receiving.{ClientAnswer}
use oneshot.Conformance.Standing.{waiting}
use oneshot.Delivery.{clients, clients-Inv}

module _ {T R : Type 0} (m : T) where
  pub Keeps-IsFree :
      (model : Model) (Q : R → SenderPhase → Type 0) (ρ : ReceiverPhase) (o : Outcome T R)
      → SenderStep.Keeps model m Q ρ o
      → IsFree o
  Keeps-IsFree model Q ρ (running mem p) h = tt
  Keeps-IsFree model Q ρ (returned r) h = tt
  Keeps-IsFree model Q ρ _ h = elim h [ ]

  pub Keeps-IsSound :
      (model : Model) (Q : R → ReceiverPhase → Type 0) (σ : SenderPhase) (o : Outcome T R)
      → ReceiverStep.Keeps model m Q σ o
      → IsSound o
  Keeps-IsSound model Q σ (failed f) h = elim h [ ]
  Keeps-IsSound model Q σ panicked h = elim h [ ]
  Keeps-IsSound model Q σ _ h = tt

-- However the two endpoints are used, in every state that the two threads can reach, in any order
-- of their effects: the sender's next effect succeeds and does not wait, and the receiver's next
-- effect is not a use after free, a read of a field that holds nothing, a data race or a panic.
-- Under `interleaving` the calls may be any; under `release_acquire`, where happens-before is
-- checked, they may be any if the receiver ends with `recv`, and any without a time limit if it is
-- dropped.
pub clients-IsSound :
    {T : Type 0} (model : Model) (m : T) (clock tests fuel : ℕ) (u : SenderUse T)
    (cs : List ReceiverCall) (end : ReceiverEnd) (s : System T (SenderResult T) (List T))
    → Sending m u
    → Allowed model cs end
    → Reach model (clients clock tests fuel u cs end) s
    → IsFree (step model sender s.tx s.mem) × IsSound (step model receiver s.rx s.mem)
clients-IsSound model m clock tests fuel u cs end s same h r =
    let inv = clients-Inv model m clock tests fuel u cs end same h r in
    (
      Keeps-IsFree m model (SenderAnswer m) inv.receiving _ (
          SenderStep.step-Keeps model m (SenderAnswer m) s.mem inv.sending inv.receiving s.tx
            inv.agree inv.sends),
      Keeps-IsSound m model (ClientAnswer model m end waiting) inv.sending _ (
          ReceiverStep.step-Keeps model m (ClientAnswer model m end waiting) s.mem inv.sending
            inv.receiving s.rx inv.agree inv.receives),
    )
