-- ===== src/Delivery/Guarantees.antt =====
-- What the documentation of src/sender.rs promises of `send` after `is_closed`.
use oneshot.Prelude.{ℕ, ◌≡◌, refl, subst, Bool, true, false, List, Result, ok, err, arith}
use oneshot.Memory.{Model, fresh}
use oneshot.Program.{Program, ret, ◌>>=◌}
use oneshot.Machine.{System, Reach}
use oneshot.Protocol.Phases.{SenderPhase, alive}
use oneshot.Protocol.SenderRules.{Sends}
use oneshot.Soundness.System.{Reach-Inv, fresh-Inv}
use oneshot.Conformance.Standing.{waiting}
use oneshot.Sender.{SendError, send_error}
use oneshot.Sender
use oneshot.Client.{ReceiverCall, ReceiverEnd, receiver_client}
use oneshot.Client.Calls.{Allowed}
use oneshot.Client.Receiving.{ClientAnswer, receiver_client-Receives}

abbrev IsRefusal : Bool × Result (Unit {0}) SendError → SenderPhase → Type 0
IsRefusal (true, ok _) σ = ⊥
IsRefusal _ σ = Unit

module _ {T : Type 0} where
  abbrev pub test_and_send : T → Program T (Bool × Result (Unit {0}) SendError)
  test_and_send m = Sender.is_closed >>= λ closed. Sender.send m >>= λ r. ret (closed, r)

  module _ (model : Model) (m : T) where
    test_and_send-Sends : Sends m IsRefusal (alive false false) (test_and_send m)
    unfolding Sender.is_closed Sender.send
    test_and_send-Sends = ground arith

    refused :
        (r : Result (Unit {0}) SendError) (σ : SenderPhase)
        → IsRefusal (true, r) σ
        → r ≡ err send_error
    refused (ok x) σ h = elim h [ ]
    refused (err send_error) σ h = refl

-- Once `is_closed` of the sender has answered `true`, `send` returns an error, however the receiver
-- is used. Under `release_acquire` a receiver
-- that is dropped makes no call with a time limit before.
pub is_closed-send :
    {T : Type 0} (model : Model) (m : T) (clock fuel : ℕ) (cs : List ReceiverCall)
    (end : ReceiverEnd) (s : System T (Bool × Result (Unit {0}) SendError) (List T))
    (r : Result (Unit {0}) SendError)
    → Allowed model cs end
    → Reach model
        (record { mem = fresh clock; tx = test_and_send m; rx = receiver_client fuel cs end })
        s
    → s.tx ≡ ret (true, r)
    → r ≡ err send_error
is_closed-send {T} model m clock fuel cs end s r h reach e =
    let inv = Reach-Inv model m IsRefusal (ClientAnswer model m end waiting) reach (
      fresh-Inv model m IsRefusal (ClientAnswer model m end waiting) clock (test_and_send m)
        (receiver_client fuel cs end) (test_and_send-Sends model m)
        (receiver_client-Receives model m fuel cs end waiting tt h)) in
    refused model m r inv.sending (subst (Sends m IsRefusal inv.sending) e inv.sends)
