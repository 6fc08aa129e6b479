-- ===== src/Delivery.antt =====
-- A sender and a receiver of one new channel, in two threads, used in any permitted way.
pub mod Safety
pub mod Settlement
pub mod Progress
pub mod Polling
pub mod Futures
pub mod Guarantees
pub mod WaitFree
pub mod Fuel
pub mod Termination
pub mod Returns
pub mod FutureReturns
pub mod Called
pub mod Promises
use oneshot.Prelude.{ℕ, false, List}
use oneshot.Memory.{Model, fresh}
use oneshot.Machine.{System, Reach}
use oneshot.Soundness.System.{Inv, Reach-Inv, fresh-Inv}
use oneshot.Conformance.Standing.{waiting}
use oneshot.Client.{
  SenderUse, SenderResult, sender_client, ReceiverCall, ReceiverEnd, receiver_client,
}
use oneshot.Client.Sending.{SenderAnswer, Sending, sender_client-Sends}
use oneshot.Client.Calls.{Allowed}
use oneshot.Client.Receiving.{ClientAnswer, receiver_client-Receives}

-- The two threads at the start, at time `clock`. The sender is tested `tests` times before it is
-- used; the receiver makes the calls `cs`, its loops running on `fuel`.
abbrev pub clients :
    {T : Type 0} (clock tests fuel : ℕ)
    → SenderUse T
    → List ReceiverCall
    → ReceiverEnd
    → System T (SenderResult T) (List T)
clients clock tests fuel u cs end = record {
  mem = fresh clock;
  tx = sender_client tests u;
  rx = receiver_client fuel cs end;
}

pub clients-Inv :
    {T : Type 0} (model : Model) (m : T) (clock tests fuel : ℕ) (u : SenderUse T)
    (cs : List ReceiverCall) (end : ReceiverEnd) {s : System T (SenderResult T) (List T)}
    → Sending m u
    → Allowed model cs end
    → Reach model (clients clock tests fuel u cs end) s
    → Inv model m (SenderAnswer m) (ClientAnswer model m end waiting) s
clients-Inv model m clock tests fuel u cs end same h r =
    Reach-Inv model m (SenderAnswer m) (ClientAnswer model m end waiting) r (
      fresh-Inv model m (SenderAnswer m) (ClientAnswer model m end waiting) clock
        (sender_client tests u) (receiver_client fuel cs end)
        (sender_client-Sends m tests false u same)
        (receiver_client-Receives model m fuel cs end waiting tt h))
