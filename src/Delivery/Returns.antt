-- ===== src/Delivery/Returns.antt =====
-- The receiver's thread runs to its end, for the blocking methods of src/receiver.rs.
use oneshot.Prelude.{ℕ, ◌+◌, ◌*◌, ◌≡◌, ◌<◌, subst, List}
use oneshot.Memory.{Model}
use oneshot.Program.{ret}
use oneshot.Machine.{System, Reach}
use oneshot.Machine.Schedule.{turns, after, after-Reach, Reach-trans}
use oneshot.Machine.Counting.{receiver_effects}
use oneshot.Client.{SenderUse, SenderResult, ReceiverCall, ReceiverEnd}
use oneshot.Client.Sending.{Sending}
use oneshot.Client.Calls.{Allowed}
use oneshot.Client.Receiving.{ClientAnswer}
use oneshot.Conformance.Standing.{waiting}
use oneshot.Promptness.Client.{effects_left}
use oneshot.Promptness.{AnyEnd, Quick}
use oneshot.Promptness.Conclusion.{runs-Ends}
use oneshot.Delivery.{clients}
use oneshot.Delivery.Safety.{clients-IsSound}
use oneshot.Delivery.Progress.{clients-awake}
use oneshot.Delivery.Fuel.{clients-fueled}
use oneshot.Delivery.Settlement.{Got, IsReclaimed, clients-Got}
use oneshot.Delivery.Termination.{length, effects_left-length, clients-Live, Live-Quick}

-- When the sender's thread has ended, the receiver's thread returns after at most eight effects for
-- each of its calls and eight for the end, if it is given these turns and its loops have more fuel
-- than its effects so far and these: it never waits for more. Then it has the messages that fit
-- what the sender was told, and the channel is freed with nothing left in it. Under `release_acquire` a receiver
-- that is dropped makes no call with a time limit before.
pub clients-returns :
    {T : Type 0} (model : Model) (m : T) (clock tests fuel : ℕ) (sent : SenderUse T)
    (cs : List ReceiverCall) (end : ReceiverEnd) (s : System T (SenderResult T) (List T))
    (a : SenderResult T)
    → Sending m sent
    → Allowed model cs end
    → (r : Reach model (clients clock tests fuel sent cs end) s) → s.tx ≡ ret a
    → receiver_effects model r + (8 * length cs + 8) < fuel
    → (ns : List T) × ((after model (turns (8 * length cs + 8)) s).rx ≡ ret ns)
      × Got m a end ns
      × IsReclaimed (after model (turns (8 * length cs + 8)) s).mem
clients-returns model m clock tests fuel sent cs end s a same allowed r ended enough =
    let (quick, small) =
      Live-Quick model m (ClientAnswer model m end waiting) (effects_left cs) s a
        (clients-Live model m clock tests fuel sent cs end s same allowed r) ended in
    let bound = effects_left-length cs in
    let (ns, tx_ended, rx_ended) =
      runs-Ends model (clients clock tests fuel sent cs end) a fuel
        (λ u reach. (clients-IsSound model m clock tests fuel sent cs end u same allowed reach).1)
        (λ u reach. clients-awake model m clock tests fuel sent cs end u a same allowed reach)
        (clients-fueled model clock tests fuel sent cs end) (8 * length cs + 8) s r
        (subst (λ n. Quick AnyEnd n s.mem.state s.rx) bound quick) small ended enough in
    let (got, reclaimed) =
      clients-Got model m clock tests fuel sent cs end (after model (turns (8 * length cs + 8)) s) a
        ns same allowed (Reach-trans model r (after-Reach model (turns (8 * length cs + 8)) s))
        tx_ended rx_ended in
    (ns, rx_ended, got, reclaimed)
