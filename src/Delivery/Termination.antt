-- ===== src/Delivery/Termination.antt =====
-- The end of the receiver's thread, for the blocking methods of src/receiver.rs, and the byte.
use oneshot.Prelude.{ℕ, suc, ◌+◌, ◌*◌, ◌≡◌, ◌≤◌, refl, ap, subst, false, List, [], ◌∷◌, arith}
use oneshot.Memory.{Model}
use oneshot.Program.{ret}
use oneshot.Machine.{System, Reach}
use oneshot.Machine.Counting.{receiver_effects}
use oneshot.Protocol.Phases.{SenderPhase, ReceiverPhase, finished, released}
use oneshot.Conformance.Standing.{waiting}
use oneshot.Client.{
  SenderUse, SenderResult, delivered, refused, gone, sender_client, ReceiverCall, ReceiverEnd,
  receiver_client,
}
use oneshot.Client.Sending.{SenderAnswer, Sending, sender_client-Sends}
use oneshot.Client.Calls.{Allowed}
use oneshot.Client.Receiving.{ClientAnswer, receiver_client-Receives}
use oneshot.Protocol.SenderRules.{Sends}
use oneshot.Promptness.{AnyEnd, Quick}
use oneshot.Promptness.Open.{is_open}
use oneshot.Promptness.Client.{effects_left, receiver_client-Prompt}
use oneshot.Promptness.Pace.{Pace}
use oneshot.Promptness.System.{Live, Reach-Live, fresh-Live, Live-state}
use oneshot.Promptness.Counting.{Reach-Left}
use oneshot.Delivery.{clients}

abbrev pub length {ℓ} : {A : Type ℓ} → List A → ℕ
length [] = 0
length (x ∷ xs) = suc (length xs)

pub effects_left-length : (cs : List ReceiverCall) → effects_left cs ≡ 8 * length cs + 8
effects_left-length [] = refl
effects_left-length (c ∷ cs) = let e = effects_left-length cs in omega arith

ended-closed :
    {T : Type 0} (m : T) (a : SenderResult T) (σ : SenderPhase)
    → SenderAnswer m a σ
    → is_open σ ≡ false
ended-closed m delivered σ h = ap is_open h
ended-closed m (refused n) σ h = ap is_open h.1
ended-closed m gone (finished sent) h = refl
ended-closed m gone released h = refl
ended-closed m gone _ h = elim h [ ]

pub Live-Quick :
    {T B : Type 0} (model : Model) (m : T) (Q : B → ReceiverPhase → Type 0) (n : ℕ)
    (s : System T (SenderResult T) B) (a : SenderResult T)
    → Live model m (SenderAnswer m) Q n s
    → s.tx ≡ ret a
    → Quick AnyEnd n s.mem.state s.rx × (s.mem.state ≤ 4)
Live-Quick model m Q n s a live e =
    let closed =
      ended-closed m a live.sending (subst (Sends m (SenderAnswer m) live.sending) e live.sends) in
    subst (λ b. Pace n b s.mem.state s.rx) closed live.pace

module _ {T : Type 0} (model : Model) (m : T) (clock tests fuel : ℕ) (sent : SenderUse T)
    (cs : List ReceiverCall) (end : ReceiverEnd) (s : System T (SenderResult T) (List T)) where
  pub clients-Live :
      Sending m sent
      → Allowed model cs end
      → Reach model (clients clock tests fuel sent cs end) s
      → Live model m (SenderAnswer m) (ClientAnswer model m end waiting) (effects_left cs) s
  clients-Live same h r =
      Reach-Live model m (SenderAnswer m) (ClientAnswer model m end waiting) (effects_left cs) r (
        fresh-Live model m (SenderAnswer m) (ClientAnswer model m end waiting) (effects_left cs)
          clock (sender_client tests sent) (receiver_client fuel cs end)
          (sender_client-Sends m tests false sent same)
          (receiver_client-Receives model m fuel cs end waiting tt h)
          (receiver_client-Prompt T fuel cs end))

  -- However the two endpoints are used, in every state that the two threads can reach, the
  -- channel's byte is one of the five that the crate names, 0 to 4; also after the channel was
  -- freed, with the value it had then. Under `release_acquire` a receiver that is dropped makes no
  -- call with a time limit before.
  pub clients-state :
      Sending m sent
      → Allowed model cs end
      → Reach model (clients clock tests fuel sent cs end) s
      → s.mem.state ≤ 4
  clients-state same h r =
      Live-state model m (SenderAnswer m) (ClientAnswer model m end waiting) (effects_left cs)
        (clients-Live same h r)

  -- When the sender's thread has ended, in whatever state it found the receiver: in every run from
  -- there, spurious wake-ups counted, the receiver has at most eight more effects on the channel
  -- for each of its calls and eight for the end, however much fuel its loops have. Under
  -- `release_acquire` a receiver that is dropped makes no call with a time limit before.
  pub clients-bounded :
      (a : SenderResult T) (u : System T (SenderResult T) (List T))
      → Sending m sent
      → Allowed model cs end
      → Reach model (clients clock tests fuel sent cs end) s
      → s.tx ≡ ret a
      → (r : Reach model s u) → receiver_effects model r ≤ 8 * length cs + 8
  clients-bounded a u same h reach e r =
      let (quick, small) =
        Live-Quick model m (ClientAnswer model m end waiting) (effects_left cs) s a
          (clients-Live same h reach) e in
      let (k, more, quick', small', ended) = Reach-Left model (effects_left cs) a r quick small e in
      let b = effects_left-length cs in omega arith
