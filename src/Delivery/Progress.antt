-- ===== src/Delivery/Progress.antt =====
-- Waiting and waking between src/sender.rs and src/receiver.rs.
use oneshot.Prelude.{ℕ, ◌≡◌, ◌<◌, refl, subst, List}
use oneshot.Memory.{Memory, Model}
use oneshot.Memory.HappensBefore.{sender, receiver}
use oneshot.Program.{Program, ret}
use oneshot.Machine.{Outcome, running, returned, blocked, exhausted, step, System, Reach}
use oneshot.Protocol.Phases.{SenderPhase, finished, ReceiverPhase}
use oneshot.Protocol.SenderRules.{Sends}
use oneshot.Soundness.System.{Inv, IsFree, IsSound}
use oneshot.Soundness.ReceiverStep
use oneshot.Conformance.Standing.{waiting}
use oneshot.Client.{SenderUse, SenderResult, delivered, refused, gone, ReceiverCall, ReceiverEnd}
use oneshot.Client.Sending.{SenderAnswer, Sending}
use oneshot.Client.Calls.{Allowed}
use oneshot.Client.Receiving.{ClientAnswer}
use oneshot.Delivery.{clients, clients-Inv}
use oneshot.Machine.Endings.{returned-ret}
use oneshot.Machine.Counting.{receiver_effects}
use oneshot.Delivery.Fuel.{clients-fueled}
use oneshot.Delivery.Safety.{clients-IsSound}

module _ {T B : Type 0} (m : T) where
  -- A sender that is through leaves no receiver parked.
  answered-awake :
      (model : Model) (Q : B → ReceiverPhase → Type 0) (r : SenderResult T) (σ : SenderPhase)
      → SenderAnswer m r σ
      → ReceiverStep.Keeps model m Q σ blocked
      → ⊥
  answered-awake model Q delivered σ a k = subst (λ x. ReceiverStep.Keeps model m Q x blocked) a k
  answered-awake model Q (refused n) σ a k =
      subst (λ x. ReceiverStep.Keeps model m Q x blocked) a.1 k
  answered-awake model Q gone (finished sent) a k = k
  answered-awake model Q gone SenderPhase.released a k = k
  answered-awake model Q gone _ a k = a

pub Inv-awake :
    {T B : Type 0} (model : Model) (m : T) (Q : B → ReceiverPhase → Type 0)
    (s : System T (SenderResult T) B) (r : SenderResult T)
    → Inv model m (SenderAnswer m) Q s
    → s.tx ≡ ret r
    → ¬ (step model receiver s.rx s.mem ≡ blocked)
Inv-awake model m Q s r inv e parked =
    answered-awake m model Q r inv.sending
      (subst (Sends m (SenderAnswer m) inv.sending) e inv.sends)
      (subst (ReceiverStep.Keeps model m Q inv.sending) parked (
        ReceiverStep.step-Keeps model m Q s.mem inv.sending inv.receiving s.rx inv.agree
          inv.receives))

-- In no reachable state is the receiver's thread parked, without a wake-up that it can consume,
-- while the sender's thread is through. Under `release_acquire` a receiver
-- that is dropped makes no call with a time limit before.
pub clients-awake :
    {T : Type 0} (model : Model) (m : T) (clock tests fuel : ℕ) (u : SenderUse T)
    (cs : List ReceiverCall) (end : ReceiverEnd) (s : System T (SenderResult T) (List T))
    (r : SenderResult T)
    → Sending m u
    → Allowed model cs end
    → Reach model (clients clock tests fuel u cs end) s
    → s.tx ≡ ret r
    → ¬ (step model receiver s.rx s.mem ≡ blocked)
clients-awake model m clock tests fuel u cs end s r same h reach =
    Inv-awake model m (ClientAnswer model m end waiting) s r
      (clients-Inv model m clock tests fuel u cs end same h reach)

-- What the two threads can do next: one of them takes a step, or both are through.
pub data Next {T A B : Type 0} (model : Model) (s : System T A B) : Type 0 where
  sender_goes :
      {mem : Memory T} {p : Program T A}
      → step model sender s.tx s.mem ≡ running mem p
      → Next model s
  receiver_goes :
      {mem : Memory T} {p : Program T B}
      → step model receiver s.rx s.mem ≡ running mem p
      → Next model s
  both_through : {a : A} {b : B} → s.tx ≡ ret a → s.rx ≡ ret b → Next model s

module _ {T A B : Type 0} (model : Model) (s : System T A B) where
  through-Next :
      (a : A) (o : Outcome T B)
      → step model sender s.tx s.mem ≡ returned a
      → step model receiver s.rx s.mem ≡ o
      → ¬ (step model receiver s.rx s.mem ≡ blocked)
      → ¬ (step model receiver s.rx s.mem ≡ exhausted)
      → IsSound o
      → Next model s
  through-Next a (running mem p) e e' awake fueled h = receiver_goes e'
  through-Next a (returned b) e e' awake fueled h =
      both_through (returned-ret model sender s.mem a s.tx e)
        (returned-ret model receiver s.mem b s.rx e')
  through-Next a blocked e e' awake fueled h = elim (awake e') [ ]
  through-Next a exhausted e e' awake fueled h = elim (fueled e') [ ]
  through-Next a _ e e' awake fueled h = elim h [ ]

  free-Next :
      (o : Outcome T A)
      → step model sender s.tx s.mem ≡ o
      → IsFree o
      → ((a : A) → s.tx ≡ ret a → ¬ (step model receiver s.rx s.mem ≡ blocked))
      → ¬ (step model receiver s.rx s.mem ≡ exhausted)
      → IsSound (step model receiver s.rx s.mem)
      → Next model s
  free-Next (running mem p) e free awake fueled h = sender_goes e
  free-Next (returned a) e free awake fueled h =
      through-Next a (step model receiver s.rx s.mem) e refl
        (awake a (returned-ret model sender s.mem a s.tx e)) fueled h
  free-Next _ e free awake fueled h = elim free [ ]

-- There is no deadlock: in every reachable state one of the threads can take a step, unless both are
-- through. The fuel of the receiver's loops is enough for a run if it is more than the effects that the receiver has
-- had in it. Under `release_acquire` a receiver
-- that is dropped makes no call with a time limit before.
pub clients-Next :
    {T : Type 0} (model : Model) (m : T) (clock tests fuel : ℕ) (u : SenderUse T)
    (cs : List ReceiverCall) (end : ReceiverEnd) (s : System T (SenderResult T) (List T))
    → Sending m u
    → Allowed model cs end
    → (reach : Reach model (clients clock tests fuel u cs end) s)
    → receiver_effects model reach < fuel
    → Next model s
clients-Next {T} model m clock tests fuel u cs end s same h reach more =
    let (free, sound) = clients-IsSound model m clock tests fuel u cs end s same h reach in
    free-Next model s (step model sender s.tx s.mem) refl free
      (λ r e. clients-awake model m clock tests fuel u cs end s r same h reach e)
      (clients-fueled model clock tests fuel u cs end s reach more) sound
