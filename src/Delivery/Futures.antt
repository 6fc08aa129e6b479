-- ===== src/Delivery/Futures.antt =====
-- A sender, and a receiver that is called, then made a future of src/receiver.rs and used as one.
use oneshot.Prelude.{
  ℕ, ◌≡◌, ◌⊎◌, if◌then◌else◌, inl, inr, refl, sym, ap, subst, ◌∙◌, Bool, true, false, List, [], ◌∷◌,
}
use oneshot.Memory.{Memory, Model, Slot, uninit, init, fresh}
use oneshot.Memory.HappensBefore.{sender, receiver}
use oneshot.Program.{ret}
use oneshot.Machine.{System, Reach, step}
use oneshot.Protocol.Phases.{
  SenderPhase, finished, ReceiverPhase, idle, receiving, got, over, dropped,
}
use oneshot.Protocol.Agreement.{Agree}
use oneshot.Protocol.SenderRules.{Sends}
use oneshot.Protocol.ReceiverRules.{Receives}
use oneshot.Soundness.System.{Inv, Reach-Inv, fresh-Inv, IsSound, IsFree}
use oneshot.Soundness.SenderStep
use oneshot.Soundness.ReceiverStep
use oneshot.Conformance.Standing.{waiting}
use oneshot.Client.{
  SenderUse, SenderResult, delivered, refused, gone, sender_client, recv, ReceiverCall, FutureCall,
  AwaitResult, awaited_client,
}
use oneshot.Client.Sending.{SenderAnswer, Sending, sender_client-Sends}
use oneshot.Client.Calls.{AllPermitted}
use oneshot.Client.Awaiting.{Awaits, AwaitAnswer, awaited_client-Receives}
use oneshot.Delivery.Safety.{Keeps-IsFree, Keeps-IsSound}
use oneshot.Delivery.Settlement.{Got, IsReclaimed, answers-Got}

abbrev pub awaited :
    {T : Type 0} (clock tests fuel : ℕ)
    → SenderUse T
    → List ReceiverCall
    → List FutureCall
    → System T (SenderResult T) (AwaitResult T)
awaited clock tests fuel u cs fs = record {
  mem = fresh clock;
  tx = sender_client tests u;
  rx = awaited_client fuel cs fs;
}

pub awaited-Inv :
    {T : Type 0} (model : Model) (m : T) (clock tests fuel : ℕ) (u : SenderUse T)
    (cs : List ReceiverCall) (fs : List FutureCall) {s : System T (SenderResult T) (AwaitResult T)}
    → Sending m u
    → AllPermitted model cs
    → Reach model (awaited clock tests fuel u cs fs) s
    → Inv model m (SenderAnswer m) (AwaitAnswer model m waiting) s
awaited-Inv model m clock tests fuel u cs fs same h reach =
    Reach-Inv model m (SenderAnswer m) (AwaitAnswer model m waiting) reach (
      fresh-Inv model m (SenderAnswer m) (AwaitAnswer model m waiting) clock (sender_client tests u)
        (awaited_client fuel cs fs) (sender_client-Sends m tests false u same)
        (awaited_client-Receives model m fuel cs fs waiting tt h))

-- However the sender is used, and however the receiver is called, made a future, polled with any
-- contexts and tested with `is_closed` and `has_message` in any order, up to the poll that is ready
-- and the drop after it: in every reachable state the sender's next effect succeeds and does not
-- wait, and the receiver's next effect is not a use after free, a read of a field that holds nothing,
-- a data race or a panic. Calls of the receiver with a time limit are only covered under
-- `interleaving`.
pub awaited-IsSound :
    {T : Type 0} (model : Model) (m : T) (clock tests fuel : ℕ) (u : SenderUse T)
    (cs : List ReceiverCall) (fs : List FutureCall) (s : System T (SenderResult T) (AwaitResult T))
    → Sending m u
    → AllPermitted model cs
    → Reach model (awaited clock tests fuel u cs fs) s
    → IsFree (step model sender s.tx s.mem) × IsSound (step model receiver s.rx s.mem)
awaited-IsSound model m clock tests fuel u cs fs s same h reach =
    let inv = awaited-Inv model m clock tests fuel u cs fs same h reach in
    (
      Keeps-IsFree m model (SenderAnswer m) inv.receiving _ (
          SenderStep.step-Keeps model m (SenderAnswer m) s.mem inv.sending inv.receiving s.tx
            inv.agree inv.sends),
      Keeps-IsSound m model (AwaitAnswer model m waiting) inv.sending _ (
          ReceiverStep.step-Keeps model m (AwaitAnswer model m waiting) s.mem inv.sending
            inv.receiving s.rx inv.agree inv.receives),
    )

true≢false : ¬ (true ≡ false)
true≢false e = cc

module _ {T : Type 0} where
  -- Where the message is while the channel lives, by what the sender's thread was told: with the
  -- receiver's thread, or in the channel.
  abbrev pub IsKept : T → SenderResult T → List T → Slot T → Type 0
  IsKept m delivered ns slot = ((ns ≡ []) × (slot ≡ init m)) ⊎ ((ns ≡ m ∷ []) × (slot ≡ uninit))
  IsKept m (refused n) ns slot = ⊥
  IsKept m gone ns slot = (ns ≡ []) × (slot ≡ uninit)

  abbrev pub Awaited : T → SenderResult T → Bool → List T → Memory T → Type 0
  Awaited m r true ns mem = Got m r recv ns × IsReclaimed mem
  Awaited m r false ns mem = IsKept m r ns mem.message × (mem.freed ≡ false)

  module _ (model : Model) (m : T) (mem : Memory T) where
    -- By whether the message was sent.
    abbrev Keeps : Bool → List T → Type 0
    Keeps b ns =
        (mem.freed ≡ false)
        × (((ns ≡ []) × (mem.message ≡ (if b then init m else uninit)))
            ⊎ ((ns ≡ m ∷ []) × (b ≡ true) × (mem.message ≡ uninit)))

    in_channel :
        (b : Bool) (ρ : ReceiverPhase)
        → Agree m (finished b) ρ mem
        → Awaits model m waiting false [] ρ
        → Keeps b []
    in_channel b idle a h = (a.0.live, inl (refl, a.0.message_is))
    in_channel b (receiving w awake seen) a h = (a.0.0.live, inl (refl, a.0.0.message_is))
    in_channel b (got s waker y visible) a h =
        (a.0.live, inl (refl, a.0.message_is ∙ ap (λ x. if x then init m else uninit) (sym a.4)))
    in_channel b (over sent s waker y) a h = (
      a.0.live,
      inl (refl, a.0.message_is ∙ ap (λ x. if x then init m else uninit) (sym (a.3 ∙ h.1))),
    )
    in_channel b _ a h = elim h.0 [ ]

    taken :
        (b : Bool) (n : T) (ρ : ReceiverPhase)
        → Agree m (finished b) ρ mem
        → Awaits model m waiting false (n ∷ []) ρ
        → Keeps b (n ∷ [])
    taken b n (over sent s waker y) a h =
        (a.0.live, inr (ap (λ x. x ∷ []) h.0, a.3 ∙ h.2, a.0.message_is))
    taken b n _ a h = elim h.2 [ ]

    finished-Keeps :
        (b : Bool) (ns : List T) (ρ : ReceiverPhase)
        → Agree m (finished b) ρ mem
        → Awaits model m waiting false ns ρ
        → Keeps b ns
    finished-Keeps b [] ρ a h = in_channel b ρ a h
    finished-Keeps b (n ∷ []) ρ a h = taken b n ρ a h
    finished-Keeps b (n ∷ n' ∷ ns) ρ a h = elim h [ ]

    -- A sender that frees the channel finds it dropped.
    never_released :
        (ns : List T) (ρ : ReceiverPhase)
        → Agree m SenderPhase.released ρ mem
        → ¬ Awaits model m waiting false ns ρ
    never_released [] dropped a h = h.0
    never_released (n ∷ []) dropped a h = h.2
    never_released (n ∷ n' ∷ ns) ρ a h = h
    never_released ns _ a h = elim a [ ]

    sent-Awaited : (ns : List T) → Keeps true ns → Awaited m delivered false ns mem
    sent-Awaited ns (live, inl kept) = (inl kept, live)
    sent-Awaited ns (live, inr (got_it, e, empty)) = (inr (got_it, empty), live)

    unsent-Awaited : (ns : List T) → Keeps false ns → Awaited m gone false ns mem
    unsent-Awaited ns (live, inl kept) = (kept, live)
    unsent-Awaited ns (live, inr (got_it, e, empty)) = elim (true≢false (sym e)) [ ]

    answers-Awaited :
        (r : SenderResult T) (b : Bool) (ns : List T) (σ : SenderPhase) (ρ : ReceiverPhase)
        → Agree m σ ρ mem
        → SenderAnswer m r σ
        → Awaits model m waiting b ns ρ
        → Awaited m r b ns mem
    answers-Awaited r true ns σ ρ a g h = answers-Got model m mem r recv ns σ ρ a g h
    answers-Awaited delivered false ns σ ρ a g h =
        sent-Awaited ns (finished-Keeps true ns ρ (subst (λ x. Agree m x ρ mem) g a) h)
    answers-Awaited (refused n) false ns σ ρ a g h =
        elim (never_released ns ρ (subst (λ x. Agree m x ρ mem) g.1 a) h) [ ]
    answers-Awaited gone false ns (finished sent) ρ a g h =
        unsent-Awaited ns
          (finished-Keeps false ns ρ (subst (λ x. Agree m (finished x) ρ mem) g a) h)
    answers-Awaited gone false ns SenderPhase.released ρ a g h = elim (never_released ns ρ a h) [ ]
    answers-Awaited gone false ns _ ρ a g h = elim g [ ]

-- When the sender's thread is through, and the receiver was called, made a future, and the future
-- polled with any contexts and tested in any order. If the future was ready, the receiver's thread
-- got the message exactly once, over all its calls and the future, when `send` answered `Ok`, and
-- nothing when the sender was dropped; the channel was freed and nothing leaked. If the future was
-- not ready, the channel was not freed, and the message that was sent is either with the receiver's
-- thread, once, or still in the channel, never both. `send` has not failed. Calls of the receiver
-- with a time limit are only covered under `interleaving`.
pub awaited-Awaited :
    {T : Type 0} (model : Model) (m : T) (clock tests fuel : ℕ) (u : SenderUse T)
    (cs : List ReceiverCall) (fs : List FutureCall) (s : System T (SenderResult T) (AwaitResult T))
    (r : SenderResult T) (a : AwaitResult T)
    → Sending m u
    → AllPermitted model cs
    → Reach model (awaited clock tests fuel u cs fs) s
    → s.tx ≡ ret r
    → s.rx ≡ ret a
    → Awaited m r a.is_ready a.messages s.mem
awaited-Awaited model m clock tests fuel u cs fs s r a same h reach e e' =
    let inv = awaited-Inv model m clock tests fuel u cs fs same h reach in
    answers-Awaited model m s.mem r a.is_ready a.messages inv.sending inv.receiving inv.agree
      (subst (Sends m (SenderAnswer m) inv.sending) e inv.sends)
      (subst (Receives model m (AwaitAnswer model m waiting) inv.receiving) e' inv.receives)
