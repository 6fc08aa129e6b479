-- ===== src/Delivery/Settlement.antt =====
-- What the two threads have when both are through: the message, and the channel's allocation.
use oneshot.Prelude.{
  ℕ, ◌≡◌, ◌⊎◌, inl, inr, refl, sym, ap, subst, ◌∙◌, Bool, true, false, List, [], ◌∷◌,
}
use oneshot.Memory.{Memory, Model}
use oneshot.Program.{ret}
use oneshot.Machine.{System, Reach}
use oneshot.Protocol.Phases.{SenderPhase, finished, ReceiverPhase, dropped}
use oneshot.Protocol.Agreement.{Agree}
use oneshot.Protocol.SenderRules.{Sends}
use oneshot.Protocol.ReceiverRules.{Receives}
use oneshot.Conformance.Standing.{waiting}
use oneshot.Client.{
  SenderUse, SenderResult, delivered, refused, gone, ReceiverCall, ReceiverEnd, recv, drop,
}
use oneshot.Client.Sending.{SenderAnswer, Sending}
use oneshot.Client.Calls.{Allowed}
use oneshot.Client.Receiving.{ClientAnswer}
use oneshot.Delivery.{clients, clients-Inv}

true≢false : ¬ (true ≡ false)
true≢false e = cc

recv≢drop : ¬ (recv ≡ drop)
recv≢drop e = cc

module _ {T : Type 0} where
  -- What the receiver's thread got, by what the sender's thread was told.
  abbrev pub Got : T → SenderResult T → ReceiverEnd → List T → Type 0
  Got m delivered recv ns = ns ≡ m ∷ []
  Got m delivered drop ns = (ns ≡ []) ⊎ (ns ≡ m ∷ [])
  Got m (refused n) recv ns = ⊥
  Got m (refused n) drop ns = (n ≡ m) × (ns ≡ [])
  Got m gone end ns = ns ≡ []

  -- The channel was freed, and nothing was left in it.
  abbrev pub IsReclaimed : Memory T → Type 0
  IsReclaimed mem = (mem.freed ≡ true) × (mem.leaks ≡ 0)

  module _ (model : Model) (m : T) (mem : Memory T) where
    reclaimed :
        (sent b : Bool) → Agree m (finished sent) (ReceiverPhase.released b) mem → IsReclaimed mem
    reclaimed sent b a = (a.0.gone, a.0.tight)

    delivered-Got :
        (end : ReceiverEnd) (ns : List T) (ρ : ReceiverPhase)
        → Agree m (finished true) ρ mem
        → ClientAnswer model m end waiting ns ρ
        → Got m delivered end ns × IsReclaimed mem
    delivered-Got recv [] (ReceiverPhase.released sent) a h = elim (true≢false (a.1 ∙ h)) [ ]
    delivered-Got drop [] (ReceiverPhase.released sent) a h = (inl refl, reclaimed true sent a)
    delivered-Got drop [] dropped a h = elim a [ ]
    delivered-Got recv (n ∷ []) ρ a h = (
      ap (λ x. x ∷ []) h.0,
      reclaimed true true (subst (λ x. Agree m (finished true) x mem) h.2 a),
    )
    delivered-Got drop (n ∷ []) ρ a h = (
      inr (ap (λ x. x ∷ []) h.0),
      reclaimed true true (subst (λ x. Agree m (finished true) x mem) h.2 a),
    )
    delivered-Got recv [] _ a h = elim h [ ]
    delivered-Got drop [] _ a h = elim h [ ]
    delivered-Got end (n ∷ n' ∷ ns) ρ a h = elim h [ ]

    -- The sender found the receiver gone, and freed the channel.
    released-Got :
        (end : ReceiverEnd) (ns : List T) (ρ : ReceiverPhase)
        → Agree m SenderPhase.released ρ mem
        → ClientAnswer model m end waiting ns ρ
        → (end ≡ drop) × (ns ≡ []) × IsReclaimed mem
    released-Got drop [] dropped a h = (refl, refl, (a.0.gone, a.0.tight))
    released-Got recv [] dropped a h = elim h [ ]
    released-Got end (n ∷ []) ρ a h =
        elim (subst (λ x. Agree m SenderPhase.released x mem) h.2 a) [ ]
    released-Got end (n ∷ n' ∷ ns) ρ a h = elim h [ ]
    released-Got end [] _ a h = elim a [ ]

    -- The sender was dropped before the receiver.
    abandoned-Got :
        (end : ReceiverEnd) (ns : List T) (ρ : ReceiverPhase)
        → Agree m (finished false) ρ mem
        → ClientAnswer model m end waiting ns ρ
        → (ns ≡ []) × IsReclaimed mem
    abandoned-Got recv [] (ReceiverPhase.released sent) a h = (refl, reclaimed false sent a)
    abandoned-Got drop [] (ReceiverPhase.released sent) a h = (refl, reclaimed false sent a)
    abandoned-Got drop [] dropped a h = elim a [ ]
    abandoned-Got recv [] _ a h = elim h [ ]
    abandoned-Got drop [] _ a h = elim h [ ]
    abandoned-Got end (n ∷ []) ρ a h =
        elim (true≢false (sym ((subst (λ x. Agree m (finished false) x mem) h.2 a).1))) [ ]
    abandoned-Got end (n ∷ n' ∷ ns) ρ a h = elim h [ ]

    refused-Got :
        (n : T) (end : ReceiverEnd) (ns : List T)
        → n ≡ m
        → (end ≡ drop) × (ns ≡ []) × IsReclaimed mem
        → Got m (refused n) end ns × IsReclaimed mem
    refused-Got n recv ns same h = elim (recv≢drop h.0) [ ]
    refused-Got n drop ns same h = ((same, h.1), h.2)

    pub answers-Got :
        (r : SenderResult T) (end : ReceiverEnd) (ns : List T) (σ : SenderPhase) (ρ : ReceiverPhase)
        → Agree m σ ρ mem
        → SenderAnswer m r σ
        → ClientAnswer model m end waiting ns ρ
        → Got m r end ns × IsReclaimed mem
    answers-Got delivered end ns σ ρ a g h =
        delivered-Got end ns ρ (subst (λ x. Agree m x ρ mem) g a) h
    answers-Got (refused n) end ns σ ρ a g h =
        refused-Got n end ns g.0 (released-Got end ns ρ (subst (λ x. Agree m x ρ mem) g.1 a) h)
    answers-Got gone end ns (finished sent) ρ a g h =
        abandoned-Got end ns ρ (subst (λ x. Agree m (finished x) ρ mem) g a) h
    answers-Got gone end ns SenderPhase.released ρ a g h =
        let (e, none, freed) = released-Got end ns ρ a h in (none, freed)
    answers-Got gone end ns _ ρ a g h = elim g [ ]

-- When both threads are through, they agree on what became of the message `m`, the one channel was
-- freed, and no message and no waker was leaked. After `send` answered `Ok` the receiver's thread
-- got exactly `m`, once, if it ended with `recv`; if it ended with a drop it got `m` once or nothing. An error of `send`
-- gives `m` back to the sender, and then the receiver's thread ended with a drop and got nothing. After a sender that was dropped it got nothing.
-- Under `release_acquire` a receiver
-- that is dropped makes no call with a time limit before.
pub clients-Got :
    {T : Type 0} (model : Model) (m : T) (clock tests fuel : ℕ) (u : SenderUse T)
    (cs : List ReceiverCall) (end : ReceiverEnd) (s : System T (SenderResult T) (List T))
    (r : SenderResult T) (ns : List T)
    → Sending m u
    → Allowed model cs end
    → Reach model (clients clock tests fuel u cs end) s
    → s.tx ≡ ret r
    → s.rx ≡ ret ns
    → Got m r end ns × IsReclaimed s.mem
clients-Got model m clock tests fuel u cs end s r ns same h reach e e' =
    let inv = clients-Inv model m clock tests fuel u cs end same h reach in
    answers-Got model m s.mem r end ns inv.sending inv.receiving inv.agree
      (subst (Sends m (SenderAnswer m) inv.sending) e inv.sends)
      (subst (Receives model m (ClientAnswer model m end waiting) inv.receiving) e' inv.receives)
