-- ===== src/Delivery/Polling.antt =====
-- A sender, and a future that is polled until it is ready.
use oneshot.Prelude.{
  ℕ, zero, suc, ◌≡◌, refl, subst, Bool, true, false, List, [], ◌∷◌, Result, ok, err,
}
use oneshot.Errors.{RecvError}
use oneshot.Memory.{Memory, Model, fresh}
use oneshot.Program.{ret}
use oneshot.Channel.{Poll, ready, pending}
use oneshot.Waker.{ReceiverWaker, Context, task, task_waker}
use oneshot.Machine.{System, Reach}
use oneshot.Protocol.Phases.{SenderPhase, finished, ReceiverPhase, receiving, dropped}
use oneshot.Protocol.Agreement.{Agree, has_task, Woken}
use oneshot.Protocol.SenderRules.{Sends}
use oneshot.Protocol.ReceiverRules.{Receives}
use oneshot.Soundness.System.{Inv, Reach-Inv, fresh-Inv}
use oneshot.Conformance.Polling.{IsRegistered}
use oneshot.Client.{SenderUse, SenderResult, delivered, refused, gone, sender_client, polls}
use oneshot.Client.Sending.{SenderAnswer, Sending, sender_client-Sends}
use oneshot.Client.Polling.{AllContexts, PollsAnswer, polls-Receives}
use oneshot.Delivery.Settlement.{IsReclaimed}

abbrev pub pollers :
    {T : Type 0} (clock tests fuel : ℕ)
    → SenderUse T
    → Context
    → List Context
    → System T (SenderResult T) (Poll (Result T RecvError))
pollers clock tests fuel u cx cxs = record {
  mem = fresh clock;
  tx = sender_client tests u;
  rx = polls fuel cx cxs;
}

module _ {T : Type 0} (model : Model) (m : T) (P : ReceiverWaker → Type 0) where
  pollers-Inv :
      (clock tests fuel : ℕ) (u : SenderUse T) (cx : Context) (cxs : List Context)
      {s : System T (SenderResult T) (Poll (Result T RecvError))}
      → Sending m u
      → P (task_waker cx)
      → AllContexts model m P cxs
      → Reach model (pollers clock tests fuel u cx cxs) s
      → Inv model m (SenderAnswer m) (PollsAnswer model m P) s
  pollers-Inv clock tests fuel u cx cxs same h hs r =
      Reach-Inv model m (SenderAnswer m) (PollsAnswer model m P) r (
        fresh-Inv model m (SenderAnswer m) (PollsAnswer model m P) clock (sender_client tests u)
          (polls fuel cx cxs) (sender_client-Sends m tests false u same)
          (polls-Receives model m P fuel cx cxs h hs))

abbrev pub again : ℕ → Context → List Context
again zero cx = []
again (suc n) cx = cx ∷ again n cx

abbrev IsOf : Context → ReceiverWaker → Type 0
IsOf cx w = w ≡ task cx.waker

module _ {T : Type 0} where
  -- What the task has, by what the sender's thread was told: the message or the error, and a freed
  -- channel; or it was woken after the last poll.
  abbrev pub Polled : T → Context → SenderResult T → Poll (Result T RecvError) → Memory T → Type 0
  Polled m cx (refused n) x mem = ⊥
  Polled m cx _ pending mem = (has_task cx.waker mem.woken ≡ true) × (mem.freed ≡ false)
  Polled m cx delivered (ready (ok n)) mem = (n ≡ m) × IsReclaimed mem
  Polled m cx gone (ready (err e)) mem = IsReclaimed mem
  Polled m cx _ _ mem = ⊥

  again-AllContexts :
      (model : Model) (m : T) (n : ℕ) (cx : Context) → AllContexts model m (IsOf cx) (again n cx)
  unfolding task_waker
  again-AllContexts model m zero cx = tt
  again-AllContexts model m (suc n) cx = (refl, again-AllContexts model m n cx)

  module _ (model : Model) (m : T) (cx : Context) (mem : Memory T) where
    pending-Polled :
        (sent : Bool) (r : SenderResult T) (ρ : ReceiverPhase)
        → Agree m (finished sent) ρ mem
        → SenderAnswer m r (finished sent)
        → IsRegistered model m (IsOf cx) ρ
        → Polled m cx r pending mem
    pending-Polled sent (refused n) ρ a g h = cc
    pending-Polled sent delivered (receiving w false seen) a g h =
        (subst (λ v. Woken v mem) h a.1, a.0.0.live)
    pending-Polled sent gone (receiving w false seen) a g h =
        (subst (λ v. Woken v mem) h a.1, a.0.0.live)
    pending-Polled sent r _ a g h = elim h [ ]

    ok-Polled :
        (sent : Bool) (r : SenderResult T) (n : T)
        → Agree m (finished sent) (ReceiverPhase.released true) mem
        → SenderAnswer m r (finished sent)
        → n ≡ m
        → Polled m cx r (ready (ok n)) mem
    ok-Polled sent delivered n a g same = (same, (a.0.gone, a.0.tight))
    ok-Polled sent (refused n') n a g same = cc
    ok-Polled sent gone n a g same = cc

    err-Polled :
        (sent : Bool) (r : SenderResult T) (e : RecvError)
        → Agree m (finished sent) (ReceiverPhase.released false) mem
        → SenderAnswer m r (finished sent)
        → Polled m cx r (ready (err e)) mem
    err-Polled sent delivered e a g = cc
    err-Polled sent (refused n) e a g = cc
    err-Polled sent gone e a g = (a.0.gone, a.0.tight)

    finished-Polled :
        (sent : Bool) (r : SenderResult T) (x : Poll (Result T RecvError)) (ρ : ReceiverPhase)
        → Agree m (finished sent) ρ mem
        → SenderAnswer m r (finished sent)
        → PollsAnswer model m (IsOf cx) x ρ
        → Polled m cx r x mem
    finished-Polled sent r pending ρ a g h = pending-Polled sent r ρ a g h
    finished-Polled sent r (ready (ok n)) ρ a g h =
        ok-Polled sent r n (subst (λ x. Agree m (finished sent) x mem) h.1 a) g h.0
    finished-Polled sent r (ready (err e)) ρ a g h =
        err-Polled sent r e (subst (λ x. Agree m (finished sent) x mem) h a) g

    -- The sender never finds the receiver gone.
    released-Polled :
        (r : SenderResult T) (x : Poll (Result T RecvError)) (ρ : ReceiverPhase)
        → Agree m SenderPhase.released ρ mem
        → PollsAnswer model m (IsOf cx) x ρ
        → Polled m cx r x mem
    released-Polled r pending dropped a h = elim h [ ]
    released-Polled r (ready (ok n)) dropped a h = cc
    released-Polled r (ready (err e)) dropped a h = cc
    released-Polled r x _ a h = elim a [ ]

    answers-Polled :
        (r : SenderResult T) (x : Poll (Result T RecvError)) (σ : SenderPhase) (ρ : ReceiverPhase)
        → Agree m σ ρ mem
        → SenderAnswer m r σ
        → PollsAnswer model m (IsOf cx) x ρ
        → Polled m cx r x mem
    answers-Polled r x (finished sent) ρ a g h = finished-Polled sent r x ρ a g h
    answers-Polled r x SenderPhase.released ρ a g h = released-Polled r x ρ a h
    answers-Polled delivered x _ ρ a g h = cc
    answers-Polled (refused n) x _ ρ a g h = cc
    answers-Polled gone x _ ρ a g h = elim g [ ]

-- When the sender's thread is through and the task has polled its future with the context `cx`, up to
-- `n + 1` times until it is ready: after `Ready(Ok(n))` the sender's `send` has succeeded and `n` is its message,
-- after `Ready(Err)` the sender was dropped, in both cases the channel was freed and nothing leaked;
-- and after `Pending` the task's waker has been woken. The sender never finds the receiver gone.
pub pollers-Polled :
    {T : Type 0} (model : Model) (m : T) (clock tests fuel n : ℕ) (u : SenderUse T) (cx : Context)
    (s : System T (SenderResult T) (Poll (Result T RecvError))) (r : SenderResult T)
    (x : Poll (Result T RecvError))
    → Sending m u
    → Reach model (pollers clock tests fuel u cx (again n cx)) s
    → s.tx ≡ ret r
    → s.rx ≡ ret x
    → Polled m cx r x s.mem
unfolding task_waker
pollers-Polled model m clock tests fuel n u cx s r x same reach e e' =
    let inv =
      pollers-Inv model m (IsOf cx) clock tests fuel u cx (again n cx) same refl
        (again-AllContexts model m n cx) reach in
    answers-Polled model m cx s.mem r x inv.sending inv.receiving inv.agree
      (subst (Sends m (SenderAnswer m) inv.sending) e inv.sends)
      (subst (Receives model m (PollsAnswer model m (IsOf cx)) inv.receiving) e' inv.receives)
