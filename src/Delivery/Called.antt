-- ===== src/Delivery/Called.antt =====
-- A receiver of src/receiver.rs that makes any calls and then a test, up to the end of its thread.
use oneshot.Prelude.{
  ℕ, ◌+◌, ◌*◌, ◌≡◌, ◌<◌, ◌⊎◌, inl, inr, refl, subst, Bool, true, false, List, [], ◌∷◌, arith,
}
use oneshot.Memory.{Model, fresh}
use oneshot.Memory.HappensBefore.{receiver}
use oneshot.Program.{Program, ret}
use oneshot.Machine.{System, Reach, step}
use oneshot.Machine.Effects.{Lasts, Lasts-pred}
use oneshot.Machine.Schedule.{turns, after, after-Reach, Reach-trans}
use oneshot.Machine.Counting.{receiver_effects}
use oneshot.Protocol.ReceiverRules.{Receives}
use oneshot.Soundness.System.{Inv, IsSound}
use oneshot.Soundness.ReceiverStep
use oneshot.Conformance.Standing.{Standing, waiting, phase_of}
use oneshot.Client.{
  SenderUse, SenderResult, sender_client, ReceiverCall, try_recv, recv_ref, is_closed, has_message,
  recv_timeout, recv_deadline, recv, call,
}
use oneshot.Client.Answers.{answer}
use oneshot.Receiver
use oneshot.Receiver.Timed
use oneshot.Client.Sending.{SenderAnswer, Sending, sender_client-Sends}
use oneshot.Client.Available.{Receive, by_call, by_recv, receive}
use oneshot.Client.Promised.{after_calls, with_test, after_calls-Receives, Promised}
use oneshot.Promptness.{IsDone, AnyEnd, Quick, Prompt}
use oneshot.Promptness.Promised.{effects_after, after_calls-Prompt}
use oneshot.Promptness.System.{Live, Reach-Live, fresh-Live}
use oneshot.Promptness.Conclusion.{runs-Ends}
use oneshot.Delivery.Fuel.{
  Lasts-bind, call-Lasts, finish-Lasts, Lasts-fueled, recv-Lasts, recv_ref_parked-Lasts,
  recv_deadline_parked-Lasts, recv_until-Lasts, start_recv_ref-Lasts,
}
use oneshot.Delivery.Progress.{Inv-awake}
use oneshot.Delivery.Safety.{Keeps-IsSound}
use oneshot.Delivery.Termination.{length, Live-Quick}

-- The receiver's thread makes any calls, then runs `p`.
abbrev pub called :
    {T R : Type 0} (clock tests fuel : ℕ)
    → SenderUse T
    → List ReceiverCall
    → Program T R
    → System T (SenderResult T) R
called clock tests fuel u before p = record {
  mem = fresh clock;
  tx = sender_client tests u;
  rx = after_calls fuel before p;
}

module _ (T : Type 0) where
  pub receive-Lasts : (fuel : ℕ) (r : Receive) → Lasts fuel (receive {T = T} fuel r)
  receive-Lasts fuel (by_call c) = Lasts-bind fuel (call fuel c) _ (call-Lasts T fuel c) (λ o. tt)
  receive-Lasts fuel by_recv = finish-Lasts T fuel recv

module _ (T : Type 0) where
  pub answer-Lasts : (fuel : ℕ) (r : Receive) → Lasts fuel (answer {T = T} fuel r)
  unfolding Receiver.try_recv Receiver.is_closed Receiver.has_message Receiver.recv_ref
      Timed.recv_timeout Timed.recv_deadline
  answer-Lasts fuel (by_call try_recv) = ground arith
  answer-Lasts fuel (by_call recv_ref) =
      Lasts-bind fuel (Receiver.recv_ref fuel) _
        (start_recv_ref-Lasts T fuel _ (Receiver.recv_ref_parked fuel)
          (recv_ref_parked-Lasts T fuel))
        (λ r. tt)
  answer-Lasts fuel (by_call is_closed) = λ v. tt
  answer-Lasts fuel (by_call has_message) = λ v. tt
  answer-Lasts fuel (by_call (recv_timeout last_instant delay)) =
      Lasts-bind fuel (Timed.recv_timeout fuel last_instant delay) _
        (λ t.
          Lasts-pred fuel (Timed.recv_until {T = T} fuel (Timed.checked_add last_instant t delay))
            (recv_until-Lasts T fuel (Timed.checked_add last_instant t delay)))
        (λ r. tt)
  answer-Lasts fuel (by_call (recv_deadline deadline)) =
      Lasts-bind fuel (Timed.recv_deadline fuel deadline) _
        (start_recv_ref-Lasts T fuel _ (Timed.recv_deadline_parked fuel deadline)
          (recv_deadline_parked-Lasts T fuel deadline))
        (λ r. tt)
  answer-Lasts fuel by_recv = Lasts-bind fuel (Receiver.recv fuel) _ (recv-Lasts T fuel) (λ r. tt)

pub effects_after-length : (n : ℕ) (cs : List ReceiverCall) → effects_after n cs ≡ 8 * length cs + n
effects_after-length n [] = omega arith
effects_after-length n (c ∷ cs) = let e = effects_after-length n cs in omega arith

module _ {T : Type 0} where
  pub after_calls-Lasts :
      {R : Type 0} (fuel : ℕ) (p : Program T R)
      → Lasts fuel p
      → (cs : List ReceiverCall) → Lasts fuel (after_calls fuel cs p)
  unfolding after_calls
  after_calls-Lasts fuel p h [] = h
  after_calls-Lasts fuel p h (c ∷ cs) =
      Lasts-bind fuel (call fuel c) _ (call-Lasts T fuel c) (λ o. after_calls-Lasts fuel p h cs)

  pub with_test-Lasts :
      {X : Type 0} (fuel : ℕ) (test : Program T Bool) (p : Program T X)
      → Lasts fuel test
      → Lasts fuel p
      → Lasts fuel (with_test test p)
  with_test-Lasts fuel test p h k = Lasts-bind fuel test _ h (λ b. Lasts-bind fuel p _ k (λ x. tt))

module _ {T X : Type 0} (model : Model) (m : T) (clock tests fuel : ℕ) (u : SenderUse T)
    (before : List ReceiverCall) (P : X → Type 0) (p : Program T (Bool × X)) (n : ℕ)
    (same : Sending m u)
    (promised : (st : Standing) → Receives model m (Promised model m P) (phase_of st) p)
    (prompt : Prompt AnyEnd IsDone n p) (lasts : Lasts fuel p) where
  abbrev first : System T (SenderResult T) (Bool × X)
  first = called clock tests fuel u before p

  called-Live :
      {s : System T (SenderResult T) (Bool × X)}
      → Reach model first s
      → Live model m (SenderAnswer m) (Promised model m P) (effects_after n before) s
  called-Live r =
      let Q = Promised model m P in
      Reach-Live model m (SenderAnswer m) Q (effects_after n before) r (
        fresh-Live model m (SenderAnswer m) Q (effects_after n before) clock (sender_client tests u)
          (after_calls fuel before p) (sender_client-Sends m tests false u same)
          (after_calls-Receives model m Q fuel p promised before waiting)
          (after_calls-Prompt fuel n p prompt before))

  called-Inv :
      {s : System T (SenderResult T) (Bool × X)}
      → Reach model first s
      → Inv model m (SenderAnswer m) (Promised model m P) s
  called-Inv r =
      let live = called-Live r in
      record {
        sending = live.sending;
        receiving = live.receiving;
        agree = live.agree;
        sends = live.sends;
        receives = live.receives;
      }

  called-IsSound :
      (s : System T (SenderResult T) (Bool × X))
      → Reach model first s
      → IsSound (step model receiver s.rx s.mem)
  called-IsSound s r =
      let inv = called-Inv r in
      Keeps-IsSound m model (Promised model m P) inv.sending _ (
        ReceiverStep.step-Keeps model m (Promised model m P) s.mem inv.sending inv.receiving s.rx
          inv.agree inv.receives)

  -- What was promised, of a thread that is through.
  kept :
      (b : Bool) (x : X) (s : System T (SenderResult T) (Bool × X))
      → Reach model first s
      → s.rx ≡ ret (b, x)
      → (b ≡ false) ⊎ P x
  kept false x s r e = inl refl
  kept true x s r e =
      let inv = called-Inv r in
      inr (subst (Receives model m (Promised model m P) inv.receiving) e inv.receives)

  pub called-Ends :
      (s : System T (SenderResult T) (Bool × X)) (a : SenderResult T) (r : Reach model first s)
      → s.tx ≡ ret a
      → receiver_effects model r + (8 * length before + n) < fuel
      → (b : Bool) × (x : X) × ((after model (turns (8 * length before + n)) s).rx ≡ ret (b, x))
        × ((b ≡ false) ⊎ P x)
  called-Ends s a r ended enough =
      let k = 8 * length before + n in
      let (quick, small) =
        Live-Quick model m (Promised model m P) (effects_after n before) s a (called-Live r)
          ended in
      let ((b, x), tx_ended, rx_ended) =
        runs-Ends model first a fuel called-IsSound
          (λ v reach. Inv-awake model m (Promised model m P) v a (called-Inv reach))
          (λ v reach. Lasts-fueled model fuel first v reach (after_calls-Lasts fuel p lasts before))
          k s r (subst (λ j. Quick AnyEnd j s.mem.state s.rx) (effects_after-length n before) quick)
          small ended enough in
      (
        b,
        x,
        rx_ended,
        kept b x (after model (turns k) s) (Reach-trans model r (after-Reach model (turns k) s))
            rx_ended,
      )
