-- ===== src/Delivery/WaitFree.antt =====
-- The methods of src/sender.rs and of `SendError` of src/errors.rs come to an end by themselves.
use oneshot.Prelude.{ℕ, zero, suc, ◌+◌, ◌≡◌, ◌≤◌, refl, ap, ◌∙◌, subst, List, arith}
use oneshot.Memory.{Memory, Model}
use oneshot.Memory.HappensBefore.{sender}
use oneshot.Program.{Program, ret}
use oneshot.Machine.{Outcome, running, returned, step, System, Reach, later, sender_step}
use oneshot.Machine.Effects.{Within, Within-mono, Leaves, Within-Leaves}
use oneshot.Machine.Schedule.{sender_turns, after, sent-turns, ret-sender_turns}
use oneshot.Machine.Counting.{sender_effects, sender_effects-Within}
use oneshot.Machine.Endings.{returned-ret}
use oneshot.Soundness.System.{IsFree}
use oneshot.Delivery.{clients}
use oneshot.Delivery.Safety.{clients-IsSound}
use oneshot.Client.Calls.{Allowed}
use oneshot.Client.Sending.{Sending}
use oneshot.Sender
use oneshot.Client.{
  ErrorUse, unwrapped, discarded, SenderUse, sends, drops, SenderResult, use_error, use_sender,
  sender_client, ReceiverCall, ReceiverEnd,
}

abbrev bound : ℕ → ℕ
bound zero = 5
bound (suc tests) = suc (bound tests)

bound-+ : (tests : ℕ) → bound tests ≡ tests + 5
bound-+ zero = refl
bound-+ (suc tests) = ap suc (bound-+ tests) ∙ omega arith

module _ (T : Type 0) where
  use_error-Within : (e : ErrorUse) → Within 3 (use_error {T = T} e)
  unfolding use_error Sender.into_inner Sender.as_inner Sender.drop_error
  use_error-Within unwrapped = ground arith
  use_error-Within discarded = ground arith

  use_sender-Within : (u : SenderUse T) → Within 5 (use_sender u)
  unfolding use_sender Sender.send Sender.drop
  use_sender-Within (sends m e) = ground (arith, use_error-Within e)
  use_sender-Within drops = ground arith

  sender_client-Within :
      (tests : ℕ) (u : SenderUse T) → Within (bound tests) (sender_client tests u)
  unfolding sender_client Sender.is_closed
  sender_client-Within zero u = use_sender-Within u
  sender_client-Within (suc tests) u = λ v. sender_client-Within tests u

suc≢zero : (k : ℕ) → ¬ (suc k ≡ 0)
suc≢zero k e = omega arith

-- A sender whose next effect always succeeds and does not wait comes to its end in its own turns.
module _ {T A B : Type 0} (model : Model) (first : System T A B)
    (free : (s : System T A B) → Reach model first s → IsFree (step model sender s.tx s.mem)) where
  abbrev Returns : ℕ → System T A B → Type 0
  Returns n s = (a : A) × ((after model (sender_turns n) s).tx ≡ ret a)

  returned-Returns : (n : ℕ) (s : System T A B) (a : A) → s.tx ≡ ret a → Returns n s
  returned-Returns n s a e = (a, ap (λ u. u.tx) (ret-sender_turns model n s e) ∙ e)

  shorter :
      (n : ℕ) (s : System T A B) (mem : Memory T) (p : Program T A)
      → Within n s.tx
      → step model sender s.tx s.mem ≡ running mem p
      → (k : ℕ) × (suc k ≡ n) × Within k p
  shorter n s mem p h e = subst (Leaves _) e (Within-Leaves model sender s.mem n s.tx h)

  step-Returns :
      (n : ℕ) (s : System T A B) (o : Outcome T A)
      → step model sender s.tx s.mem ≡ o
      → IsFree o
      → ((mem : Memory T) (p : Program T A)
          → step model sender s.tx s.mem ≡ running mem p
          → Returns n s)
      → Returns n s
  step-Returns n s (returned a) e h go =
      returned-Returns n s a (returned-ret model sender s.mem a s.tx e)
  step-Returns n s (running mem p) e h go = go mem p e
  step-Returns n s _ e h go = elim h [ ]

  runs-Returns : (n : ℕ) (s : System T A B) → Reach model first s → Within n s.tx → Returns n s
  runs-Returns zero s r h =
      step-Returns zero s (step model sender s.tx s.mem) refl (free s r)
        λ mem p e. let (k, one, rest) = shorter zero s mem p h e in elim (suc≢zero k one) [ ]
  runs-Returns (suc n) s r h =
      step-Returns (suc n) s (step model sender s.tx s.mem) refl (free s r) λ mem p e.
        let (k, one, rest) = shorter (suc n) s mem p h e in
        let same : k ≡ n = omega arith in
        let (a, ended) =
          runs-Returns n (record { mem = mem; tx = p; rx = s.rx }) (later r (sender_step e refl))
            (subst (λ x. Within x p) same rest) in
        (a, ap (λ u. u.tx) (sent-turns model n s e) ∙ ended)

-- A thread that tests the sender `tests` times with `is_closed`, then sends a message and takes care
-- of the error, or drops the sender, waits for nobody: from every state that the two threads can
-- reach, it comes to its end in `tests + 5` turns of its own, though the receiver's thread does
-- nothing any more, wherever that one stands; and in no run has it more effects on the channel than
-- these. Waking the receiver is one effect here, whatever it costs a thread library or an executor.
-- Under `release_acquire` a receiver that is dropped makes no call with a time limit before.
pub sender_client-wait_free :
    {T : Type 0} (model : Model) (m : T) (clock tests fuel : ℕ) (u : SenderUse T)
    (cs : List ReceiverCall) (end : ReceiverEnd) (s : System T (SenderResult T) (List T))
    → Sending m u
    → Allowed model cs end
    → (r : Reach model (clients clock tests fuel u cs end) s)
    → (sender_effects model r ≤ tests + 5)
      × (a : SenderResult T) × ((after model (sender_turns (tests + 5)) s).tx ≡ ret a)
sender_client-wait_free {T} model m clock tests fuel u cs end s same h r =
    let (k, e, within) =
      sender_effects-Within model (bound tests) r (sender_client-Within T tests u) in
    let b = bound-+ tests in
    let (a, ended) =
      runs-Returns model (clients clock tests fuel u cs end)
        (λ v reach. (clients-IsSound model m clock tests fuel u cs end v same h reach).0)
        (tests + 5) s r (Within-mono k (tests + 5) s.tx (omega arith) within) in
    (omega arith, a, ended)
