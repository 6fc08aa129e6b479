-- ===== src/Client/Sending.antt =====
-- The uses of src/sender.rs under the rules of the protocol.
use oneshot.Prelude.{ℕ, zero, suc, ◌≡◌, refl, sym, subst, Bool, true, false, Result, ok, err}
use oneshot.Program.{Program, ret, ◌>>=◌}
use oneshot.Protocol.Phases.{SenderPhase, alive, finished, owner, released}
use oneshot.Protocol.SenderRules.{Sends}
use oneshot.Protocol.SenderSequence.{Sends-bind}
use oneshot.Sender.{SendError}
use oneshot.Sender
use oneshot.Conformance.Sending.{
  SendAnswer, send-Sends, IsClosedAnswer, is_closed-Sends, DropAnswer, drop-Sends,
}
use oneshot.Client.{
  ErrorUse, unwrapped, discarded, SenderUse, sends, drops, SenderResult, delivered, refused, gone,
  use_error, after_send, use_sender, sender_client,
}

module _ {T : Type 0} (m : T) where
  -- What the sender's thread ends with.
  abbrev pub SenderAnswer : SenderResult T → SenderPhase → Type 0
  SenderAnswer delivered σ = σ ≡ finished true
  SenderAnswer (refused n) σ = (n ≡ m) × (σ ≡ released)
  SenderAnswer gone (finished sent) = sent ≡ false
  SenderAnswer gone released = Unit
  SenderAnswer gone _ = ⊥

  -- The message of a use is `m`.
  abbrev pub Sending : SenderUse T → Type 0
  Sending (sends n e) = n ≡ m
  Sending drops = Unit

  use_error-Sends : (e : ErrorUse) → Sends m SenderAnswer (owner true) (use_error e)
  unfolding use_error
  use_error-Sends unwrapped = (refl, refl)
  use_error-Sends discarded = (refl, refl)

  after_send-Sends :
      (closed : Bool) (e : ErrorUse) (r : Result (Unit {0}) SendError) (σ : SenderPhase)
      → SendAnswer m closed r σ
      → Sends m SenderAnswer σ (after_send e r)
  after_send-Sends closed e (ok _) σ h = h.1
  after_send-Sends closed e (err _) σ h =
      subst (λ x. Sends m SenderAnswer x (use_error e)) (sym h) (use_error-Sends e)

  after_drop-Sends :
      (closed : Bool) (r : Unit {0}) (σ : SenderPhase)
      → DropAnswer m closed r σ
      → Sends m SenderAnswer σ (ret gone)
  after_drop-Sends closed r (finished sent) h = h.1
  after_drop-Sends closed r released h = tt
  after_drop-Sends closed r _ h = elim h [ ]

  use_sender-Sends :
      (closed : Bool) (u : SenderUse T)
      → Sending u
      → Sends m SenderAnswer (alive false closed) (use_sender u)
  unfolding use_sender
  use_sender-Sends closed (sends n e) same =
      subst (λ x. Sends m SenderAnswer (alive false closed) (Sender.send x >>= after_send e))
        (sym same)
        (Sends-bind m (SendAnswer m closed) SenderAnswer (after_send e) (after_send-Sends closed e)
          (alive false closed) (Sender.send m) (send-Sends m closed))
  use_sender-Sends closed drops same =
      Sends-bind m (DropAnswer m closed) SenderAnswer _ (after_drop-Sends closed)
        (alive false closed) Sender.drop (drop-Sends m closed)

  tested-Sends :
      (closed : Bool) (p : Program T (SenderResult T))
      → ((c : Bool) → Sends m SenderAnswer (alive false c) p)
      → (b : Bool) (σ : SenderPhase) → IsClosedAnswer m closed b σ
      → Sends m SenderAnswer σ p
  tested-Sends closed p h true σ a = subst (λ x. Sends m SenderAnswer x p) (sym a) (h true)
  tested-Sends closed p h false σ a = subst (λ x. Sends m SenderAnswer x p) (sym a.1) (h false)

  pub sender_client-Sends :
      (tests : ℕ) (closed : Bool) (u : SenderUse T)
      → Sending u
      → Sends m SenderAnswer (alive false closed) (sender_client tests u)
  unfolding sender_client
  sender_client-Sends zero closed u same = use_sender-Sends closed u same
  sender_client-Sends (suc tests) closed u same =
      Sends-bind m (IsClosedAnswer m closed) SenderAnswer _
        (tested-Sends closed (sender_client tests u) (λ c. sender_client-Sends tests c u same))
        (alive false closed) Sender.is_closed (is_closed-Sends m closed)
