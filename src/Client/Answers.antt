-- ===== src/Client/Answers.antt =====
-- The methods of src/receiver.rs with all that they answer, called on a receiver whose channel was
-- found closed.
use oneshot.Prelude.{ℕ, ◌≡◌, refl, Bool, true, false, Result, ok, err}
use oneshot.Errors.{RecvError, recv_error, TryRecvError, RecvTimeoutError, timeout}
use oneshot.Memory.{Model, interleaving}
use oneshot.Program.{Program, ret, ◌>>=◌}
use oneshot.Protocol.Phases.{ReceiverPhase, Sync}
use oneshot.Protocol.ReceiverRules.{Receives}
use oneshot.Protocol.ReceiverSequence.{Receives-bind}
use oneshot.Conformance.Standing.{Standing, ended, phase_of, interleaving-IsSettled}
use oneshot.Conformance.Receiving.{
  TryRecvAnswer, try_recv-Receives, RecvRefAnswer, recv_ref-Receives, RecvAnswer, recv-Receives,
  IsClosedAnswer, is_closed-Receives, HasMessageAnswer, has_message-Receives,
}
use oneshot.Conformance.Timed.{RecvTimeoutAnswer, recv_deadline-Receives, recv_timeout-Receives}
use oneshot.Receiver
use oneshot.Receiver.Timed
use oneshot.Client.{try_recv, recv_ref, is_closed, has_message, recv_timeout, recv_deadline}
use oneshot.Client.Available.{Receive, by_call, by_recv}

pub data Answered (T : Type 0) : Type 0 where
  tried : Result T TryRecvError → Answered T
  received : Result T RecvError → Answered T
  timed : Result T RecvTimeoutError → Answered T
  closed found : Bool → Answered T

module _ {T : Type 0} where
  abbrev pub answer : (fuel : ℕ) → Receive → Program T (Answered T)
  answer fuel (by_call try_recv) = Receiver.try_recv >>= λ r. ret (tried r)
  answer fuel (by_call recv_ref) = Receiver.recv_ref fuel >>= λ r. ret (received r)
  answer fuel (by_call is_closed) = Receiver.is_closed >>= λ b. ret (closed b)
  answer fuel (by_call has_message) = Receiver.has_message >>= λ b. ret (found b)
  answer fuel (by_call (recv_timeout last_instant delay)) =
      Timed.recv_timeout fuel last_instant delay >>= λ r. ret (timed r)
  answer fuel (by_call (recv_deadline deadline)) =
      Timed.recv_deadline fuel deadline >>= λ r. ret (timed r)
  answer fuel by_recv = Receiver.recv fuel >>= λ r. ret (received r)

  -- What a closed channel answers.
  abbrev pub refusal : Receive → Answered T
  refusal (by_call try_recv) = tried (err TryRecvError.disconnected)
  refusal (by_call recv_ref) = received (err recv_error)
  refusal (by_call is_closed) = closed true
  refusal (by_call has_message) = found false
  refusal (by_call (recv_timeout last_instant delay)) = timed (err RecvTimeoutError.disconnected)
  refusal (by_call (recv_deadline deadline)) = timed (err RecvTimeoutError.disconnected)
  refusal by_recv = received (err recv_error)

  module _ (model : Model) (m : T) where
    module _ (sent : Bool) (y : Sync) where
      abbrev shut : Standing
      shut = ended sent y

      abbrev pub Refuses : Receive → Answered T → ReceiverPhase → Type 0
      Refuses r x ρ = x ≡ refusal r

      tried-refusal :
          (r : Result T TryRecvError) (ρ : ReceiverPhase)
          → TryRecvAnswer interleaving m shut r ρ
          → tried r ≡ tried (err TryRecvError.disconnected)
      tried-refusal (ok n) ρ h = elim h.1 [ ]
      tried-refusal (err TryRecvError.empty) ρ h = elim h.0 [ ]
      tried-refusal (err TryRecvError.disconnected) ρ h = refl

      recv_ref-refusal :
          (r : Result T RecvError) (ρ : ReceiverPhase)
          → RecvRefAnswer interleaving m shut r ρ
          → received r ≡ received (err recv_error)
      recv_ref-refusal (ok n) ρ h = elim h.1 [ ]
      recv_ref-refusal (err recv_error) ρ h = refl

      recv-refusal :
          (r : Result T RecvError) (ρ : ReceiverPhase)
          → RecvAnswer interleaving m shut r ρ
          → received r ≡ received (err recv_error)
      recv-refusal (ok n) ρ h = elim h.1 [ ]
      recv-refusal (err recv_error) ρ h = refl

      timed-refusal :
          (r : Result T RecvTimeoutError) (ρ : ReceiverPhase)
          → RecvTimeoutAnswer m shut r ρ
          → timed r ≡ timed (err RecvTimeoutError.disconnected)
      timed-refusal (ok n) ρ h = elim h.1 [ ]
      timed-refusal (err timeout) ρ h = elim h.0 [ ]
      timed-refusal (err RecvTimeoutError.disconnected) ρ h = refl

      closed-refusal :
          (b : Bool) (ρ : ReceiverPhase)
          → IsClosedAnswer interleaving m shut b ρ
          → Refuses (by_call is_closed) (closed b) ρ
      closed-refusal true ρ h = refl
      closed-refusal false ρ h = elim h.0 [ ]

      found-refusal :
          (b : Bool) (ρ : ReceiverPhase)
          → HasMessageAnswer interleaving m shut b ρ
          → Refuses (by_call has_message) (found b) ρ
      found-refusal true ρ h = elim h.0 [ ]
      found-refusal false ρ h = refl

      pub answer-Refuses :
          (fuel : ℕ) (r : Receive) → Receives model m (Refuses r) (phase_of shut) (answer fuel r)
      answer-Refuses fuel (by_call try_recv) =
          Receives-bind model m (TryRecvAnswer interleaving m shut) (Refuses (by_call try_recv)) _
            tried-refusal (phase_of shut) Receiver.try_recv
            (try_recv-Receives interleaving m model shut tt)
      answer-Refuses fuel (by_call recv_ref) =
          Receives-bind model m (RecvRefAnswer interleaving m shut) (Refuses (by_call recv_ref)) _
            recv_ref-refusal (phase_of shut) (Receiver.recv_ref fuel)
            (recv_ref-Receives interleaving m model fuel shut tt)
      answer-Refuses fuel (by_call is_closed) =
          Receives-bind model m (IsClosedAnswer interleaving m shut) (Refuses (by_call is_closed)) _
            closed-refusal (phase_of shut) Receiver.is_closed
            (is_closed-Receives interleaving m model shut tt)
      answer-Refuses fuel (by_call has_message) =
          Receives-bind model m (HasMessageAnswer interleaving m shut)
            (Refuses (by_call has_message)) _ found-refusal (phase_of shut) Receiver.has_message
            (has_message-Receives interleaving m model shut tt)
      answer-Refuses fuel (by_call (recv_timeout last_instant delay)) =
          Receives-bind model m (RecvTimeoutAnswer m shut)
            (Refuses (by_call (recv_timeout last_instant delay))) _ timed-refusal (phase_of shut)
            (Timed.recv_timeout fuel last_instant delay)
            (recv_timeout-Receives m model fuel last_instant delay shut)
      answer-Refuses fuel (by_call (recv_deadline deadline)) =
          Receives-bind model m (RecvTimeoutAnswer m shut)
            (Refuses (by_call (recv_deadline deadline))) _ timed-refusal (phase_of shut)
            (Timed.recv_deadline fuel deadline) (recv_deadline-Receives m model fuel deadline shut)
      answer-Refuses fuel by_recv =
          Receives-bind model m (RecvAnswer interleaving m shut) (Refuses by_recv) _ recv-refusal
            (phase_of shut) (Receiver.recv fuel) (recv-Receives interleaving m model fuel shut tt)

    -- From any standing, an answer of some kind.
    abbrev pub Some : Standing → Answered T → ReceiverPhase → Type 0
    Some st x ρ = Unit

    pub answer-Some :
        (fuel : ℕ) (r : Receive) (st : Standing)
        → Receives model m (Some st) (phase_of st) (answer fuel r)
    answer-Some fuel (by_call try_recv) st =
        Receives-bind model m (TryRecvAnswer interleaving m st) (Some st) _ (λ r ρ h. tt) _
          Receiver.try_recv (try_recv-Receives interleaving m model st (interleaving-IsSettled st))
    answer-Some fuel (by_call recv_ref) st =
        Receives-bind model m (RecvRefAnswer interleaving m st) (Some st) _ (λ r ρ h. tt) _
          (Receiver.recv_ref fuel)
          (recv_ref-Receives interleaving m model fuel st (interleaving-IsSettled st))
    answer-Some fuel (by_call is_closed) st =
        Receives-bind model m (IsClosedAnswer interleaving m st) (Some st) _ (λ b ρ h. tt) _
          Receiver.is_closed
          (is_closed-Receives interleaving m model st (interleaving-IsSettled st))
    answer-Some fuel (by_call has_message) st =
        Receives-bind model m (HasMessageAnswer interleaving m st) (Some st) _ (λ b ρ h. tt) _
          Receiver.has_message
          (has_message-Receives interleaving m model st (interleaving-IsSettled st))
    answer-Some fuel (by_call (recv_timeout last_instant delay)) st =
        Receives-bind model m (RecvTimeoutAnswer m st) (Some st) _ (λ r ρ h. tt) _
          (Timed.recv_timeout fuel last_instant delay)
          (recv_timeout-Receives m model fuel last_instant delay st)
    answer-Some fuel (by_call (recv_deadline deadline)) st =
        Receives-bind model m (RecvTimeoutAnswer m st) (Some st) _ (λ r ρ h. tt) _
          (Timed.recv_deadline fuel deadline) (recv_deadline-Receives m model fuel deadline st)
    answer-Some fuel by_recv st =
        Receives-bind model m (RecvAnswer interleaving m st) (Some st) _ (λ r ρ h. tt) _
          (Receiver.recv fuel)
          (recv-Receives interleaving m model fuel st (interleaving-IsSettled st))
