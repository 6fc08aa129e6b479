-- ===== src/Conformance/Timed.antt =====
-- The methods of src/receiver.rs with a time limit under the receiver's rules.
use oneshot.Prelude.{
  ℕ, zero, suc, ◌≡◌, Bool, true, false, Option, none, some, Result, ok, err, arith,
}
use oneshot.Protocol.Phases.{ReceiverPhase, idle, receiving, expired}
use oneshot.Protocol.ReceiverRules.{Receives}
use oneshot.Protocol.ReceiverSequence.{Receives-bind}
use oneshot.Memory.{Model, interleaving}
use oneshot.Program.{Program}
use oneshot.Waker.{thread}
use oneshot.Errors.{RecvError, RecvTimeoutError, timeout}
use oneshot.Conformance.Standing.{
  Standing, waiting, available, ended, phase_of, MayYield, IsWaiting, IsTaken, IsRefused,
  interleaving-IsSettled,
}
use oneshot.Conformance.Receiving.{RecvRefAnswer, recv_ref-Receives}
use oneshot.Receiver.Timed.{checked_duration_since, checked_add}
use oneshot.Receiver.Timed
use oneshot.Receiver

module _ {T : Type 0} (m : T) where
  abbrev pub RecvTimeoutAnswer : Standing → Result T RecvTimeoutError → ReceiverPhase → Type 0
  RecvTimeoutAnswer st (ok n) ρ = (n ≡ m) × MayYield st × IsTaken interleaving ρ
  RecvTimeoutAnswer st (err timeout) ρ = IsWaiting st × (ρ ≡ idle)
  RecvTimeoutAnswer st (err RecvTimeoutError.disconnected) ρ = IsRefused interleaving st ρ

  wait_for_unpark-Receives :
      (model : Model) (fuel : ℕ)
      → Receives model m
          (RecvTimeoutAnswer waiting)
          (expired thread false)
          (Timed.wait_for_unpark fuel)
  unfolding Timed.wait_for_unpark
  wait_for_unpark-Receives model zero = tt
  wait_for_unpark-Receives model (suc fuel) = ground (arith, wait_for_unpark-Receives model fuel)

  recv_expired-Receives :
      (model : Model) (fuel : ℕ) (awake seen : Bool)
      → Receives model m
          (RecvTimeoutAnswer waiting)
          (receiving thread awake seen)
          (Timed.recv_expired fuel)
  unfolding Timed.recv_expired
  recv_expired-Receives model fuel awake true = ground (arith, wait_for_unpark-Receives model fuel)
  recv_expired-Receives model fuel awake false = ground (arith, wait_for_unpark-Receives model fuel)

  recv_deadline_round-Receives :
      (model : Model) (park_again at_deadline : Program T (Result T RecvTimeoutError))
      (awake seen : Bool) (left : Option ℕ)
      → ((s : Bool)
          → Receives model m (RecvTimeoutAnswer waiting) (receiving thread false s) park_again)
      → Receives model m (RecvTimeoutAnswer waiting) (receiving thread awake seen) at_deadline
      → Receives model m
          (RecvTimeoutAnswer waiting)
          (receiving thread awake seen)
          (Timed.recv_deadline_round park_again at_deadline left)
  unfolding Timed.recv_deadline_round
  recv_deadline_round-Receives model park_again at_deadline awake true (some left) h k =
      ground (arith, h true)
  recv_deadline_round-Receives model park_again at_deadline awake false (some left) h k =
      ground (arith, h true, h false)
  recv_deadline_round-Receives model park_again at_deadline awake seen none h k = k

  recv_deadline_parked-Receives :
      (model : Model) (fuel deadline : ℕ) (awake seen : Bool)
      → Receives model m
          (RecvTimeoutAnswer waiting)
          (receiving thread awake seen)
          (Timed.recv_deadline_parked fuel deadline)
  unfolding Timed.recv_deadline_parked
  recv_deadline_parked-Receives model zero deadline awake seen = tt
  recv_deadline_parked-Receives model (suc fuel) deadline awake seen = λ t.
      recv_deadline_round-Receives model _ _ awake seen (checked_duration_since deadline t)
        (λ s. recv_deadline_parked-Receives model fuel deadline false s)
        (recv_expired-Receives model fuel awake seen)

  -- In both memory models, `recv_deadline` keeps to the rules from every standing, with any deadline
  -- and fuel: it returns the message, `Timeout` only when no message was found and then with its
  -- waker taken back, or `Disconnected` when the sender was dropped or the message was taken, also
  -- when the deadline passes while the sender is waking the receiver. It does not promise that the
  -- receiver has synchronised with the sender's last access, which a later drop relies on.
  pub recv_deadline-Receives :
      (model : Model) (fuel deadline : ℕ) (st : Standing)
      → Receives model m (RecvTimeoutAnswer st) (phase_of st) (Timed.recv_deadline fuel deadline)
  unfolding Timed.recv_deadline
  recv_deadline-Receives model fuel deadline waiting =
      ground (arith, recv_deadline_parked-Receives model fuel deadline false false)
  recv_deadline-Receives model fuel deadline (available true) = ground arith
  recv_deadline-Receives model fuel deadline (available false) = ground arith
  recv_deadline-Receives model fuel deadline (ended sent y) = ground arith

  map_disconnected-Receives :
      (model : Model) (st : Standing) (r : Result T RecvError) (ρ : ReceiverPhase)
      → RecvRefAnswer interleaving m st r ρ
      → Receives model m (RecvTimeoutAnswer st) ρ (Timed.map_disconnected r)
  map_disconnected-Receives model st (ok n) ρ h = h
  map_disconnected-Receives model st (err e) ρ h = h

  recv_until-Receives :
      (model : Model) (fuel : ℕ) (deadline : Option ℕ) (st : Standing)
      → Receives model m (RecvTimeoutAnswer st) (phase_of st) (Timed.recv_until fuel deadline)
  unfolding Timed.recv_until
  recv_until-Receives model fuel (some deadline) st = recv_deadline-Receives model fuel deadline st
  recv_until-Receives model fuel none st =
      Receives-bind model m (RecvRefAnswer interleaving m st) (RecvTimeoutAnswer st)
        Timed.map_disconnected (map_disconnected-Receives model st) (phase_of st)
        (Receiver.recv_ref fuel)
        (recv_ref-Receives interleaving m model fuel st (interleaving-IsSettled st))

  -- In both memory models, `recv_timeout` keeps to the rules from every standing, with any timeout,
  -- also one whose deadline cannot be represented, and with any fuel: it returns the message,
  -- `Timeout` only when no message was found, or `Disconnected` when the sender was dropped or the
  -- message was taken. It does not promise that the receiver has synchronised with the sender's last
  -- access, which a later drop relies on.
  pub recv_timeout-Receives :
      (model : Model) (fuel last_instant delay : ℕ) (st : Standing)
      → Receives model m
          (RecvTimeoutAnswer st)
          (phase_of st)
          (Timed.recv_timeout fuel last_instant delay)
  unfolding Timed.recv_timeout
  recv_timeout-Receives model fuel last_instant delay waiting =
      λ t. recv_until-Receives model fuel (checked_add last_instant t delay) waiting
  recv_timeout-Receives model fuel last_instant delay (available acquired) =
      λ t. recv_until-Receives model fuel (checked_add last_instant t delay) (available acquired)
  recv_timeout-Receives model fuel last_instant delay (ended sent y) =
      λ t. recv_until-Receives model fuel (checked_add last_instant t delay) (ended sent y)
