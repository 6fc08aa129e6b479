-- ===== src/Client/Calls.antt =====
-- The calls of the methods of src/receiver.rs under the rules of the protocol, and what they leave.
use oneshot.Prelude.{
  ℕ, ◌≡◌, sym, subst, Bool, true, false, Option, none, some, List, [], ◌∷◌, Result, ok, err,
}
use oneshot.Errors.{RecvError, TryRecvError, RecvTimeoutError, timeout}
use oneshot.Memory.{Model, interleaving, release_acquire}
use oneshot.Program.{Program, ◌>>=◌}
use oneshot.Protocol.Phases.{ReceiverPhase, idle, got, over}
use oneshot.Protocol.ReceiverRules.{Receives}
use oneshot.Protocol.ReceiverSequence.{Receives-bind}
use oneshot.Conformance.Standing.{
  Standing, waiting, available, ended, phase_of, IsSettled, MayYield, MayRefuse, IsWaiting, IsTaken,
  IsRefused, IsAvailable, IsReady,
}
use oneshot.Conformance.Receiving.{
  TryRecvAnswer, try_recv-Receives, RecvRefAnswer, recv_ref-Receives, IsClosedAnswer,
  is_closed-Receives, HasMessageAnswer, has_message-Receives,
}
use oneshot.Conformance.Timed.{RecvTimeoutAnswer, recv_deadline-Receives, recv_timeout-Receives}
use oneshot.Receiver
use oneshot.Receiver.Timed
use oneshot.Client.{
  ReceiverCall, try_recv, recv_ref, is_closed, has_message, recv_timeout, recv_deadline,
  ReceiverEnd, recv, drop, to_option, call,
}

-- A call with a time limit may leave the receiver without what a drop under `release_acquire` relies
-- on.
abbrev pub Permitted : Model → ReceiverCall → Type 0
Permitted interleaving c = Unit
Permitted release_acquire (recv_timeout last_instant delay) = ⊥
Permitted release_acquire (recv_deadline deadline) = ⊥
Permitted release_acquire _ = Unit

abbrev pub AllPermitted : Model → List ReceiverCall → Type 0
AllPermitted asked [] = Unit
AllPermitted asked (c ∷ cs) = Permitted asked c × AllPermitted asked cs

-- The calls, and then the end. Under `release_acquire` a receiver that is dropped makes no call with a
-- time limit before; one that ends with `recv` may.
abbrev pub Allowed : Model → List ReceiverCall → ReceiverEnd → Type 0
Allowed release_acquire cs drop = AllPermitted release_acquire cs
Allowed _ cs end = Unit

-- What the calls have to provide for.
abbrev pub asked_by : Model → ReceiverEnd → Model
asked_by model recv = interleaving
asked_by model drop = model

all-Permitted : (cs : List ReceiverCall) → AllPermitted interleaving cs
all-Permitted [] = tt
all-Permitted (c ∷ cs) = (tt, all-Permitted cs)

pub Allowed-Permitted :
    (model : Model) (cs : List ReceiverCall) (end : ReceiverEnd)
    → Allowed model cs end
    → AllPermitted (asked_by model end) cs
Allowed-Permitted model cs recv h = all-Permitted cs
Allowed-Permitted interleaving cs drop h = all-Permitted cs
Allowed-Permitted release_acquire cs drop h = h

module _ {T : Type 0} (asked : Model) (m : T) where
  -- A call that yields nothing does not forget what was found before.
  abbrev pub Stays : Standing → ReceiverPhase → Type 0
  Stays st (got s waker y visible) = MayYield st
  Stays st (over sent s waker y) = MayRefuse st sent
  Stays waiting idle = Unit
  Stays _ _ = ⊥

  abbrev pub CallAnswer : Standing → Option T → ReceiverPhase → Type 0
  CallAnswer st (some n) ρ = (n ≡ m) × MayYield st × IsTaken asked ρ
  CallAnswer st none ρ = IsReady asked ρ × Stays st ρ

  abbrev ResultAnswer : {E : Type 0} → Standing → Result T E → ReceiverPhase → Type 0
  ResultAnswer st (ok n) ρ = CallAnswer st (some n) ρ
  ResultAnswer st (err e) ρ = CallAnswer st none ρ

  refused-Ready :
      (st : Standing) (ρ : ReceiverPhase) → IsRefused asked st ρ → IsReady asked ρ × Stays st ρ
  refused-Ready st (over sent s waker y) h = ((h.1, h.2, h.3), h.0)
  refused-Ready st _ h = elim h [ ]

  available-Ready :
      (st : Standing) (ρ : ReceiverPhase)
      → MayYield st × IsAvailable asked ρ
      → IsReady asked ρ × Stays st ρ
  available-Ready st (got s waker y visible) h = (h.1, h.0)
  available-Ready st _ h = elim h.1 [ ]

  idle-Ready :
      (st : Standing) (ρ : ReceiverPhase) → IsWaiting st × (ρ ≡ idle) → IsReady asked ρ × Stays st ρ
  idle-Ready waiting ρ h = subst (λ x. IsReady asked x × Stays waiting x) (sym h.1) (tt, tt)
  idle-Ready (available acquired) ρ h = elim h.0 [ ]
  idle-Ready (ended sent y) ρ h = elim h.0 [ ]

  to_option-Receives :
      {E : Type 0} (model : Model) (st : Standing) (r : Result T E) (ρ : ReceiverPhase)
      → ResultAnswer st r ρ
      → Receives model m (CallAnswer st) ρ (to_option r)
  to_option-Receives model st (ok n) ρ h = h
  to_option-Receives model st (err e) ρ h = h

  try_recv-Result :
      (st : Standing) (r : Result T TryRecvError) (ρ : ReceiverPhase)
      → TryRecvAnswer asked m st r ρ
      → ResultAnswer st r ρ
  try_recv-Result st (ok n) ρ h = h
  try_recv-Result st (err TryRecvError.empty) ρ h = idle-Ready st ρ h
  try_recv-Result st (err TryRecvError.disconnected) ρ h = refused-Ready st ρ h

  recv_ref-Result :
      (st : Standing) (r : Result T RecvError) (ρ : ReceiverPhase)
      → RecvRefAnswer asked m st r ρ
      → ResultAnswer st r ρ
  recv_ref-Result st (ok n) ρ h = h
  recv_ref-Result st (err e) ρ h = refused-Ready st ρ h

  pub is_closed-Ready :
      (st : Standing) (closed : Bool) (ρ : ReceiverPhase)
      → IsClosedAnswer asked m st closed ρ
      → CallAnswer st none ρ
  is_closed-Ready st true ρ h = refused-Ready st ρ h
  is_closed-Ready waiting false idle h = (tt, tt)
  is_closed-Ready waiting false ρ h = available-Ready waiting ρ h
  is_closed-Ready (available acquired) false ρ h = available-Ready (available acquired) ρ h
  is_closed-Ready (ended sent y) false ρ h = elim h.0 [ ]

  pub has_message-Ready :
      (st : Standing) (found : Bool) (ρ : ReceiverPhase)
      → HasMessageAnswer asked m st found ρ
      → CallAnswer st none ρ
  has_message-Ready st true ρ h = available-Ready st ρ h
  has_message-Ready waiting false idle h = (tt, tt)
  has_message-Ready waiting false ρ h = refused-Ready waiting ρ h
  has_message-Ready (available acquired) false ρ h = refused-Ready (available acquired) ρ h
  has_message-Ready (ended sent y) false ρ h = refused-Ready (ended sent y) ρ h

module _ {T : Type 0} (m : T) where
  timed-Result :
      (st : Standing) (r : Result T RecvTimeoutError) (ρ : ReceiverPhase)
      → RecvTimeoutAnswer m st r ρ
      → ResultAnswer interleaving m st r ρ
  timed-Result st (ok n) ρ h = h
  timed-Result st (err timeout) ρ h = idle-Ready interleaving m st ρ h
  timed-Result st (err RecvTimeoutError.disconnected) ρ h = refused-Ready interleaving m st ρ h

  timed-Receives :
      (model : Model) (st : Standing) (p : Program T (Result T RecvTimeoutError))
      → Receives model m (RecvTimeoutAnswer m st) (phase_of st) p
      → Receives model m (CallAnswer interleaving m st) (phase_of st) (p >>= to_option)
  timed-Receives model st p h =
      Receives-bind model m (RecvTimeoutAnswer m st) (CallAnswer interleaving m st) to_option
        (λ r ρ a. to_option-Receives interleaving m model st r ρ (timed-Result st r ρ a))
        (phase_of st) p h

  recv_timeout_call-Receives :
      (st : Standing) (fuel last_instant delay : ℕ) (model asked : Model)
      → Permitted asked (recv_timeout last_instant delay)
      → Receives model m
          (CallAnswer asked m st)
          (phase_of st)
          (Timed.recv_timeout fuel last_instant delay >>= to_option)
  recv_timeout_call-Receives st fuel last_instant delay model interleaving h =
      timed-Receives model st _ (recv_timeout-Receives m model fuel last_instant delay st)
  recv_timeout_call-Receives st fuel last_instant delay model release_acquire h = elim h [ ]

  recv_deadline_call-Receives :
      (st : Standing) (fuel deadline : ℕ) (model asked : Model)
      → Permitted asked (recv_deadline deadline)
      → Receives model m
          (CallAnswer asked m st)
          (phase_of st)
          (Timed.recv_deadline fuel deadline >>= to_option)
  recv_deadline_call-Receives st fuel deadline model interleaving h =
      timed-Receives model st _ (recv_deadline-Receives m model fuel deadline st)
  recv_deadline_call-Receives st fuel deadline model release_acquire h = elim h [ ]

module _ {T : Type 0} (asked : Model) (m : T) where
  pub call-Receives :
      (model : Model) (fuel : ℕ) (c : ReceiverCall) (st : Standing)
      → IsSettled asked st
      → Permitted asked c
      → Receives model m (CallAnswer asked m st) (phase_of st) (call fuel c)
  unfolding call
  call-Receives model fuel try_recv st s h =
      Receives-bind model m (TryRecvAnswer asked m st) (CallAnswer asked m st) to_option
        (λ r ρ a. to_option-Receives asked m model st r ρ (try_recv-Result asked m st r ρ a))
        (phase_of st) Receiver.try_recv (try_recv-Receives asked m model st s)
  call-Receives model fuel recv_ref st s h =
      Receives-bind model m (RecvRefAnswer asked m st) (CallAnswer asked m st) to_option
        (λ r ρ a. to_option-Receives asked m model st r ρ (recv_ref-Result asked m st r ρ a))
        (phase_of st) (Receiver.recv_ref fuel) (recv_ref-Receives asked m model fuel st s)
  call-Receives model fuel is_closed st s h =
      Receives-bind model m (IsClosedAnswer asked m st) (CallAnswer asked m st) _
        (is_closed-Ready asked m st) (phase_of st) Receiver.is_closed
        (is_closed-Receives asked m model st s)
  call-Receives model fuel has_message st s h =
      Receives-bind model m (HasMessageAnswer asked m st) (CallAnswer asked m st) _
        (has_message-Ready asked m st) (phase_of st) Receiver.has_message
        (has_message-Receives asked m model st s)
  call-Receives model fuel (recv_timeout last_instant delay) st s h =
      recv_timeout_call-Receives m st fuel last_instant delay model asked h
  call-Receives model fuel (recv_deadline deadline) st s h =
      recv_deadline_call-Receives m st fuel deadline model asked h
