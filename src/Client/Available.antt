-- ===== src/Client/Available.antt =====
-- The receive methods of src/receiver.rs, called with a message available.
use oneshot.Prelude.{
  ℕ, ◌≡◌, refl, ap, sym, subst, Bool, true, false, Option, some, List, [], ◌∷◌, Result, ok, err,
}
use oneshot.Errors.{RecvError, TryRecvError, RecvTimeoutError, timeout}
use oneshot.Memory.{Model, interleaving, uninit}
use oneshot.States
use oneshot.Program.{Program, ret, ◌>>=◌}
use oneshot.Protocol.Phases.{ReceiverPhase, got, over, released, synced, carried}
use oneshot.Protocol.ReceiverRules.{Receives}
use oneshot.Protocol.ReceiverSequence.{Receives-bind}
use oneshot.Conformance.Standing.{
  Standing, available, phase_of, IsRefused, IsAvailable, interleaving-IsSettled,
}
use oneshot.Conformance.Receiving.{
  TryRecvAnswer, try_recv-Receives, RecvRefAnswer, recv_ref-Receives, RecvAnswer, recv-Receives,
}
use oneshot.Conformance.Timed.{RecvTimeoutAnswer, recv_deadline-Receives, recv_timeout-Receives}
use oneshot.Receiver
use oneshot.Receiver.Timed
use oneshot.Client.{
  ReceiverCall, try_recv, recv_ref, is_closed, has_message, recv_timeout, recv_deadline, recv,
  to_option, call, prepend, finish,
}
use oneshot.Client.Calls.{CallAnswer, call-Receives}

-- A receive method that is called next.
pub data Receive : Type 0 where
  by_call : ReceiverCall → Receive
  by_recv : Receive

abbrev pub IsReceive : Receive → Type 0
IsReceive (by_call is_closed) = ⊥
IsReceive (by_call has_message) = ⊥
IsReceive _ = Unit

module _ {T : Type 0} where
  abbrev pub receive : (fuel : ℕ) → Receive → Program T (List T)
  receive fuel (by_call c) = call fuel c >>= λ o. ret (prepend o [])
  receive fuel by_recv = finish fuel recv

  module _ (model : Model) (m : T) where
    -- A message that is available is not refused.
    not-IsRefused :
        (acquired : Bool) (ρ : ReceiverPhase) → ¬ IsRefused interleaving (available acquired) ρ
    not-IsRefused acquired (over sent s waker y) h = h.0
    not-IsRefused acquired _ h = elim h [ ]

    try_recv-Ok :
        (acquired : Bool) (r : Result T TryRecvError) (ρ : ReceiverPhase)
        → TryRecvAnswer interleaving m (available acquired) r ρ
        → r ≡ ok m
    try_recv-Ok acquired (ok n) ρ h = ap ok h.0
    try_recv-Ok acquired (err TryRecvError.empty) ρ h = elim h.0 [ ]
    try_recv-Ok acquired (err TryRecvError.disconnected) ρ h = elim (not-IsRefused acquired ρ h) [ ]

    recv_ref-Ok :
        (acquired : Bool) (r : Result T RecvError) (ρ : ReceiverPhase)
        → RecvRefAnswer interleaving m (available acquired) r ρ
        → r ≡ ok m
    recv_ref-Ok acquired (ok n) ρ h = ap ok h.0
    recv_ref-Ok acquired (err e) ρ h = elim (not-IsRefused acquired ρ h) [ ]

    timed-Ok :
        (acquired : Bool) (r : Result T RecvTimeoutError) (ρ : ReceiverPhase)
        → RecvTimeoutAnswer m (available acquired) r ρ
        → r ≡ ok m
    timed-Ok acquired (ok n) ρ h = ap ok h.0
    timed-Ok acquired (err timeout) ρ h = elim h.0 [ ]
    timed-Ok acquired (err RecvTimeoutError.disconnected) ρ h =
        elim (not-IsRefused acquired ρ h) [ ]

    recv-Ok :
        (acquired : Bool) (r : Result T RecvError) (ρ : ReceiverPhase)
        → RecvAnswer interleaving m (available acquired) r ρ
        → r ≡ ok m
    recv-Ok acquired (ok n) ρ h = ap ok h.0
    recv-Ok acquired (err e) (released sent) h = elim h [ ]
    recv-Ok acquired (err e) _ h = elim h [ ]

    abbrev pub Yields : List T → ReceiverPhase → Type 0
    Yields ns ρ = ns ≡ m ∷ []

    abbrev Found : Option T → ReceiverPhase → Type 0
    Found o ρ = o ≡ some m

    module _ {E : Type 0} (ρ : ReceiverPhase) (A : Result T E → ReceiverPhase → Type 0)
        (p : Program T (Result T E))
        (is_ok : (r : Result T E) (ρ' : ReceiverPhase) → A r ρ' → r ≡ ok m)
        (h : Receives model m A ρ p) where
      option-Found : Receives model m Found ρ (p >>= to_option)
      option-Found =
          Receives-bind model m A Found to_option
            (λ r ρ' a.
              subst (λ x. Receives model m Found ρ' (to_option x)) (sym (is_ok r ρ' a)) refl)
            ρ p h

      list-Yields : Receives model m Yields ρ (p >>= λ r. to_option r >>= λ o. ret (prepend o []))
      list-Yields =
          Receives-bind model m A Yields _
            (λ r ρ' a.
              subst (λ x. Receives model m Yields ρ' (to_option x >>= λ o. ret (prepend o [])))
                (sym (is_ok r ρ' a)) refl)
            ρ p h

    call-Found :
        (fuel : ℕ) (acquired : Bool) (c : ReceiverCall)
        → IsReceive (by_call c)
        → Receives model m Found (phase_of (available acquired)) (call fuel c)
    unfolding call
    call-Found fuel acquired try_recv i =
        option-Found _ (TryRecvAnswer interleaving m (available acquired)) Receiver.try_recv
          (try_recv-Ok acquired) (try_recv-Receives interleaving m model (available acquired) tt)
    call-Found fuel acquired recv_ref i =
        option-Found _ (RecvRefAnswer interleaving m (available acquired)) (Receiver.recv_ref fuel)
          (recv_ref-Ok acquired)
          (recv_ref-Receives interleaving m model fuel (available acquired) tt)
    call-Found fuel acquired (recv_timeout last_instant delay) i =
        option-Found _ (RecvTimeoutAnswer m (available acquired))
          (Timed.recv_timeout fuel last_instant delay) (timed-Ok acquired)
          (recv_timeout-Receives m model fuel last_instant delay (available acquired))
    call-Found fuel acquired (recv_deadline deadline) i =
        option-Found _ (RecvTimeoutAnswer m (available acquired))
          (Timed.recv_deadline fuel deadline) (timed-Ok acquired)
          (recv_deadline-Receives m model fuel deadline (available acquired))
    call-Found fuel acquired is_closed i = elim i [ ]
    call-Found fuel acquired has_message i = elim i [ ]

    pub receive-Yields :
        (fuel : ℕ) (acquired : Bool) (r : Receive)
        → IsReceive r
        → Receives model m Yields (phase_of (available acquired)) (receive fuel r)
    unfolding finish
    receive-Yields fuel acquired (by_call c) i =
        Receives-bind model m Found Yields _ (λ o ρ' e. ap (λ x. prepend x []) e) _ (call fuel c)
          (call-Found fuel acquired c i)
    receive-Yields fuel acquired by_recv i =
        list-Yields _ (RecvAnswer interleaving m (available acquired)) (Receiver.recv fuel)
          (recv-Ok acquired) (recv-Receives interleaving m model fuel (available acquired) tt)

    pub available-phase :
        (ρ : ReceiverPhase)
        → IsAvailable interleaving ρ
        → (acquired : Bool) × (phase_of (available acquired) ≡ ρ)
    available-phase (got s waker synced visible) h = (true, got_eq h.0 h.1 h.2)
      where
        got_eq :
            s ≡ States.message
            → waker ≡ uninit
            → visible ≡ false
            → got States.message uninit synced false ≡ got s waker synced visible
        got_eq a b c = cc
    available-phase (got s waker carried visible) h = (false, got_eq h.0 h.1 h.2)
      where
        got_eq :
            s ≡ States.message
            → waker ≡ uninit
            → visible ≡ false
            → got States.message uninit carried false ≡ got s waker carried visible
        got_eq a b c = cc
    available-phase _ h = elim h [ ]

    abbrev pub Any : Standing → List T → ReceiverPhase → Type 0
    Any st ns ρ = Unit

    listed-Receives :
        {E : Type 0} (st : Standing) (r : Result T E) (ρ : ReceiverPhase)
        → Receives model m (Any st) ρ (to_option r >>= λ o. ret (prepend o []))
    listed-Receives st (ok n) ρ = tt
    listed-Receives st (err e) ρ = tt

    pub receive-Receives :
        (fuel : ℕ) (r : Receive) (st : Standing)
        → Receives model m (Any st) (phase_of st) (receive fuel r)
    unfolding finish
    receive-Receives fuel (by_call c) st =
        Receives-bind model m (CallAnswer interleaving m st) (Any st) _ (λ o ρ a. tt) (phase_of st)
          (call fuel c)
          (call-Receives interleaving m model fuel c st (interleaving-IsSettled st) tt)
    receive-Receives fuel by_recv st =
        Receives-bind model m (RecvAnswer interleaving m st) (Any st) _
          (λ r ρ a. listed-Receives st r ρ) (phase_of st) (Receiver.recv fuel)
          (recv-Receives interleaving m model fuel st (interleaving-IsSettled st))
