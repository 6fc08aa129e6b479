-- ===== src/Client/FuturePhases.antt =====
-- The phases in which a future of src/receiver.rs is between two calls.
use oneshot.Prelude.{◌≡◌, refl, sym, subst, Bool, true, false, Result, ok, err}
use oneshot.Errors.{RecvError}
use oneshot.Memory.{Model}
use oneshot.Channel.{Poll, ready, pending}
use oneshot.Waker.{ReceiverWaker}
use oneshot.Protocol.Phases.{ReceiverPhase, idle, receiving, got, over, released}
use oneshot.Conformance.Standing.{
  Standing, waiting, available, ended, phase_of, IsSettled, MayYield, MayRefuse, IsWaiting, IsReady,
  stand,
}
use oneshot.Client.Receiving.{MayYield-back, MayRefuse-back}
use oneshot.Client.Calls.{Stays}

module _ {T : Type 0} (model : Model) (m : T) where
  -- The phases between two calls of the future.
  abbrev pub IsFuture : ReceiverPhase → Type 0
  IsFuture (receiving w awake seen) = awake ≡ false
  IsFuture ρ = IsReady model ρ

  pub ready-IsFuture : (ρ : ReceiverPhase) → IsReady model ρ → IsFuture ρ
  ready-IsFuture idle h = h
  ready-IsFuture (got s waker y visible) h = h
  ready-IsFuture (over sent s waker y) h = h
  ready-IsFuture _ h = elim h [ ]

  pub standing-IsReady : (st : Standing) → IsSettled model st → IsReady model (phase_of st)
  standing-IsReady waiting s = tt
  standing-IsReady (available true) s = (refl, refl, refl)
  standing-IsReady (available false) s = (refl, refl, refl)
  standing-IsReady (ended sent y) s = (refl, refl, s)

  pub by_future :
      (X : ReceiverPhase → Type 0)
      → ((w : ReceiverWaker) (seen : Bool) → X (receiving w false seen))
      → ((st : Standing) → IsSettled model st → X (phase_of st))
      → (ρ : ReceiverPhase) → IsFuture ρ
      → X ρ
  by_future X f g (receiving w awake seen) h =
      subst (λ b. X (receiving w b seen)) (sym h) (f w seen)
  by_future X f g idle h = g waiting tt
  by_future X f g (got s waker y visible) h =
      let (st, e, settled) = stand model (got s waker y visible) h in subst X e (g st settled)
  by_future X f g (over sent s waker y) h =
      let (st, e, settled) = stand model (over sent s waker y) h in subst X e (g st settled)
  by_future X f g _ h = elim h [ ]

  -- The future does not forget what was found before it was made.
  abbrev pub FutureStays : Standing → ReceiverPhase → Type 0
  FutureStays st (receiving w awake seen) = IsWaiting st
  FutureStays st ρ = Stays model m st ρ

  -- What the future may answer, when it was made with the receiver at a standing. It was dropped
  -- after it was ready.
  abbrev pub FutureAnswer : Standing → Poll (Result T RecvError) → ReceiverPhase → Type 0
  FutureAnswer st pending ρ = IsFuture ρ × FutureStays st ρ
  FutureAnswer st (ready (ok n)) ρ = (n ≡ m) × MayYield st × (ρ ≡ released true)
  FutureAnswer st (ready (err _)) (released sent) = MayRefuse st sent
  FutureAnswer st (ready (err _)) _ = ⊥

  pub standing-Stays :
      (st st' : Standing) → FutureStays st (phase_of st') → Stays model m st (phase_of st')
  standing-Stays st waiting h = h
  standing-Stays st (available acquired) h = h
  standing-Stays st (ended sent y) h = h

  pub IsWaiting-back :
      (st st' : Standing) → Stays model m st (phase_of st') → IsWaiting st' → IsWaiting st
  IsWaiting-back waiting waiting s h = tt
  IsWaiting-back (available acquired) waiting s h = elim s [ ]
  IsWaiting-back (ended sent y) waiting s h = elim s [ ]
  IsWaiting-back st (available acquired) s h = elim h [ ]
  IsWaiting-back st (ended sent y) s h = elim h [ ]

  pub Stays-back :
      (st st' : Standing) (ρ : ReceiverPhase)
      → Stays model m st (phase_of st')
      → Stays model m st' ρ
      → Stays model m st ρ
  Stays-back st st' (got state waker y visible) s h = MayYield-back model m st st' s h
  Stays-back st st' (over sent state waker y) s h = MayRefuse-back model m st st' sent s h
  Stays-back st waiting idle s h = s
  Stays-back st (available acquired) idle s h = elim h [ ]
  Stays-back st (ended sent y) idle s h = elim h [ ]
  Stays-back st waiting _ s h = elim h [ ]
  Stays-back st (available acquired) _ s h = elim h [ ]
  Stays-back st (ended sent y) _ s h = elim h [ ]

  pub closed : (st : Standing) (sent : Bool) → IsWaiting st → sent ≡ false → MayRefuse st sent
  closed waiting sent i e = e
  closed (available acquired) sent i e = elim i [ ]
  closed (ended b y) sent i e = elim i [ ]

  pub yields : (st : Standing) → IsWaiting st → MayYield st
  yields waiting i = tt
  yields (available acquired) i = elim i [ ]
  yields (ended b y) i = elim i [ ]

  pub Stays-Future :
      (st : Standing) (ρ : ReceiverPhase) → IsReady model ρ → Stays model m st ρ → FutureStays st ρ
  Stays-Future st idle r h = h
  Stays-Future st (got s waker y visible) r h = h
  Stays-Future st (over sent s waker y) r h = h
  Stays-Future st _ r h = elim r [ ]
