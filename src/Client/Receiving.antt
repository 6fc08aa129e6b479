-- ===== src/Client/Receiving.antt =====
-- The uses of src/receiver.rs, but for the future, under the rules of the protocol.
use oneshot.Prelude.{
  ℕ, ◌≡◌, refl, sym, subst, ap, ◌∙◌, Bool, true, Option, none, some, List, [], ◌∷◌, Result, ok, err,
}
use oneshot.Errors.{RecvError}
use oneshot.States
use oneshot.Memory.{uninit, Model}
use oneshot.Program.{Program, ret, ◌>>=◌}
use oneshot.Protocol.Phases.{Sync, ReceiverPhase, over, dropped, released}
use oneshot.Protocol.ReceiverRules.{Receives}
use oneshot.Protocol.ReceiverSequence.{Receives-bind}
use oneshot.Conformance.Standing.{
  Standing, waiting, available, ended, phase_of, IsSettled, MayYield, MayRefuse, IsTaken, IsReady,
  stand, Keeps, model-Keeps,
}
use oneshot.Conformance.Receiving.{RecvAnswer, recv-Receives, DropAnswer, drop-Receives}
use oneshot.Receiver
use oneshot.Client.{
  ReceiverCall, ReceiverEnd, recv, drop, to_option, call, prepend, finish, receiver_client,
}
use oneshot.Client.Calls.{
  Allowed, asked_by, Allowed-Permitted, AllPermitted, Stays, CallAnswer, call-Receives,
}

-- `asked` is what the calls provide for.
module _ {T : Type 0} (asked : Model) (m : T) where
  -- How the receiver's thread ends. `recv` without a message: the sender was dropped.
  abbrev pub EndAnswer : ReceiverEnd → Standing → ReceiverPhase → Type 0
  EndAnswer recv st (released sent) = MayRefuse st sent
  EndAnswer drop waiting (released sent) = Unit
  EndAnswer drop waiting dropped = Unit
  EndAnswer drop (available acquired) (released sent) = sent ≡ true
  EndAnswer drop (ended s y) (released sent) = sent ≡ s
  EndAnswer _ _ _ = ⊥

  abbrev pub ClientAnswer : ReceiverEnd → Standing → List T → ReceiverPhase → Type 0
  ClientAnswer end st [] ρ = EndAnswer end st ρ
  ClientAnswer end st (n ∷ []) ρ = (n ≡ m) × MayYield st × (ρ ≡ released true)
  ClientAnswer end st (n ∷ n' ∷ ns) ρ = ⊥

  recv_end-Receives :
      (model : Model) (st : Standing) (r : Result T RecvError) (ρ : ReceiverPhase)
      → RecvAnswer asked m st r ρ
      → Receives model m (ClientAnswer recv st) ρ (to_option r >>= λ o. ret (prepend o []))
  recv_end-Receives model st (ok n) ρ h = h
  recv_end-Receives model st (err e) (released sent) h = h
  recv_end-Receives model st (err e) _ h = elim h [ ]

  drop_end-Answer :
      (st : Standing) (r : Unit {0}) (ρ : ReceiverPhase)
      → DropAnswer asked m st r ρ
      → EndAnswer drop st ρ
  drop_end-Answer waiting r dropped h = tt
  drop_end-Answer waiting r (released sent) h = tt
  drop_end-Answer (available acquired) r dropped h = elim h [ ]
  drop_end-Answer (available acquired) r (released sent) h = h
  drop_end-Answer (ended s y) r dropped h = elim h [ ]
  drop_end-Answer (ended s y) r (released sent) h = h
  drop_end-Answer st r _ h = elim h [ ]

  abbrev EndKeeps : Model → ReceiverEnd → Type 0
  EndKeeps model recv = Unit
  EndKeeps model drop = Keeps model asked

  finish-Receives :
      (model : Model) (fuel : ℕ) (end : ReceiverEnd) (st : Standing)
      → EndKeeps model end
      → IsSettled asked st
      → Receives model m (ClientAnswer end st) (phase_of st) (finish fuel end)
  unfolding finish
  finish-Receives model fuel recv st k s =
      Receives-bind model m (RecvAnswer asked m st) (ClientAnswer recv st) _
        (recv_end-Receives model st) (phase_of st) (Receiver.recv fuel)
        (recv-Receives asked m model fuel st s)
  finish-Receives model fuel drop st k s =
      Receives-bind model m (DropAnswer asked m st) (ClientAnswer drop st) _ (drop_end-Answer st)
        (phase_of st) Receiver.drop (drop-Receives asked m model st k s)

  pub MayYield-back :
      (st st' : Standing) → Stays asked m st (phase_of st') → MayYield st' → MayYield st
  MayYield-back waiting st' s h = tt
  MayYield-back (available acquired) st' s h = tt
  MayYield-back (ended sent y) waiting s h = elim s [ ]
  MayYield-back (ended sent y) (available acquired) s h = elim s [ ]
  MayYield-back (ended sent y) (ended t z) s h = elim h [ ]

  pub MayRefuse-back :
      (st st' : Standing) (sent : Bool)
      → Stays asked m st (phase_of st')
      → MayRefuse st' sent
      → MayRefuse st sent
  MayRefuse-back waiting waiting sent s h = h
  MayRefuse-back (available acquired) waiting sent s h = elim s [ ]
  MayRefuse-back (ended t z) waiting sent s h = elim s [ ]
  MayRefuse-back st (available acquired) sent s h = elim h [ ]
  MayRefuse-back st (ended t z) sent s h = subst (MayRefuse st) (sym h) s

  drop-back :
      (st st' : Standing) (ρ : ReceiverPhase)
      → Stays asked m st (phase_of st')
      → EndAnswer drop st' ρ
      → EndAnswer drop st ρ
  drop-back waiting waiting ρ s h = h
  drop-back waiting (available acquired) (released sent) s h = tt
  drop-back waiting (ended t z) (released sent) s h = tt
  drop-back (available acquired) (available b) (released sent) s h = h
  drop-back (available acquired) (ended t z) ρ s h = elim s [ ]
  drop-back (ended t z) (ended b y) (released sent) s h = h ∙ s
  drop-back (available acquired) waiting ρ s h = elim s [ ]
  drop-back (ended t z) waiting ρ s h = elim s [ ]
  drop-back (ended t z) (available b) ρ s h = elim s [ ]
  drop-back _ _ _ s h = elim h [ ]

  -- What a client does from a later standing, it may do from an earlier one.
  pub ClientAnswer-back :
      (end : ReceiverEnd) (st st' : Standing) (ns : List T) (ρ : ReceiverPhase)
      → Stays asked m st (phase_of st')
      → ClientAnswer end st' ns ρ
      → ClientAnswer end st ns ρ
  ClientAnswer-back recv st st' [] (released sent) s h = MayRefuse-back st st' sent s h
  ClientAnswer-back recv st st' [] _ s h = elim h [ ]
  ClientAnswer-back drop st st' [] ρ s h = drop-back st st' ρ s h
  ClientAnswer-back end st st' (n ∷ []) ρ s h = (h.0, MayYield-back st st' s h.1, h.2)
  ClientAnswer-back end st st' (n ∷ n' ∷ ns) ρ s h = elim h [ ]

  -- What is left after the message was taken.
  pub ClientAnswer-taken :
      (end : ReceiverEnd) (y : Sync) (ns : List T) (ρ : ReceiverPhase)
      → ClientAnswer end (ended true y) ns ρ
      → (ns ≡ []) × (ρ ≡ released true)
  ClientAnswer-taken recv y [] (released sent) h = (refl, ap released h)
  ClientAnswer-taken recv y [] _ h = elim h [ ]
  ClientAnswer-taken drop y [] (released sent) h = (refl, ap released h)
  ClientAnswer-taken drop y [] _ h = elim h [ ]
  ClientAnswer-taken end y (n ∷ []) ρ h = elim h.1 [ ]
  ClientAnswer-taken end y (n ∷ n' ∷ ns) ρ h = elim h [ ]

  module _ (model : Model) (end : ReceiverEnd) (p : Program T (List T))
      (h : (st : Standing)
        → IsSettled asked st
        → Receives model m (ClientAnswer end st) (phase_of st) p) where
    after_none-Receives :
        (st : Standing) (ρ : ReceiverPhase)
        → IsReady asked ρ
        → Stays asked m st ρ
        → Receives model m (ClientAnswer end st) ρ (p >>= λ ns. ret (prepend none ns))
    after_none-Receives st ρ ready s =
        let (st', e, settled) = stand asked ρ ready in
        subst (λ x. Receives model m (ClientAnswer end st) x (p >>= λ ns. ret (prepend none ns))) e
          (Receives-bind model m (ClientAnswer end st') (ClientAnswer end st) _
            (λ ns ρ' a. ClientAnswer-back end st st' ns ρ' (subst (Stays asked m st) (sym e) s) a)
            (phase_of st') p (h st' settled))

    after_some-Receives :
        (st : Standing) (n : T) (ρ : ReceiverPhase)
        → n ≡ m
        → MayYield st
        → IsTaken asked ρ
        → Receives model m (ClientAnswer end st) ρ (p >>= λ ns. ret (prepend (some n) ns))
    after_some-Receives st n (over sent s waker y) same may t =
        subst
          (λ x. Receives model m (ClientAnswer end st) x (p >>= λ ns. ret (prepend (some n) ns)))
          (over_eq t.0 t.1 t.2)
          (Receives-bind model m (ClientAnswer end (ended true y)) (ClientAnswer end st) _
            (λ ns ρ' a. yielded ns ρ' (ClientAnswer-taken end y ns ρ' a))
            (over true States.disconnected uninit y) p (h (ended true y) t.3))
      where
        over_eq :
            sent ≡ true
            → s ≡ States.disconnected
            → waker ≡ uninit
            → over true States.disconnected uninit y ≡ over sent s waker y
        over_eq a b c = cc

        yielded :
            (ns : List T) (ρ' : ReceiverPhase)
            → (ns ≡ []) × (ρ' ≡ released true)
            → ClientAnswer end st (n ∷ ns) ρ'
        yielded ns ρ' a = subst (λ x. ClientAnswer end st (n ∷ x) ρ') (sym a.0) (same, may, a.1)
    after_some-Receives st n _ same may t = elim t [ ]

    after_call-Receives :
        (st : Standing) (o : Option T) (ρ : ReceiverPhase)
        → CallAnswer asked m st o ρ
        → Receives model m (ClientAnswer end st) ρ (p >>= λ ns. ret (prepend o ns))
    after_call-Receives st none ρ a = after_none-Receives st ρ a.0 a.1
    after_call-Receives st (some n) ρ a = after_some-Receives st n ρ a.0 a.1 a.2

  calls-Receives :
      (model : Model) (fuel : ℕ) (cs : List ReceiverCall) (end : ReceiverEnd) (st : Standing)
      → EndKeeps model end
      → IsSettled asked st
      → AllPermitted asked cs
      → Receives model m (ClientAnswer end st) (phase_of st) (receiver_client fuel cs end)
  unfolding receiver_client
  calls-Receives model fuel [] end st k s h = finish-Receives model fuel end st k s
  calls-Receives model fuel (c ∷ cs) end st k s h =
      Receives-bind model m (CallAnswer asked m st) (ClientAnswer end st) _
        (after_call-Receives model end (receiver_client fuel cs end)
          (λ st' s'. calls-Receives model fuel cs end st' k s' h.1) st)
        (phase_of st) (call fuel c) (call-Receives asked m model fuel c st s h.0)

module _ {T : Type 0} (model : Model) (m : T) where
  end-Keeps : (end : ReceiverEnd) → EndKeeps (asked_by model end) m model end
  end-Keeps recv = tt
  end-Keeps drop = model-Keeps model

  pub receiver_client-Receives :
      (fuel : ℕ) (cs : List ReceiverCall) (end : ReceiverEnd) (st : Standing)
      → IsSettled (asked_by model end) st
      → Allowed model cs end
      → Receives model m (ClientAnswer model m end st) (phase_of st) (receiver_client fuel cs end)
  receiver_client-Receives fuel cs end st s h =
      calls-Receives (asked_by model end) m model fuel cs end st (end-Keeps end) s
        (Allowed-Permitted model cs end h)
