-- ===== src/Soundness/ReceiverAtomic.antt =====
-- An atomic operation of the receiver keeps the two phases and the memory in agreement.
use oneshot.Prelude.{ℕ, ◌≡◌, refl, sym, subst, Bool, true, false, arith}
use oneshot.Atomic.{Ordering, acq_rel, AtomicOp, load, store, swap, compare_exchange}
use oneshot.Memory.{Memory, after_atomic}
use oneshot.Memory.HappensBefore.{receiver}
use oneshot.Protocol.Phases.{
  SenderPhase, alive, claimed, holding, notifying, finished, ReceiverPhase, idle, armed, receiving,
  expired, got, over, dropped,
}
use oneshot.Protocol.Agreement.{Agree, AgreeFinal}
use oneshot.Protocol.ReceiverRules.{AtomicRule}
use oneshot.Soundness.Through.{AloneKeeps, notified, ended, Through, got-Through, over-Through}
use oneshot.Soundness.Alone.{
  idle_load, idle_swap, armed_swap, armed_exchange, receiving_load, receiving_swap,
  receiving_exchange, expired_load,
}
use oneshot.Soundness.Owned.{got_load, got_store, got_swap, over_load, over_store, over_swap}
use oneshot.Waker.{ReceiverWaker}
use oneshot.States

module _ {T : Type 0} (m : T) (Φ : ℕ → ReceiverPhase → Type 0) (mem : Memory T) where
  abbrev pub AtomicKeeps : SenderPhase → AtomicOp → Type 0
  AtomicKeeps σ op =
      (ρ : ReceiverPhase) × (mem.freed ≡ false)
      × Agree m σ ρ (after_atomic receiver op mem)
      × Φ mem.state ρ

  -- A sender that is through may still have to wake the receiver.
  notifying-Keeps :
      (sent : Bool) (v : ReceiverWaker) (op : AtomicOp)
      → AloneKeeps m Φ sent op mem
      → AtomicKeeps (notifying sent v) op
  notifying-Keeps sent v op (ρ, live, a, h) = (ρ, live, notified m sent v ρ _ a, h)

  finished-Keeps :
      (sent : Bool) (op : AtomicOp) → AloneKeeps m Φ sent op mem → AtomicKeeps (finished sent) op
  finished-Keeps sent op (ρ, live, a, h) = (ρ, live, ended m sent ρ _ a, h)

  idle_load-Keeps :
      (σ : SenderPhase) (o : Ordering)
      → Agree m σ idle mem
      → AtomicRule idle (load o) Φ
      → AtomicKeeps σ (load o)
  idle_load-Keeps (alive written closed) o a h =
      (idle, ground arith, ground arith, rw a.0.state_is h.0)
  idle_load-Keeps (notifying sent v) o a h =
      notifying-Keeps sent v (load o) (idle_load m Φ mem sent o a h.1)
  idle_load-Keeps (finished sent) o a h =
      finished-Keeps sent (load o) (idle_load m Φ mem sent o a h.1)
  idle_load-Keeps _ o a h = elim a [ ]

  idle_swap-Keeps :
      (σ : SenderPhase)
      → Agree m σ idle mem
      → AtomicRule idle (swap States.disconnected acq_rel) Φ
      → AtomicKeeps σ (swap States.disconnected acq_rel)
  idle_swap-Keeps (alive written closed) a h =
      (dropped, ground arith, ground arith, rw a.0.state_is h.2)
  idle_swap-Keeps (notifying sent v) a h =
      notifying-Keeps sent v (swap States.disconnected acq_rel) (idle_swap m Φ mem sent a h.3)
  idle_swap-Keeps (finished sent) a h =
      finished-Keeps sent (swap States.disconnected acq_rel) (idle_swap m Φ mem sent a h.3)
  idle_swap-Keeps _ a h = elim a [ ]

  armed_swap-Keeps :
      (σ : SenderPhase) (w : ReceiverWaker) (o : Ordering)
      → Agree m σ (armed w) mem
      → AtomicRule (armed w) (swap States.receiving o) Φ
      → AtomicKeeps σ (swap States.receiving o)
  armed_swap-Keeps (alive written closed) w o a h =
      let r = h.1 in (receiving w false false, ground arith, ground arith, rw a.0.state_is h.2)
  armed_swap-Keeps (notifying sent v) w o a h =
      notifying-Keeps sent v (swap States.receiving o) (armed_swap m Φ mem sent w o h.1 a h.3)
  armed_swap-Keeps (finished sent) w o a h =
      finished-Keeps sent (swap States.receiving o) (armed_swap m Φ mem sent w o h.1 a h.3)
  armed_swap-Keeps _ w o a h = elim a [ ]

  armed_exchange-Keeps :
      (σ : SenderPhase) (w : ReceiverWaker) (s f : Ordering)
      → Agree m σ (armed w) mem
      → AtomicRule (armed w) (compare_exchange States.empty States.receiving s f) Φ
      → AtomicKeeps σ (compare_exchange States.empty States.receiving s f)
  armed_exchange-Keeps (alive written closed) w s f a h =
      let r = h.2 in (receiving w false false, ground arith, ground arith, rw a.0.state_is h.3)
  armed_exchange-Keeps (notifying sent v) w s f a h =
      notifying-Keeps sent v (compare_exchange States.empty States.receiving s f)
        (armed_exchange m Φ mem sent w s f a h.4)
  armed_exchange-Keeps (finished sent) w s f a h =
      finished-Keeps sent (compare_exchange States.empty States.receiving s f)
        (armed_exchange m Φ mem sent w s f a h.4)
  armed_exchange-Keeps _ w s f a h = elim a [ ]

  receiving_load-Keeps :
      (σ : SenderPhase) (w : ReceiverWaker) (awake seen : Bool) (o : Ordering)
      → Agree m σ (receiving w awake seen) mem
      → AtomicRule (receiving w awake seen) (load o) Φ
      → AtomicKeeps σ (load o)
  receiving_load-Keeps (alive written closed) w awake true o a h = cc
  receiving_load-Keeps (alive written closed) w awake false o a h =
      (receiving w false false, ground arith, ground arith, rw a.0.state_is h.0)
  receiving_load-Keeps (claimed sent) w awake seen o a h =
      (receiving w false true, ground arith, ground arith, rw a.0.state_is h.1)
  receiving_load-Keeps (holding sent v) w awake seen o a h =
      (receiving w false true, ground arith, ground arith, rw a.0.state_is h.1)
  receiving_load-Keeps (notifying sent v) w awake seen o a h =
      notifying-Keeps sent v (load o) (receiving_load m Φ mem sent w awake seen o a.0 h.2)
  receiving_load-Keeps (finished sent) w awake seen o a h =
      finished-Keeps sent (load o) (receiving_load m Φ mem sent w awake seen o a.0 h.2)
  receiving_load-Keeps _ w awake seen o a h = elim a [ ]

  receiving_swap-Keeps :
      (σ : SenderPhase) (w : ReceiverWaker) (awake seen : Bool) (o : Ordering)
      → Agree m σ (receiving w awake seen) mem
      → AtomicRule (receiving w awake seen) (swap States.empty o) Φ
      → AtomicKeeps σ (swap States.empty o)
  receiving_swap-Keeps (alive written closed) w awake true o a h = cc
  receiving_swap-Keeps (alive written closed) w awake false o a h =
      let r = h.1 in (armed w, ground arith, ground arith, rw a.0.state_is h.2)
  receiving_swap-Keeps (claimed sent) w awake seen o a h =
      let r = h.1 in (expired w false, ground arith, ground arith, rw a.0.state_is h.3)
  receiving_swap-Keeps (holding sent v) w awake seen o a h =
      let r = h.1 in (expired w false, ground arith, ground arith, rw a.0.state_is h.3)
  receiving_swap-Keeps (notifying sent v) w awake seen o a h =
      notifying-Keeps sent v (swap States.empty o)
        (receiving_swap m Φ mem sent w awake seen o h.1 a.0 h.4)
  receiving_swap-Keeps (finished sent) w awake seen o a h =
      finished-Keeps sent (swap States.empty o)
        (receiving_swap m Φ mem sent w awake seen o h.1 a.0 h.4)
  receiving_swap-Keeps _ w awake seen o a h = elim a [ ]

  receiving_exchange-Keeps :
      (σ : SenderPhase) (w : ReceiverWaker) (awake seen : Bool) (s f : Ordering)
      → Agree m σ (receiving w awake seen) mem
      → AtomicRule (receiving w awake seen) (compare_exchange States.receiving States.empty s f) Φ
      → AtomicKeeps σ (compare_exchange States.receiving States.empty s f)
  receiving_exchange-Keeps (alive written closed) w awake true s f a h = cc
  receiving_exchange-Keeps (alive written closed) w awake false s f a h =
      (armed w, ground arith, ground arith, rw a.0.state_is h.2)
  receiving_exchange-Keeps (claimed sent) w awake seen s f a h =
      (receiving w false true, ground arith, ground arith, rw a.0.state_is h.3)
  receiving_exchange-Keeps (holding sent v) w awake seen s f a h =
      (receiving w false true, ground arith, ground arith, rw a.0.state_is h.3)
  receiving_exchange-Keeps (notifying sent v) w awake seen s f a h =
      notifying-Keeps sent v (compare_exchange States.receiving States.empty s f)
        (receiving_exchange m Φ mem sent w awake seen s f a.0 h.4)
  receiving_exchange-Keeps (finished sent) w awake seen s f a h =
      finished-Keeps sent (compare_exchange States.receiving States.empty s f)
        (receiving_exchange m Φ mem sent w awake seen s f a.0 h.4)
  receiving_exchange-Keeps _ w awake seen s f a h = elim a [ ]

  expired_load-Keeps :
      (σ : SenderPhase) (w : ReceiverWaker) (awake : Bool) (o : Ordering)
      → Agree m σ (expired w awake) mem
      → AtomicRule (expired w awake) (load o) Φ
      → AtomicKeeps σ (load o)
  expired_load-Keeps (claimed sent) w awake o a h =
      (expired w false, ground arith, ground arith, rw a.0.state_is h.0)
  expired_load-Keeps (holding sent v) w awake o a h =
      (expired w false, ground arith, ground arith, rw a.0.state_is h.0)
  expired_load-Keeps (notifying sent v) w awake o a h =
      notifying-Keeps sent v (load o) (expired_load m Φ mem sent w awake o a.0 h.1)
  expired_load-Keeps (finished sent) w awake o a h =
      finished-Keeps sent (load o) (expired_load m Φ mem sent w awake o a.0 h.1)
  expired_load-Keeps _ w awake o a h = elim a [ ]

  -- With the sender through, the receiver's operations are those of a single thread.
  settled-Keeps :
      (σ : SenderPhase) (ρ : ReceiverPhase) (op : AtomicOp)
      → Through m σ ρ mem
      → ((sent : Bool) → AgreeFinal m sent ρ mem → AloneKeeps m Φ sent op mem)
      → AtomicKeeps σ op
  settled-Keeps σ ρ op t alone =
      let (ρ', live, a, h) = alone t.sent t.final in (ρ', live, t.lift ρ' _ a, h)

  -- An operation with the operands that a rule asks for.
  swap_with :
      (σ : SenderPhase) (u v : ℕ) (o : Ordering)
      → v ≡ u
      → AtomicKeeps σ (swap u o)
      → AtomicKeeps σ (swap v o)
  swap_with σ u v o e k = subst (λ x. AtomicKeeps σ (swap x o)) (sym e) k

  exchange_with :
      (σ : SenderPhase) (c n c' n' : ℕ) (s f : Ordering)
      → c' ≡ c
      → n' ≡ n
      → AtomicKeeps σ (compare_exchange c n s f)
      → AtomicKeeps σ (compare_exchange c' n' s f)
  exchange_with σ c n c' n' s f e d k =
      subst (λ x. AtomicKeeps σ (compare_exchange x n' s f)) (sym e)
        (subst (λ x. AtomicKeeps σ (compare_exchange c x s f)) (sym d) k)

  pub atomic-Keeps :
      (σ : SenderPhase) (ρ : ReceiverPhase) (op : AtomicOp)
      → Agree m σ ρ mem
      → AtomicRule ρ op Φ
      → AtomicKeeps σ op
  atomic-Keeps σ idle (load o) a h = idle_load-Keeps σ o a h
  atomic-Keeps σ idle (swap v o) a h = swap_with σ States.disconnected v o h.0 (
      subst (λ x. AtomicKeeps σ (swap States.disconnected x)) (sym h.1)
        (idle_swap-Keeps σ a (refl, refl, h.2, h.3)))
  atomic-Keeps σ (armed w) (swap v o) a h =
      swap_with σ States.receiving v o h.0 (armed_swap-Keeps σ w o a (refl, h.1, h.2, h.3))
  atomic-Keeps σ (armed w) (compare_exchange c n s f) a h =
      exchange_with σ States.empty States.receiving c n s f h.0 h.1
        (armed_exchange-Keeps σ w s f a (refl, refl, h.2, h.3, h.4))
  atomic-Keeps σ (receiving w awake seen) (load o) a h = receiving_load-Keeps σ w awake seen o a h
  atomic-Keeps σ (receiving w awake seen) (swap v o) a h =
      swap_with σ States.empty v o h.0
        (receiving_swap-Keeps σ w awake seen o a (refl, h.1, h.2, h.3, h.4))
  atomic-Keeps σ (receiving w awake seen) (compare_exchange c n s f) a h =
      exchange_with σ States.receiving States.empty c n s f h.0 h.1
        (receiving_exchange-Keeps σ w awake seen s f a (refl, refl, h.2, h.3, h.4))
  atomic-Keeps σ (expired w awake) (load o) a h = expired_load-Keeps σ w awake o a h
  atomic-Keeps σ (got s waker y visible) (load o) a h =
      settled-Keeps σ _ (load o) (got-Through m σ s waker y visible mem a)
        (λ sent b. got_load m Φ mem sent s waker y visible o b h)
  atomic-Keeps σ (got s waker y visible) (store v o) a h =
      settled-Keeps σ _ (store v o) (got-Through m σ s waker y visible mem a)
        (λ sent b. got_store m Φ mem sent s waker y visible v o b h)
  atomic-Keeps σ (got s waker y visible) (swap v o) a h =
      settled-Keeps σ _ (swap v o) (got-Through m σ s waker y visible mem a)
        (λ sent b. got_swap m Φ mem sent s waker y visible v o b h)
  atomic-Keeps σ (over b s waker y) (load o) a h =
      settled-Keeps σ _ (load o) (over-Through m σ b s waker y mem a)
        (λ sent f. over_load m Φ mem sent b s waker y o f h)
  atomic-Keeps σ (over b s waker y) (store v o) a h =
      settled-Keeps σ _ (store v o) (over-Through m σ b s waker y mem a)
        (λ sent f. over_store m Φ mem sent b s waker y v o f h)
  atomic-Keeps σ (over b s waker y) (swap v o) a h =
      settled-Keeps σ _ (swap v o) (over-Through m σ b s waker y mem a)
        (λ sent f. over_swap m Φ mem sent b s waker y v o f h)
  atomic-Keeps σ _ _ a h = elim h [ ]
