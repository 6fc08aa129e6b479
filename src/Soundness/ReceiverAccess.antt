-- ===== src/Soundness/ReceiverAccess.antt =====
-- The effects of the receiving thread, one by one: each keeps the phases and the memory in agreement.
use oneshot.Prelude.{
  ℕ, ◌≡◌, ◌⊎◌, ◌&&◌, inl, inr, refl, sym, subst, Bool, true, false, if◌then◌else◌, arith,
}
use oneshot.Atomic.{Ordering, acquires}
use oneshot.Memory.{Memory, Model, interleaving, is_racy, Slot, Access, done, init, uninit}
use oneshot.Memory.HappensBefore.{receiver}
use oneshot.Memory
use oneshot.Machine.{Outcome, running, returned, blocked, exhausted, resume, act_on}
use oneshot.Program.{Program, spin_loop, unpark}
use oneshot.Protocol.Phases.{
  SenderPhase, finished, owner, ReceiverPhase, idle, armed, receiving, expired, got, over, released,
  Sync, synced, carried, detached, CanTake,
}
use oneshot.Protocol.Agreement.{Agree, Synced, Woken}
use oneshot.Protocol.ReceiverRules.{ActRule, Receives}
use oneshot.Soundness.Access.{take_message-done, write_waker-done, take_waker-done, free-done}
use oneshot.Soundness.Through.{WakerSeen-mono, MessageSeen-mono, Through}
use oneshot.Soundness.Cells
use oneshot.Soundness.Waking.{wake-Agree}
use oneshot.Waker.{ReceiverWaker, thread, task}

-- A receiver that waits on a thread's token has it when the sender is through.
module _ {T : Type 0} (m : T) (mem : Memory T) where
  lost : (w : ReceiverWaker) → Woken w mem → w ≡ thread → mem.token ≡ false → ⊥
  lost thread r e t = cc
  lost (task i) r e t = cc

module _ (T : Type 0) (model : Model) (Φ : ReceiverPhase → Type 0) where
  pub ActRule-spin_loop : (ρ : ReceiverPhase) → ActRule {T = T} model ρ spin_loop Φ → Φ ρ
  ActRule-spin_loop idle h = h
  ActRule-spin_loop (got s uninit y visible) h = h
  ActRule-spin_loop (got s (init w) y visible) h = h
  ActRule-spin_loop (over b s uninit y) h = h
  ActRule-spin_loop (over b s (init w) y) h = h
  ActRule-spin_loop _ h = h

  pub ActRule-unpark :
      (ρ : ReceiverPhase) (w : ReceiverWaker) → ActRule {T = T} model ρ (unpark w) Φ → Φ ρ
  ActRule-unpark idle w h = h
  ActRule-unpark (got s uninit y visible) w h = h
  ActRule-unpark (got s (init u) y visible) w h = h
  ActRule-unpark (over b s uninit y) w h = h
  ActRule-unpark (over b s (init u) y) w h = h
  ActRule-unpark _ w h = h

module _ {T R : Type 0} (model : Model) (m : T) (Q : R → ReceiverPhase → Type 0) where
  -- The outcome of a step after which the protocol can go on. The receiver is blocked only while the
  -- sender has something left to do.
  abbrev pub Keeps : SenderPhase → Outcome T R → Type 0
  Keeps σ (running mem p) = (ρ : ReceiverPhase) × Agree m σ ρ mem × Receives model m Q ρ p
  Keeps σ (returned r) = Unit
  Keeps σ exhausted = Unit
  Keeps (finished sent) blocked = ⊥
  Keeps (owner full) blocked = ⊥
  Keeps SenderPhase.released blocked = ⊥
  Keeps _ blocked = Unit
  Keeps σ _ = ⊥

  pub resume-Keeps :
      {A : Type 0} (σ : SenderPhase) (k : A → Program T R) {a : A} {mem : Memory T}
      (access : Access A T)
      → access ≡ done a mem
      → (ρ : ReceiverPhase) × Agree m σ ρ mem × Receives model m Q ρ (k a)
      → Keeps σ (resume access k)
  resume-Keeps σ k access e h = subst (λ x. Keeps σ (resume x k)) (sym e) h

  module _ (mem : Memory T) (σ : SenderPhase) where
    pub write_waker-Keeps :
        (w : ReceiverWaker) (p : Program T R)
        → Agree m σ idle mem
        → Receives model m Q (armed w) p
        → Keeps σ (resume (Memory.write_waker model receiver w mem) (λ _. p))
    write_waker-Keeps w p a h =
        let r = Cells.idle-Accessible m mem σ a in
        resume-Keeps σ _ _ (write_waker-done model receiver mem r.live w r.seen r.holds)
          (armed w, Cells.write_waker-Agree m mem σ w a, h)

    pub drop_waker-Keeps :
        (w : ReceiverWaker) (p : Program T R)
        → Agree m σ (armed w) mem
        → Receives model m Q idle p
        → Keeps σ (resume (Memory.take_waker model receiver mem) (λ _. p))
    drop_waker-Keeps w p a h =
        let r = Cells.armed-Accessible m mem σ w a in
        resume-Keeps σ _ _ (take_waker-done model receiver mem r.live w r.seen r.holds)
          (idle, Cells.drop_waker-Agree m mem σ w a, h)

    pub got-drop_waker :
        (s : ℕ) (w : ReceiverWaker) (y : Sync) (visible : Bool) (p : Program T R)
        → Through m σ (got s (init w) y visible) mem
        → Receives model m Q (got s uninit y visible) p
        → Keeps σ (resume (Memory.take_waker model receiver mem) (λ _. p))
    got-drop_waker s w y visible p t h =
        let (shape, sync, seen, vis, sent) = t.final in
        resume-Keeps σ _ _ (take_waker-done model receiver mem shape.live w seen shape.waker_is) (
          got s uninit y visible,
          t.lift _ _ (
            ground arith,
            Cells.Synced-stored m mem uninit y sync,
            tt,
            MessageSeen-mono mem _ (ground arith) visible vis,
            sent,
          ),
          h,
        )

    pub over-drop_waker :
        (b : Bool) (s : ℕ) (w : ReceiverWaker) (y : Sync) (p : Program T R)
        → Through m σ (over b s (init w) y) mem
        → Receives model m Q (over b s uninit y) p
        → Keeps σ (resume (Memory.take_waker model receiver mem) (λ _. p))
    over-drop_waker b s w y p t h =
        let (shape, sync, seen, sent) = t.final in
        resume-Keeps σ _ _ (take_waker-done model receiver mem shape.live w seen shape.waker_is) (
          over b s uninit y,
          t.lift _ _ (ground arith, Cells.Synced-stored m mem uninit y sync, tt, sent),
          h,
        )

    pub take-Keeps :
        (s : ℕ) (waker : Slot ReceiverWaker) (y : Sync) (visible : Bool) (k : T → Program T R)
        → Through m σ (got s waker y visible) mem
        → CanTake y visible
        → Receives model m Q (over true s waker y) (k m)
        → Keeps σ (resume (Memory.take_message model receiver mem) k)
    take-Keeps s waker y visible k t c h =
        let (shape, sync, seen, vis, sent) = t.final in
        resume-Keeps σ k _
          (take_message-done model receiver mem shape.live m
            (Cells.CanTake-seen m mem y visible c sync vis) shape.message_is)
          (
            over true s waker y,
            t.lift _ _ (
              ground arith,
              Cells.Synced-emptied m mem y sync,
              WakerSeen-mono mem _ (ground arith) waker seen,
              sent,
            ),
            h,
          )

    pub fence-got :
        (s : ℕ) (waker : Slot ReceiverWaker) (y : Sync) (visible : Bool) (o : Ordering)
        (p : Program T R)
        → Through m σ (got s waker y visible) mem
        → acquires o ≡ true
        → Receives model m Q (got s waker synced visible) p
        → Keeps σ (running (Memory.fence receiver o mem) p)
    fence-got s waker y visible o p t e h =
        let (shape, sync, seen, vis, sent) = t.final in
        (
          got s waker synced visible,
          t.lift _ _ (
            ground arith,
            Cells.Synced-fence m mem o y e sync,
            WakerSeen-mono mem _ (ground arith) waker seen,
            MessageSeen-mono mem _ (ground arith) visible vis,
            sent,
          ),
          h,
        )

    pub fence-over :
        (b : Bool) (s : ℕ) (waker : Slot ReceiverWaker) (y : Sync) (o : Ordering) (p : Program T R)
        → Through m σ (over b s waker y) mem
        → acquires o ≡ true
        → Receives model m Q (over b s waker synced) p
        → Keeps σ (running (Memory.fence receiver o mem) p)
    fence-over b s waker y o p t e h =
        let (shape, sync, seen, sent) = t.final in
        (
          over b s waker synced,
          t.lift _ _ (
            ground arith,
            Cells.Synced-fence m mem o y e sync,
            WakerSeen-mono mem _ (ground arith) waker seen,
            sent,
          ),
          h,
        )

    pub ordered :
        (y : Sync)
        → (model ≡ interleaving) ⊎ (y ≡ synced)
        → Synced y mem
        → let seen = mem.views.receiver.seen in
          is_racy (seen.message && seen.waker && seen.channel) model ≡ false
    ordered y (inl e) h = ground arith
    ordered synced (inr e) h = ground arith
    ordered carried (inr e) h = cc
    ordered detached (inr e) h = cc

    pub free-Keeps :
        (b : Bool) (s : ℕ) (y : Sync) (p : Program T R)
        → Through m σ (over b s uninit y) mem
        → (model ≡ interleaving) ⊎ (y ≡ synced)
        → Receives model m Q (released b) p
        → Keeps σ (resume (Memory.free model receiver mem) (λ _. p))
    free-Keeps b s y p t o h =
        let (shape, sync, seen, sent) = t.final in
        resume-Keeps σ _ _
          (free-done model receiver mem shape.live (ordered y o sync) shape.message_is
            shape.waker_is shape.tight)
          (released b, t.lift (released b) _ (ground arith), h)

    pub park-Keeps :
        (ρ : ReceiverPhase) (p : Program T R) (token : Bool)
        → (token ≡ true → Agree m σ ρ (record mem { token = false }))
        → (token ≡ false → Keeps σ blocked)
        → Receives model m Q ρ p
        → Keeps σ (if token then running (record mem { token = false }) p else blocked)
    park-Keeps ρ p true awake waits h = (ρ, awake refl, h)
    park-Keeps ρ p false awake waits h = waits refl

    pub unpark-Keeps :
        (ρ : ReceiverPhase) (w : ReceiverWaker) (p : Program T R)
        → Agree m σ ρ mem
        → Receives model m Q ρ p
        → Keeps σ (act_on model receiver (unpark w) mem p)
    unpark-Keeps ρ w p a h = (ρ, wake-Agree m w σ ρ mem a, h)

    pub receiving-blocked :
        (w : ReceiverWaker) (seen : Bool)
        → Agree m σ (receiving w false seen) mem
        → w ≡ thread
        → mem.token ≡ false
        → Keeps σ blocked
    receiving-blocked w seen a e t = waits σ a
      where
        waits : (σ' : SenderPhase) → Agree m σ' (receiving w false seen) mem → Keeps σ' blocked
        waits (finished sent) a' = lost m mem w a'.1 e t
        waits (owner full) a' = elim a' [ ]
        waits SenderPhase.released a' = elim a' [ ]
        waits _ a' = tt

    pub expired-blocked :
        (w : ReceiverWaker)
        → Agree m σ (expired w false) mem
        → w ≡ thread
        → mem.token ≡ false
        → Keeps σ blocked
    expired-blocked w a e t = waits σ a
      where
        waits : (σ' : SenderPhase) → Agree m σ' (expired w false) mem → Keeps σ' blocked
        waits (finished sent) a' = lost m mem w a'.1 e t
        waits (owner full) a' = elim a' [ ]
        waits SenderPhase.released a' = elim a' [ ]
        waits _ a' = tt
