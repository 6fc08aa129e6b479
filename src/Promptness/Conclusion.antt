-- ===== src/Promptness/Conclusion.antt =====
-- A quick receiver that is sound, woken and fueled comes to its end, once the sender is at its own.
use oneshot.Prelude.{ℕ, zero, suc, ◌+◌, ◌≡◌, ◌≤◌, ◌<◌, refl, subst, ap, ◌∙◌, arith}
use oneshot.Memory.{Memory, Model}
use oneshot.Memory.HappensBefore.{receiver}
use oneshot.Program.{Program, ret}
use oneshot.Machine.{
  Outcome, running, returned, blocked, exhausted, step, System, Reach, later, receiver_step,
}
use oneshot.Machine.Schedule.{turns, after, received-turns, ret-turns}
use oneshot.Machine.Counting.{receiver_effects}
use oneshot.Machine.Endings.{returned-ret}
use oneshot.Soundness.System.{IsSound}
use oneshot.Promptness.{AnyEnd, Quick}
use oneshot.Promptness.Steps.{Goes, step-Goes, Shorter, Quick-Next}

-- From the system `first`, with the fuel that the receiver's loops have.
module _ {T A B : Type 0} (model : Model) (first : System T A B) (a : A) (fuel : ℕ)
    (sound : (s : System T A B) → Reach model first s → IsSound (step model receiver s.rx s.mem))
    (awake : (s : System T A B)
      → Reach model first s
      → s.tx ≡ ret a
      → ¬ (step model receiver s.rx s.mem ≡ blocked))
    (fueled : (s : System T A B) (r : Reach model first s)
      → receiver_effects model r < fuel
      → ¬ (step model receiver s.rx s.mem ≡ exhausted)) where
  -- Both threads are through after so many turns of the receiver.
  abbrev pub Ends : ℕ → System T A B → Type 0
  Ends n s =
      (b : B) × ((after model (turns n) s).tx ≡ ret a) × ((after model (turns n) s).rx ≡ ret b)

  returned-Ends : (n : ℕ) (s : System T A B) (b : B) → s.tx ≡ ret a → s.rx ≡ ret b → Ends n s
  returned-Ends n s b ended e =
      let stays = ret-turns model n s e in
      (b, ap (λ u. u.tx) stays ∙ ended, ap (λ u. u.rx) stays ∙ e)

  -- The next turn, if a further effect leads to the end.
  step-Ends :
      (k : ℕ) (s : System T A B) (r : Reach model first s) (o : Outcome T B)
      → step model receiver s.rx s.mem ≡ o
      → IsSound o
      → s.tx ≡ ret a
      → receiver_effects model r + k < fuel
      → ((mem : Memory T) (p : Program T B)
          → step model receiver s.rx s.mem ≡ running mem p
          → Ends k s)
      → Ends k s
  step-Ends k s r (returned b) e safe ended enough go =
      returned-Ends k s b ended (returned-ret model receiver s.mem b s.rx e)
  step-Ends k s r blocked e safe ended enough go = elim (awake s r ended e) [ ]
  step-Ends k s r exhausted e safe ended enough go = elim (fueled s r (omega arith) e) [ ]
  step-Ends k s r (running mem p) e safe ended enough go = go mem p e
  step-Ends k s r _ e safe ended enough go = elim safe [ ]

  suc≢zero : (k : ℕ) → ¬ (suc k ≡ 0)
  suc≢zero k e = omega arith

  shorter :
      (k : ℕ) (s : System T A B) (mem : Memory T) (p : Program T B)
      → Quick AnyEnd k s.mem.state s.rx
      → s.mem.state ≤ 4
      → step model receiver s.rx s.mem ≡ running mem p
      → Shorter k mem.state p
  shorter k s mem p quick small e =
      subst (Goes (Shorter k)) e (
        step-Goes model receiver s.mem (Shorter k) s.rx (Quick-Next k s.mem.state s.rx small quick))

  pub runs-Ends :
      (k : ℕ) (s : System T A B) (r : Reach model first s)
      → Quick AnyEnd k s.mem.state s.rx
      → s.mem.state ≤ 4
      → s.tx ≡ ret a
      → receiver_effects model r + k < fuel
      → Ends k s
  runs-Ends zero s r quick small ended enough =
      step-Ends zero s r (step model receiver s.rx s.mem) refl (sound s r) ended enough λ mem p e.
        let (k, one, rest, small') = shorter zero s mem p quick small e in elim (suc≢zero k one) [ ]
  runs-Ends (suc k) s r quick small ended enough =
      step-Ends (suc k) s r (step model receiver s.rx s.mem) refl (sound s r) ended enough
        λ mem p e.
          let (k', one, quick', small') = shorter (suc k) s mem p quick small e in
          let same_bound : k' ≡ k = omega arith in
          let s' : System T A B = record { mem = mem; tx = s.tx; rx = p } in
          let (b, tx_ended, rx_ended) =
            runs-Ends k s' (later r (receiver_step e refl))
              (subst (λ n. Quick AnyEnd n mem.state p) same_bound quick') small' ended
              (omega arith) in
          let next = received-turns model k s e in
          (b, ap (λ u. u.tx) next ∙ tx_ended, ap (λ u. u.rx) next ∙ rx_ended)
