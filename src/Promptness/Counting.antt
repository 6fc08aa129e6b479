-- ===== src/Promptness/Counting.antt =====
-- How many effects a quick receiver has in a run after the sender's thread has ended.
use oneshot.Prelude.{ℕ, zero, suc, ◌+◌, ◌≡◌, ◌≤◌, refl, sym, subst, ap, arith}
use oneshot.Memory.{Model}
use oneshot.Memory.HappensBefore.{sender, receiver}
use oneshot.Program.{Program, ret, act, park}
use oneshot.Machine.{
  running, System, step, Step, sender_step, receiver_step, spurious_wakeup, time_passes, Reach,
  start, later,
}
use oneshot.Machine.Counting.{count_receiver, receiver_effects}
use oneshot.Promptness.{AnyEnd, Quick}
use oneshot.Promptness.Steps.{Goes, step-Goes, Shorter, Quick-Next}

module _ {T A B : Type 0} (model : Model) (n : ℕ) (a : A) where
  -- After `e` effects of the receiver, with the sender's thread at its end.
  abbrev Left : ℕ → System T A B → Type 0
  Left e s =
      (k : ℕ) × (e + k ≡ n) × Quick AnyEnd k s.mem.state s.rx × (s.mem.state ≤ 4) × (s.tx ≡ ret a)

  ended-stays :
      (s : System T A B) {mem : _} {p : Program T A}
      → s.tx ≡ ret a
      → ¬ (step model sender s.tx s.mem ≡ running mem p)
  unfolding step
  ended-stays s e h = let x = ap (λ t. step model sender t s.mem) e in cc

  park-Shorter : (k s : ℕ) (p : Program T B) → Quick AnyEnd k s (act park p) → s ≤ 4 → Shorter k s p
  park-Shorter zero s p h l = elim h [ ]
  park-Shorter (suc k) s p h l = (k, refl, h, l)

  Step-Left :
      {s u : System T A B} (e : ℕ) (st : Step model s u)
      → Left e s
      → Left (count_receiver model st e) u
  Step-Left {s} e (sender_step h same) (k, more, quick, small, ended) =
      elim (ended-stays s ended h) [ ]
  Step-Left {s} e (receiver_step {mem} {p} h same) (k, more, quick, small, ended) =
      let (k', one, quick', small') = subst (Goes (Shorter k)) h (
        step-Goes model receiver s.mem (Shorter k) s.rx
          (Quick-Next k s.mem.state s.rx small quick)) in
      subst (Left (suc e)) (sym same) (k', omega arith, quick', small', ended)
  Step-Left {s} e (spurious_wakeup {p} h same) (k, more, quick, small, ended) =
      let (k', one, quick', small') =
        park-Shorter k s.mem.state p (subst (Quick AnyEnd k s.mem.state) h quick) small in
      subst (Left (suc e)) (sym same) (k', omega arith, quick', small', ended)
  Step-Left e (time_passes ticks same) left = subst (Left e) (sym same) left

  pub Reach-Left :
      {s u : System T A B} (r : Reach model s u)
      → Quick AnyEnd n s.mem.state s.rx
      → s.mem.state ≤ 4
      → s.tx ≡ ret a
      → Left (receiver_effects model r) u
  Reach-Left start quick small ended = (n, omega arith, quick, small, ended)
  Reach-Left (later r st) quick small ended = Step-Left _ st (Reach-Left r quick small ended)
