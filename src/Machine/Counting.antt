-- ===== src/Machine/Counting.antt =====
-- How many effects the threads have had in a run.
use oneshot.Prelude.{ℕ, suc, ◌+◌, ◌≡◌, refl, sym, subst, arith}
use oneshot.Memory.{Model}
use oneshot.Memory.HappensBefore.{sender, receiver}
use oneshot.Machine.{
  System, Step, sender_step, receiver_step, spurious_wakeup, time_passes, Reach, start, later,
}
use oneshot.Machine.Effects.{Within, Lasts, Leaves, Within-Leaves, Lasts-Leaves}

zero_add : (k : ℕ) → 0 + k ≡ k
zero_add k = omega arith

module _ {T A B : Type 0} (model : Model) where
  abbrev count_sender : {s u : System T A B} → Step model s u → ℕ → ℕ
  count_sender (sender_step e h) n = suc n
  count_sender _ n = n

  abbrev pub count_receiver : {s u : System T A B} → Step model s u → ℕ → ℕ
  count_receiver (receiver_step e h) n = suc n
  count_receiver (spurious_wakeup e h) n = suc n
  count_receiver _ n = n

  -- The effects of each thread in a run. A spurious wake-up counts as one of the receiver.
  abbrev pub sender_effects : {s u : System T A B} → Reach model s u → ℕ
  sender_effects start = 0
  sender_effects (later r st) = count_sender st (sender_effects r)

  abbrev pub receiver_effects : {s u : System T A B} → Reach model s u → ℕ
  receiver_effects start = 0
  receiver_effects (later r st) = count_receiver st (receiver_effects r)

  sender-Within :
      {s u : System T A B} (n e : ℕ) (st : Step model s u)
      → (k : ℕ) × (e + k ≡ n) × Within k s.tx
      → (k : ℕ) × (count_sender st e + k ≡ n) × Within k u.tx
  sender-Within {s} n e (sender_step {mem} {p} h same) (k, eq, w) =
      let (k', eq', w') = subst (Leaves _) h (Within-Leaves model sender s.mem k s.tx w) in
      (k', omega arith, subst (λ x. Within k' x.tx) (sym same) w')
  sender-Within n e (receiver_step h same) (k, eq, w) =
      (k, eq, subst (λ x. Within k x.tx) (sym same) w)
  sender-Within n e (spurious_wakeup h same) (k, eq, w) =
      (k, eq, subst (λ x. Within k x.tx) (sym same) w)
  sender-Within n e (time_passes t same) (k, eq, w) =
      (k, eq, subst (λ x. Within k x.tx) (sym same) w)

  pub sender_effects-Within :
      {s u : System T A B} (n : ℕ) (r : Reach model s u)
      → Within n s.tx
      → (k : ℕ) × (sender_effects r + k ≡ n) × Within k u.tx
  sender_effects-Within n start h = (n, omega arith, h)
  sender_effects-Within n (later r st) h =
      sender-Within n (sender_effects r) st (sender_effects-Within n r h)

  receiver-Lasts :
      {s u : System T A B} (n : ℕ) (st : Step model s u)
      → Lasts (count_receiver st n) s.rx
      → Lasts n u.rx
  receiver-Lasts {s} n (receiver_step {mem} {p} h same) l =
      subst (λ x. Lasts n x.rx) (sym same)
        (subst (Leaves (Lasts n)) h (Lasts-Leaves model receiver s.mem n s.rx l))
  receiver-Lasts n (sender_step h same) l = subst (λ x. Lasts n x.rx) (sym same) l
  receiver-Lasts {s} n (spurious_wakeup {p} h same) l =
      subst (λ x. Lasts n x.rx) (sym same) (subst (Lasts (suc n)) h l)
  receiver-Lasts n (time_passes t same) l = subst (λ x. Lasts n x.rx) (sym same) l

  count_receiver_lem :
      {s u : System T A B} (st : Step model s u) (e k : ℕ)
      → count_receiver st e + k ≡ e + count_receiver st k
  count_receiver_lem (receiver_step h same) e k = omega arith
  count_receiver_lem (spurious_wakeup h same) e k = omega arith
  count_receiver_lem (sender_step h same) e k = refl
  count_receiver_lem (time_passes t same) e k = refl

  pub receiver_effects-Lasts :
      {s u : System T A B} (k : ℕ) (r : Reach model s u)
      → Lasts (receiver_effects r + k) s.rx
      → Lasts k u.rx
  receiver_effects-Lasts {s} k start h = subst (λ n. Lasts n s.rx) (zero_add k) h
  receiver_effects-Lasts {s} k (later r st) h = receiver-Lasts k st (
      receiver_effects-Lasts (count_receiver st k) r
        (subst (λ n. Lasts n s.rx) (count_receiver_lem st (receiver_effects r) k) h))
