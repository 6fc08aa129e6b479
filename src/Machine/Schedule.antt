-- ===== src/Machine/Schedule.antt =====
-- Runs of the two threads in a given order.
use oneshot.Prelude.{ℕ, zero, suc, ◌≡◌, refl, ap, ◌∙◌, List, [], ◌∷◌}
use oneshot.Memory.{Memory, Model}
use oneshot.Memory.HappensBefore.{sender, receiver}
use oneshot.Program.{Program, ret, act, park}
use oneshot.Machine.{
  Outcome, running, step, System, sender_step, receiver_step, spurious_wakeup, Reach, start, later,
}

-- Whose turn it is. `wakes`: the receiver's `park` returns spuriously.
pub data Turn : Type 0 where
  sends receives wakes : Turn

-- The receiver's turn, so many times.
abbrev pub turns : ℕ → List Turn
turns zero = []
turns (suc n) = receives ∷ turns n

-- The sender's turn, so many times.
abbrev pub sender_turns : ℕ → List Turn
sender_turns zero = []
sender_turns (suc n) = sends ∷ sender_turns n

module _ {T A B : Type 0} (model : Model) where
  abbrev sent : System T A B → Outcome T A → System T A B
  sent s (running mem p) = record { mem = mem; tx = p; rx = s.rx }
  sent s _ = s

  abbrev received : System T A B → Outcome T B → System T A B
  received s (running mem p) = record { mem = mem; tx = s.tx; rx = p }
  received s _ = s

  abbrev woken : System T A B → Program T B → System T A B
  woken s (act park p) = record { mem = s.mem; tx = s.tx; rx = p }
  woken s _ = s

  -- A thread that cannot go on loses its turn.
  unfoldable pub turn : Turn → System T A B → System T A B
  unfolding step
  turn sends s = sent s (step model sender s.tx s.mem)
  turn receives s = received s (step model receiver s.rx s.mem)
  turn wakes s = woken s s.rx

  unfoldable pub after : List Turn → System T A B → System T A B
  unfolding turn
  after [] s = s
  after (t ∷ ts) s = after ts (turn t s)

  sent-Reach :
      (s : System T A B) (o : Outcome T A)
      → step model sender s.tx s.mem ≡ o
      → Reach model s (sent s o)
  sent-Reach s (running mem p) e = later start (sender_step e refl)
  sent-Reach s _ e = start

  received-Reach :
      (s : System T A B) (o : Outcome T B)
      → step model receiver s.rx s.mem ≡ o
      → Reach model s (received s o)
  received-Reach s (running mem p) e = later start (receiver_step e refl)
  received-Reach s _ e = start

  woken-Reach : (s : System T A B) (p : Program T B) → s.rx ≡ p → Reach model s (woken s p)
  woken-Reach s (act park p) e = later start (spurious_wakeup e refl)
  woken-Reach s (act _ p) e = start
  woken-Reach s _ e = start

  turn-Reach : (t : Turn) (s : System T A B) → Reach model s (turn t s)
  unfolding turn
  turn-Reach sends s = sent-Reach s (step model sender s.tx s.mem) refl
  turn-Reach receives s = received-Reach s (step model receiver s.rx s.mem) refl
  turn-Reach wakes s = woken-Reach s s.rx refl

  pub Reach-trans : {s t u : System T A B} → Reach model s t → Reach model t u → Reach model s u
  Reach-trans r start = r
  Reach-trans r (later r' st) = later (Reach-trans r r') st

  pub after-Reach : (ts : List Turn) (s : System T A B) → Reach model s (after ts s)
  unfolding after
  after-Reach [] s = start
  after-Reach (t ∷ ts) s = Reach-trans (turn-Reach t s) (after-Reach ts (turn t s))

  pub received-turns :
      (n : ℕ) (s : System T A B) {mem : Memory T} {p : Program T B}
      → step model receiver s.rx s.mem ≡ running mem p
      → after (turns (suc n)) s ≡ after (turns n) (record { mem = mem; tx = s.tx; rx = p })
  unfolding after turn
  received-turns n s e = ap (λ o. after (turns n) (received s o)) e

  -- A receiver that has returned stays as it is.
  pub ret-turns : (n : ℕ) (s : System T A B) {b : B} → s.rx ≡ ret b → after (turns n) s ≡ s
  unfolding after turn step
  ret-turns zero s e = refl
  ret-turns (suc n) s e =
      ap (λ p. after (turns n) (received s (step model receiver p s.mem))) e ∙ ret-turns n s e

  pub sent-turns :
      (n : ℕ) (s : System T A B) {mem : Memory T} {p : Program T A}
      → step model sender s.tx s.mem ≡ running mem p
      → after (sender_turns (suc n)) s
        ≡ after (sender_turns n) (record { mem = mem; tx = p; rx = s.rx })
  unfolding after turn
  sent-turns n s e = ap (λ o. after (sender_turns n) (sent s o)) e

  -- So does a sender.
  pub ret-sender_turns :
      (n : ℕ) (s : System T A B) {a : A} → s.tx ≡ ret a → after (sender_turns n) s ≡ s
  unfolding after turn step
  ret-sender_turns zero s e = refl
  ret-sender_turns (suc n) s e =
      ap (λ p. after (sender_turns n) (sent s (step model sender p s.mem))) e
      ∙ ret-sender_turns n s e
