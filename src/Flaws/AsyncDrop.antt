-- ===== src/Flaws/AsyncDrop.antt =====
-- `Drop for AsyncReceiver` of src/receiver.rs against a sender that is taking the waker.
use oneshot.Prelude.{ℕ, suc, ◌≡◌, refl, List, [], ◌∷◌, Result}
use oneshot.Memory.{interleaving, use_after_free, fresh}
use oneshot.Memory.HappensBefore.{sender}
use oneshot.Program.{◌>>=◌}
use oneshot.Machine.{System, Reach, failed, step}
use oneshot.Machine.Schedule.{Turn, sends, receives, after, after-Reach}
use oneshot.Waker.{Context}
use oneshot.Sender.{SendError}
use oneshot.Sender
use oneshot.Receiver.Async

-- A future that is polled once and then dropped, and a sender that sends.
abbrev pub polled_once :
    {T : Type 0} (fuel : ℕ) → Context → T → System T (Result (Unit {0}) SendError) (Unit {0})
polled_once fuel cx m = record {
  mem = fresh 0;
  tx = Sender.send m;
  rx = Async.poll fuel cx >>= λ _. Async.drop fuel;
}

-- The poll registers its waker; the sender claims it; the future is dropped before it was taken.
abbrev dropped_while_unparking : List Turn
dropped_while_unparking =
    receives ∷ receives ∷ receives ∷ sends ∷ sends ∷ receives ∷ receives ∷ receives ∷ receives
    ∷ receives ∷ receives ∷ []

-- With any message, context and fuel, the two threads can reach a state in which the sender's next
-- access, taking the waker, is a use after free: the future was polled once and then dropped, and
-- the drop overwrote `UNPARKING` with `DISCONNECTED`, read that value back and freed the channel.
pub drop-use_after_free :
    {T : Type 0} (fuel : ℕ) (cx : Context) (m : T)
    → (s : System T (Result (Unit {0}) SendError) (Unit {0})) × Reach interleaving
        (polled_once (suc fuel) cx m)
        s
      × (step interleaving sender s.tx s.mem ≡ failed use_after_free)
unfolding after step fresh Sender.send Async.poll Async.drop Async.drop_unparking Async.drop_waiting
drop-use_after_free fuel cx m =
    let s = polled_once (suc fuel) cx m in
    (
      after interleaving dropped_while_unparking s,
      after-Reach interleaving dropped_while_unparking s,
      refl,
    )
