-- ===== src/Flaws/ExpiredDeadline.antt =====
-- `recv_deadline` of src/receiver.rs when the deadline passes while the sender takes the waker.
use oneshot.Prelude.{ℕ, suc, ◌≡◌, refl, List, [], ◌∷◌, Result}
use oneshot.Memory.{release_acquire, data_race, fresh}
use oneshot.Memory.HappensBefore.{receiver}
use oneshot.Program.{◌>>=◌}
use oneshot.Machine.{System, Reach, failed, step}
use oneshot.Machine.Schedule.{Turn, sends, receives, wakes, after, after-Reach}
use oneshot.Sender.{SendError}
use oneshot.Sender
use oneshot.Receiver
use oneshot.Receiver.Timed

-- At time 1, a receiver that waits for a message until time 0 and is then dropped.
abbrev pub received_late :
    {T : Type 0} (fuel : ℕ) → T → System T (Result (Unit {0}) SendError) (Unit {0})
received_late fuel m = record {
  mem = fresh 1;
  tx = Sender.send m;
  rx = Timed.recv_deadline fuel 0 >>= λ _. Receiver.drop;
}

-- The state `EMPTY` overwrites `UNPARKING`; the sender takes the waker and sets the final state; the
-- receiver goes on before it is unparked.
abbrev expired_while_unparking : List Turn
expired_while_unparking =
    receives ∷ receives ∷ receives ∷ receives ∷ sends ∷ sends ∷ receives ∷ sends ∷ sends ∷ wakes
    ∷ receives ∷ receives ∷ receives ∷ receives ∷ []

-- With any message and fuel of two or more, the two threads can reach a state in which freeing the
-- channel is a data race: `recv_deadline` timed out while the sender was taking the waker, read the
-- final state by a relaxed load with no fence and overwrote it, so that the drop of the receiver
-- does not synchronise with the sender's last accesses.
pub drop-data_race :
    {T : Type 0} (fuel : ℕ) (m : T)
    → (s : System T (Result (Unit {0}) SendError) (Unit {0})) × Reach release_acquire
        (received_late (suc (suc fuel)) m)
        s
      × (step release_acquire receiver s.rx s.mem ≡ failed data_race)
unfolding after step fresh Sender.send Timed.recv_deadline Timed.recv_deadline_parked
    Timed.recv_deadline_round Timed.recv_expired Timed.wait_for_unpark Receiver.drop
    Receiver.start_recv_ref Receiver.start_recv_swapped
drop-data_race fuel m =
    let s = received_late (suc (suc fuel)) m in
    (
      after release_acquire expired_while_unparking s,
      after-Reach release_acquire expired_while_unparking s,
      refl,
    )
