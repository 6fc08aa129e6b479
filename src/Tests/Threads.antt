-- ===== src/Tests/Threads.antt =====
-- Runs of the two threads: src/sender.rs against src/receiver.rs.
use oneshot.Prelude.{ℕ, ◌≡◌, ◌≤◌, refl, Bool, true, List, [], ◌∷◌, Result, ok, err, arith}
use oneshot.Errors.{RecvError}
use oneshot.Memory.{interleaving, release_acquire, use_after_free, data_race, fresh}
use oneshot.Memory.HappensBefore.{sender, receiver}
use oneshot.Machine.{System, Reach, start, later, sender_step, receiver_step, step, blocked, failed}
use oneshot.Machine.Counting.{sender_effects}
use oneshot.Machine.Schedule.{Turn, sends, receives, sender_turns, after, after-Reach}
use oneshot.Program.{ret}
use oneshot.Channel.{Poll, ready}
use oneshot.Waker.{Context}
use oneshot.Soundness.System.{IsSound, IsFree}
use oneshot.Sender.{SendError, send_error}
use oneshot.Sender
use oneshot.Receiver
use oneshot.Receiver.Async
use oneshot.Client.{
  unwrapped, discarded, SenderUse, drops, SenderResult, delivered, refused, gone, sender_client,
  ReceiverCall, has_message, recv_timeout, recv, drop, receiver_client, polls, polled, tests_closed,
  AwaitResult,
}
use oneshot.Client
use oneshot.Delivery.{clients}
use oneshot.Delivery.Safety.{clients-IsSound}
use oneshot.Delivery.Settlement.{Got, IsReclaimed, clients-Got}
use oneshot.Delivery.Progress.{Next, clients-awake, clients-Next}
use oneshot.Delivery.Polling.{pollers, Polled, pollers-Polled}
use oneshot.Delivery.Futures.{awaited, Awaited, awaited-IsSound, awaited-Awaited}
use oneshot.Delivery.Guarantees.{test_and_send, is_closed-send}
use oneshot.Delivery.WaitFree.{sender_client-wait_free}
use oneshot.Flaws.AsyncDrop.{polled_once, drop-use_after_free}
use oneshot.Flaws.ExpiredDeadline.{received_late, drop-data_race}

-- The receiver parks; the sender sends 7 and wakes it.
abbrev parked_first : System ℕ (SenderResult ℕ) (List ℕ)
parked_first = clients 0 1 3 (SenderUse.sends 7 unwrapped) (has_message ∷ []) recv

abbrev woken_turns : List Turn
woken_turns =
    receives ∷ receives ∷ receives ∷ receives ∷ sends ∷ sends ∷ sends ∷ sends ∷ sends ∷ sends ∷ []

abbrev all_turns : List Turn
all_turns =
    receives ∷ receives ∷ receives ∷ receives ∷ sends ∷ sends ∷ sends ∷ sends ∷ sends ∷ sends
    ∷ receives ∷ receives ∷ receives ∷ receives ∷ []

clients-IsSound_example :
    IsFree (
      step release_acquire sender
        (after release_acquire woken_turns parked_first).tx
        (after release_acquire woken_turns parked_first).mem)
    × IsSound (
        step release_acquire receiver
          (after release_acquire woken_turns parked_first).rx
          (after release_acquire woken_turns parked_first).mem)
clients-IsSound_example =
    clients-IsSound release_acquire 7 0 1 3 (SenderUse.sends 7 unwrapped) (has_message ∷ []) recv
      (after release_acquire woken_turns parked_first) refl tt
      (after-Reach release_acquire woken_turns parked_first)

clients-Got_example :
    Got {T = ℕ} 7 delivered recv (7 ∷ [])
    × IsReclaimed (after release_acquire all_turns parked_first).mem
unfolding after step fresh sender_client receiver_client Client.use_sender Client.call Client.finish
    Sender.send Sender.is_closed Receiver.has_message Receiver.recv Receiver.recv_swapped
    Receiver.recv_parked
clients-Got_example =
    clients-Got release_acquire 7 0 1 3 (SenderUse.sends 7 unwrapped) (has_message ∷ []) recv
      (after release_acquire all_turns parked_first) delivered (7 ∷ []) refl tt
      (after-Reach release_acquire all_turns parked_first) refl refl

clients-awake_example : ¬ (
    step interleaving receiver
      (after interleaving woken_turns parked_first).rx
      (after interleaving woken_turns parked_first).mem
    ≡ blocked)
unfolding after step fresh sender_client receiver_client Client.use_sender Client.call Client.finish
    Sender.send Sender.is_closed Receiver.has_message Receiver.recv Receiver.recv_swapped
    Receiver.recv_parked
clients-awake_example =
    clients-awake interleaving 7 0 1 3 (SenderUse.sends 7 unwrapped) (has_message ∷ []) recv
      (after interleaving woken_turns parked_first) delivered refl tt
      (after-Reach interleaving woken_turns parked_first) refl

clients-Next_example : Next interleaving (after interleaving (receives ∷ sends ∷ []) parked_first)
unfolding after step fresh sender_client receiver_client Client.use_sender Client.call Client.finish
    Sender.send Sender.is_closed Receiver.has_message Receiver.recv Receiver.recv_swapped
    Receiver.recv_parked
clients-Next_example =
    clients-Next interleaving 7 0 1 3 (SenderUse.sends 7 unwrapped) (has_message ∷ []) recv
      (after interleaving (receives ∷ sends ∷ []) parked_first) refl tt
      (later (later start (receiver_step refl refl)) (sender_step refl refl)) (omega arith)

-- A future that is polled, woken, and polled again.
abbrev task_4 : Context
task_4 = record { waker = 4 }

abbrev polled_twice : System ℕ (SenderResult ℕ) (Poll (Result ℕ RecvError))
polled_twice = pollers 0 0 2 (SenderUse.sends 7 unwrapped) task_4 (task_4 ∷ [])

abbrev poll_turns : List Turn
poll_turns =
    receives ∷ receives ∷ receives ∷ sends ∷ sends ∷ sends ∷ sends ∷ sends ∷ receives ∷ receives
    ∷ receives ∷ receives ∷ receives ∷ receives ∷ receives ∷ []

-- The receiver is called before it is made a future, and the future tested before it is polled again.
abbrev called_first : System ℕ (SenderResult ℕ) (AwaitResult ℕ)
called_first =
    awaited 0 0 2 (SenderUse.sends 7 unwrapped) (has_message ∷ [])
      (polled task_4 ∷ tests_closed ∷ polled task_4 ∷ [])

awaited-IsSound_example :
    IsFree (
      step release_acquire sender
        (after release_acquire poll_turns called_first).tx
        (after release_acquire poll_turns called_first).mem)
    × IsSound (
        step release_acquire receiver
          (after release_acquire poll_turns called_first).rx
          (after release_acquire poll_turns called_first).mem)
awaited-IsSound_example =
    awaited-IsSound release_acquire 7 0 0 2 (SenderUse.sends 7 unwrapped) (has_message ∷ [])
      (polled task_4 ∷ tests_closed ∷ polled task_4 ∷ [])
      (after release_acquire poll_turns called_first) refl (tt, tt)
      (after-Reach release_acquire poll_turns called_first)

abbrev await_turns : List Turn
await_turns = receives ∷ receives ∷ poll_turns

awaited-Awaited_example :
    Awaited 7 delivered true (7 ∷ []) (after release_acquire await_turns called_first).mem
unfolding after step fresh sender_client Client.future_client Client.awaited_client Client.call
    Client.use_sender Receiver.has_message Sender.send Async.poll Async.poll_message Async.is_closed
    Async.drop Async.drop_waiting
awaited-Awaited_example =
    awaited-Awaited release_acquire 7 0 0 2 (SenderUse.sends 7 unwrapped) (has_message ∷ [])
      (polled task_4 ∷ tests_closed ∷ polled task_4 ∷ [])
      (after release_acquire await_turns called_first) delivered
      (record { is_ready = true; messages = 7 ∷ [] }) refl (tt, tt)
      (after-Reach release_acquire await_turns called_first) refl refl

pollers-Polled_example :
    Polled 7 task_4 delivered (ready (ok 7)) (after release_acquire poll_turns polled_twice).mem
unfolding after step fresh sender_client polls Client.use_sender Sender.send Async.poll
    Async.poll_message Async.drop Async.drop_waiting
pollers-Polled_example =
    pollers-Polled release_acquire 7 0 0 2 1 (SenderUse.sends 7 unwrapped) task_4
      (after release_acquire poll_turns polled_twice) delivered (ready (ok 7)) refl
      (after-Reach release_acquire poll_turns polled_twice) refl refl

abbrev not_sent : Result (Unit {0}) SendError
not_sent = err send_error

abbrev closed_first : System ℕ (Bool × Result (Unit {0}) SendError) (List ℕ)
closed_first = record { mem = fresh 0; tx = test_and_send 7; rx = receiver_client 1 [] drop }

is_closed-send_example : not_sent ≡ err send_error
unfolding after step fresh receiver_client Client.finish Sender.send Sender.is_closed Receiver.drop
is_closed-send_example =
    is_closed-send release_acquire 7 0 1 [] drop
      (after release_acquire (receives ∷ sends ∷ sends ∷ sends ∷ []) closed_first) not_sent tt
      (after-Reach release_acquire (receives ∷ sends ∷ sends ∷ sends ∷ []) closed_first) refl

-- The receiver has parked, the sender has written its message.
abbrev written : System ℕ (SenderResult ℕ) (List ℕ)
written =
    after interleaving (receives ∷ receives ∷ receives ∷ receives ∷ sends ∷ sends ∷ []) parked_first

sender_client-wait_free_example :
    (sender_effects interleaving (
        after-Reach interleaving
          (receives ∷ receives ∷ receives ∷ receives ∷ sends ∷ sends ∷ [])
          parked_first)
      ≤ 6)
    × (a : SenderResult ℕ) × ((after interleaving (sender_turns 6) written).tx ≡ ret a)
sender_client-wait_free_example =
    sender_client-wait_free interleaving 7 0 1 3 (SenderUse.sends 7 unwrapped) (has_message ∷ [])
      recv written refl tt
      (after-Reach interleaving (receives ∷ receives ∷ receives ∷ receives ∷ sends ∷ sends ∷ [])
        parked_first)

drop-use_after_free_example :
    (s : System ℕ (Result (Unit {0}) SendError) (Unit {0})) × Reach interleaving
      (polled_once 1 task_4 7)
      s
    × (step interleaving sender s.tx s.mem ≡ failed use_after_free)
drop-use_after_free_example = drop-use_after_free 0 task_4 7

drop-data_race_example :
    (s : System ℕ (Result (Unit {0}) SendError) (Unit {0})) × Reach release_acquire
      (received_late 2 7)
      s
    × (step release_acquire receiver s.rx s.mem ≡ failed data_race)
drop-data_race_example = drop-data_race 0 7
