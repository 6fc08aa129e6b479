-- ===== src/Tests/Ends.antt =====
-- Runs of src/sender.rs and src/receiver.rs in which the sender ends before the receiver.
use oneshot.Prelude.{ℕ, ◌≡◌, ◌≤◌, ◌⊎◌, refl, Bool, false, List, [], ◌∷◌, err, arith}
use oneshot.Memory.{release_acquire, fresh}
use oneshot.Program.{ret}
use oneshot.Machine.{System, start, later, sender_step, receiver_step, step}
use oneshot.Machine.Counting.{receiver_effects}
use oneshot.Machine.Schedule.{Turn, sends, receives, turns, after, after-Reach}
use oneshot.Sender
use oneshot.Receiver
use oneshot.Client.{
  SenderUse, unwrapped, drops, SenderResult, delivered, gone, try_recv, recv_ref, recv_timeout,
  has_message, recv, sender_client, receiver_client,
}
use oneshot.Client
use oneshot.Client.{FutureCall, polled, tests_closed, AwaitResult}
use oneshot.Channel
use oneshot.Waker.{Context}
use oneshot.Receiver.Async
use oneshot.Delivery.Futures.{awaited, Awaited}
use oneshot.Delivery.FutureReturns.{awaited-returns}
use oneshot.Client.Available.{receive, by_call}
use oneshot.Client.Promised.{with_test, after_calls}
use oneshot.Client.Answers.{Answered, answer, timed}
use oneshot.Errors.{RecvTimeoutError}
use oneshot.Client.Promised
use oneshot.Delivery.Called.{called}
use oneshot.Delivery.Promises.{has_message-receives, is_closed-receives, is_closed-refusal}
use oneshot.Delivery.{clients}
use oneshot.Delivery.Settlement.{Got, IsReclaimed}
use oneshot.Delivery.Termination.{clients-state, clients-bounded}
use oneshot.Delivery.Returns.{clients-returns}

-- The receiver tests once and parks; the sender sends 7 and ends.
abbrev parked : System ℕ (SenderResult ℕ) (List ℕ)
parked = clients 0 1 40 (SenderUse.sends 7 unwrapped) (has_message ∷ []) recv

abbrev to_the_end : List Turn
to_the_end =
    receives ∷ receives ∷ receives ∷ receives ∷ sends ∷ sends ∷ sends ∷ sends ∷ sends ∷ sends ∷ []

abbrev sent : System ℕ (SenderResult ℕ) (List ℕ)
sent = after release_acquire to_the_end parked

abbrev next : System ℕ (SenderResult ℕ) (List ℕ)
next = after release_acquire (receives ∷ []) sent

clients-state_example : sent.mem.state ≤ 4
clients-state_example =
    clients-state release_acquire 7 0 1 40 (SenderUse.sends 7 unwrapped) (has_message ∷ []) recv
      sent refl tt (after-Reach release_acquire to_the_end parked)

clients-bounded_example :
    receiver_effects release_acquire (after-Reach release_acquire (receives ∷ []) sent) ≤ 16
unfolding after step fresh sender_client receiver_client Client.use_sender Client.call Client.finish
    Sender.send Sender.is_closed Receiver.has_message Receiver.recv Receiver.recv_swapped
    Receiver.recv_parked
clients-bounded_example =
    clients-bounded release_acquire 7 0 1 40 (SenderUse.sends 7 unwrapped) (has_message ∷ []) recv
      sent delivered next refl tt (after-Reach release_acquire to_the_end parked) refl
      (after-Reach release_acquire (receives ∷ []) sent)

clients-returns_example :
    (ns : List ℕ) × ((after release_acquire (turns 16) sent).rx ≡ ret ns)
    × Got 7 delivered recv ns
    × IsReclaimed (after release_acquire (turns 16) sent).mem
unfolding after step fresh sender_client receiver_client Client.use_sender Client.call Client.finish
    Sender.send Sender.is_closed Receiver.has_message Receiver.recv Receiver.recv_swapped
    Receiver.recv_parked
clients-returns_example =
    clients-returns release_acquire 7 0 1 40 (SenderUse.sends 7 unwrapped) (has_message ∷ []) recv
      sent delivered refl tt
      (later
        (later
          (later
            (later
              (later
                (later
                  (later
                    (later (later (later start (receiver_step refl refl)) (receiver_step refl refl))
                      (receiver_step refl refl))
                    (receiver_step refl refl))
                  (sender_step refl refl))
                (sender_step refl refl))
              (sender_step refl refl))
            (sender_step refl refl))
          (sender_step refl refl))
        (sender_step refl refl))
      refl (omega arith)

-- A receiver that tests, is made a future and polled; the sender wakes the task and ends.
abbrev task_4 : Context
task_4 = record { waker = 4 }

abbrev future_uses : List FutureCall
future_uses = polled task_4 ∷ tests_closed ∷ polled task_4 ∷ []

abbrev pending_first : System ℕ (SenderResult ℕ) (AwaitResult ℕ)
pending_first = awaited 0 0 60 (SenderUse.sends 7 unwrapped) (has_message ∷ []) future_uses

abbrev wakes : List Turn
wakes = receives ∷ receives ∷ receives ∷ receives ∷ sends ∷ sends ∷ sends ∷ sends ∷ sends ∷ []

abbrev woken : System ℕ (SenderResult ℕ) (AwaitResult ℕ)
woken = after release_acquire wakes pending_first

awaited-returns_example :
    (b : AwaitResult ℕ) × ((after release_acquire (turns 40) woken).rx ≡ ret b)
    × Awaited 7 delivered b.is_ready b.messages (after release_acquire (turns 40) woken).mem
unfolding after step fresh sender_client Client.use_sender Client.call Client.future_client
    Client.awaited_client Sender.send Receiver.has_message Async.poll Async.poll_message
    Async.is_closed Async.drop Async.drop_waiting Channel.write_async_waker
awaited-returns_example =
    awaited-returns release_acquire 7 0 0 60 (SenderUse.sends 7 unwrapped) (has_message ∷ [])
      future_uses woken delivered refl (tt, tt)
      (later
        (later
          (later
            (later
              (later
                (later
                  (later (later (later start (receiver_step refl refl)) (receiver_step refl refl))
                    (receiver_step refl refl))
                  (receiver_step refl refl))
                (sender_step refl refl))
              (sender_step refl refl))
            (sender_step refl refl))
          (sender_step refl refl))
        (sender_step refl refl))
      refl (omega arith)

-- The receiver finds nothing; the sender sends 7; the receiver tests and receives by reference.
abbrev tested_first : System ℕ (SenderResult ℕ) (Bool × List ℕ)
tested_first =
    called 0 0 60 (SenderUse.sends 7 unwrapped) (try_recv ∷ [])
      (with_test Receiver.has_message (receive 60 (by_call recv_ref)))

abbrev found : System ℕ (SenderResult ℕ) (Bool × List ℕ)
found = after release_acquire (receives ∷ sends ∷ sends ∷ []) tested_first

has_message-receives_example :
    (b : Bool) × (ns : List ℕ) × ((after release_acquire (turns 24) found).rx ≡ ret (b, ns))
    × ((b ≡ false) ⊎ (ns ≡ 7 ∷ []))
unfolding after step fresh sender_client Client.use_sender Client.call Client.Promised.after_calls
    Sender.send Receiver.try_recv Receiver.has_message
has_message-receives_example =
    has_message-receives release_acquire 7 0 0 60 (SenderUse.sends 7 unwrapped) (try_recv ∷ [])
      (by_call recv_ref) found delivered refl tt
      (later (later (later start (receiver_step refl refl)) (sender_step refl refl))
        (sender_step refl refl))
      refl (omega arith)

-- The receiver finds nothing; the sender is dropped; the receiver tests and goes on.
abbrev closed_first : System ℕ (SenderResult ℕ) (Bool × List ℕ)
closed_first =
    called 0 0 60 drops (try_recv ∷ [])
      (with_test Receiver.is_closed (receiver_client 60 (recv_ref ∷ []) recv))

abbrev closed : System ℕ (SenderResult ℕ) (Bool × List ℕ)
closed = after release_acquire (receives ∷ sends ∷ []) closed_first

is_closed-receives_example :
    (b : Bool) × (ns : List ℕ) × ((after release_acquire (turns 32) closed).rx ≡ ret (b, ns))
    × ((b ≡ false) ⊎ (ns ≡ []))
unfolding after step fresh sender_client Client.use_sender Client.call Client.Promised.after_calls
    Sender.drop Receiver.try_recv Receiver.is_closed
is_closed-receives_example =
    is_closed-receives release_acquire 7 0 0 60 drops (try_recv ∷ []) (recv_ref ∷ []) closed gone tt
      (later (later start (receiver_step refl refl)) (sender_step refl refl)) refl (omega arith)

abbrev refused_first : System ℕ (SenderResult ℕ) (Bool × Answered ℕ)
refused_first = called 0 0 60 drops (try_recv ∷ []) (
    with_test Receiver.is_closed
      (after_calls 60 (recv_ref ∷ []) (answer 60 (by_call (recv_timeout 100 5)))))

abbrev shut : System ℕ (SenderResult ℕ) (Bool × Answered ℕ)
shut = after release_acquire (receives ∷ sends ∷ []) refused_first

is_closed-refusal_example :
    (b : Bool) × (x : Answered ℕ) × ((after release_acquire (turns 32) shut).rx ≡ ret (b, x))
    × ((b ≡ false) ⊎ (x ≡ timed (err RecvTimeoutError.disconnected)))
unfolding after step fresh sender_client Client.use_sender Client.call Client.Promised.after_calls
    Sender.drop Receiver.try_recv Receiver.is_closed
is_closed-refusal_example =
    is_closed-refusal release_acquire 7 0 0 60 drops (try_recv ∷ []) (recv_ref ∷ [])
      (by_call (recv_timeout 100 5)) shut gone tt
      (later (later start (receiver_step refl refl)) (sender_step refl refl)) refl (omega arith)
