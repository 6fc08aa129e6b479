-- ===== src/Tests/Methods.antt =====
-- The methods of src/sender.rs and src/receiver.rs, each alone, with the message 7.
use oneshot.Prelude.{ℕ, true, false}
use oneshot.Memory.{release_acquire}
use oneshot.Waker.{ReceiverWaker, task, Context}
use oneshot.Protocol.Phases.{alive, receiving, synced, carried}
use oneshot.Protocol.SenderRules.{Sends}
use oneshot.Protocol.ReceiverRules.{Receives}
use oneshot.Conformance.Standing.{waiting, ended, phase_of}
use oneshot.Conformance.Sending.{SendAnswer, send-Sends, DropAnswer, drop-Sends}
use oneshot.Conformance.Receiving.{
  TryRecvAnswer, try_recv-Receives, RecvRefAnswer, recv_ref-Receives, RecvAnswer, recv-Receives,
  drop-Receives,
}
use oneshot.Conformance.Receiving
use oneshot.Conformance.Timed.{RecvTimeoutAnswer, recv_deadline-Receives, recv_timeout-Receives}
use oneshot.Conformance.Polling.{
  PollAnswer, poll-Receives, poll_again-Receives, async_drop-Receives,
}
use oneshot.Conformance.FutureTests.{
  RegisteredClosedAnswer, RegisteredMessageAnswer, registered-is_closed-Receives,
  registered-has_message-Receives,
}
use oneshot.Sender
use oneshot.Receiver
use oneshot.Receiver.Timed
use oneshot.Receiver.Async

abbrev AnyWaker : ReceiverWaker → Type 0
AnyWaker w = Unit

abbrev task_4 : Context
task_4 = record { waker = 4 }

send-Sends_example :
    Sends {T = ℕ} 7 (SendAnswer {T = ℕ} 7 false) (alive false false) (Sender.send 7)
send-Sends_example = send-Sends 7 false

drop-Sends_example : Sends {T = ℕ} 7 (DropAnswer {T = ℕ} 7 true) (alive false true) Sender.drop
drop-Sends_example = drop-Sends 7 true

try_recv-Receives_example :
    Receives {T = ℕ} release_acquire 7
      (TryRecvAnswer release_acquire 7 waiting)
      (phase_of waiting)
      Receiver.try_recv
try_recv-Receives_example = try_recv-Receives release_acquire 7 release_acquire waiting tt

recv_ref-Receives_example :
    Receives {T = ℕ} release_acquire 7
      (RecvRefAnswer release_acquire 7 waiting)
      (phase_of waiting)
      (Receiver.recv_ref 2)
recv_ref-Receives_example = recv_ref-Receives release_acquire 7 release_acquire 2 waiting tt

recv-Receives_example :
    Receives {T = ℕ} release_acquire 7
      (RecvAnswer release_acquire 7 waiting)
      (phase_of waiting)
      (Receiver.recv 2)
recv-Receives_example = recv-Receives release_acquire 7 release_acquire 2 waiting tt

drop-Receives_example :
    Receives {T = ℕ} release_acquire 7
      (Receiving.DropAnswer {T = ℕ} release_acquire 7 (ended true carried))
      (phase_of (ended true carried))
      Receiver.drop
drop-Receives_example = drop-Receives release_acquire 7 release_acquire (ended true carried) tt tt

recv_deadline-Receives_example :
    Receives {T = ℕ} release_acquire 7
      (RecvTimeoutAnswer 7 waiting)
      (phase_of waiting)
      (Timed.recv_deadline 2 9)
recv_deadline-Receives_example = recv_deadline-Receives 7 release_acquire 2 9 waiting

recv_timeout-Receives_example :
    Receives {T = ℕ} release_acquire 7
      (RecvTimeoutAnswer 7 waiting)
      (phase_of waiting)
      (Timed.recv_timeout 2 100 9)
recv_timeout-Receives_example = recv_timeout-Receives 7 release_acquire 2 100 9 waiting

poll-Receives_example :
    Receives {T = ℕ} release_acquire 7
      (PollAnswer release_acquire 7 AnyWaker waiting)
      (phase_of waiting)
      (Async.poll 2 task_4)
poll-Receives_example = poll-Receives release_acquire 7 AnyWaker 2 task_4 waiting tt tt

poll_again-Receives_example :
    Receives {T = ℕ} release_acquire 7
      (PollAnswer release_acquire 7 AnyWaker waiting)
      (receiving (task 4) false false)
      (Async.poll 2 task_4)
poll_again-Receives_example =
    poll_again-Receives release_acquire 7 AnyWaker 2 task_4 (task 4) false tt tt

async_drop-Receives_example :
    Receives {T = ℕ} release_acquire 7
      (Receiving.DropAnswer {T = ℕ} release_acquire 7 (ended true synced))
      (phase_of (ended true synced))
      (Async.drop 2)
async_drop-Receives_example = async_drop-Receives release_acquire 7 2 (ended true synced) tt

registered-is_closed-Receives_example :
    Receives {T = ℕ} release_acquire 7
      (RegisteredClosedAnswer {T = ℕ} release_acquire 7 (task 4))
      (receiving (task 4) false true)
      Async.is_closed
registered-is_closed-Receives_example =
    registered-is_closed-Receives release_acquire 7 (task 4) true

registered-has_message-Receives_example :
    Receives {T = ℕ} release_acquire 7
      (RegisteredMessageAnswer {T = ℕ} release_acquire 7 (task 4))
      (receiving (task 4) false true)
      Async.has_message
registered-has_message-Receives_example =
    registered-has_message-Receives release_acquire 7 (task 4) true
