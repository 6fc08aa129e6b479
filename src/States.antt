-- ===== src/States.antt =====
-- src/states.rs: the values of the channel's one-byte state.
use oneshot.Prelude.{ℕ}

-- Both endpoints are alive, no message was sent, the receiver is not receiving.
abbrev pub empty : ℕ
empty = 0b011

-- A message was sent and not yet read.
abbrev pub message : ℕ
message = 0b100

-- No message yet, and the receiver is receiving.
abbrev pub receiving : ℕ
receiving = 0b000

-- The sender has seen `receiving` and reads the waker.
abbrev pub unparking : ℕ
unparking = 0b001

-- An endpoint was dropped, or the message was received.
abbrev pub disconnected : ℕ
disconnected = 0b010
