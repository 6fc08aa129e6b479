-- ===== src/Errors.antt =====
-- src/errors.rs: the errors of the receiving methods.
pub mod Texts

pub data RecvError : Type 0 where
  recv_error : RecvError

pub data TryRecvError : Type 0 where
  empty disconnected : TryRecvError

pub data RecvTimeoutError : Type 0 where
  timeout disconnected : RecvTimeoutError
