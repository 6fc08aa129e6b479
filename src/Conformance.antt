-- ===== src/Conformance.antt =====
-- The functions of the crate under the rules of the protocol, and what they answer.
pub mod Standing
pub mod Sending
pub mod Receiving
pub mod Timed
pub mod Polling
pub mod FutureTests
