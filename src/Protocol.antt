-- ===== src/Protocol.antt =====
-- The protocol that the two endpoints follow. A phase of an endpoint is what its thread knows of the
-- channel between two of its effects. The rules say for each effect in which phases it may be made,
-- and for each answer that it may get there which phase follows. `Agree` ties a pair of phases to
-- the memory.
pub mod Phases
pub mod Agreement
pub mod SenderRules
pub mod ReceiverRules
pub mod ReceiverSequence
pub mod SenderSequence
