-- ===== src/Flaws.antt =====
-- Schedules of src/receiver.rs that end in a faulty access.
pub mod AsyncDrop
pub mod ExpiredDeadline
