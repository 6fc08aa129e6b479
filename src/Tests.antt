-- ===== src/Tests.antt =====
-- The theorems at concrete inputs.
mod Threads
mod Methods
mod Ends
mod Boxes
