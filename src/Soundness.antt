-- ===== src/Soundness.antt =====
-- Steps of the machine under the rules of the protocol, for any two programs that keep to them.
pub mod Access
pub mod SenderAtomic
pub mod Waking
pub mod Through
pub mod Alone
pub mod Owned
pub mod ReceiverAtomic
pub mod Cells
pub mod ReceiverAccess
pub mod ReceiverStep
pub mod System
pub mod SenderStep
