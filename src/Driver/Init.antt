-- ===== src/Driver/Init.antt =====
-- ath9k/init.c: bringing the device up and taking it down.
pub mod Defs
pub mod Platform
pub mod Attach
pub mod Capabilities
pub mod Probe
pub mod Held
pub mod Laws
pub mod Accounts
pub mod Undone
pub mod QueueMap
pub mod Registers
pub mod Regulatory
