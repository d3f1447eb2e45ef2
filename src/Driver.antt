-- ===== src/Driver.antt =====
-- ath9k/main.c: the driver of the wireless chip. `ps_flags` is a record of its bits.
pub mod State
pub mod Window
pub mod Power
pub mod Transmit
pub mod Queues
pub mod Device
pub mod Flush
pub mod Antenna
pub mod Interfaces
pub mod Keys
pub mod Config
pub mod Channel
pub mod Configure
pub mod Dma
pub mod PeerToPeer
pub mod Operations
pub mod Bss
pub mod Spectral
pub mod Init
mod Tests
