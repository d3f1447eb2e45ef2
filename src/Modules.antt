-- ===== src/Modules.antt =====
-- The small kernel modules that watch pins, and those that write one register.
pub mod Watch
pub mod Recorder
pub mod NodeTwo
pub mod Timeline
pub mod ReleaseBit
pub mod NodeOne
pub mod Contention
pub mod Timing
mod Tests
