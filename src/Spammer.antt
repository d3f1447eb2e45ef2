-- ===== src/Spammer.antt =====
-- packetspammer/packetspammer.c: the program that sends the frames and paces itself by the number of
-- free transmit buffers that it reads from the driver.
pub mod Mac
pub mod Options
pub mod Frame
pub mod Dump
pub mod Pace
pub mod Loop
pub mod Interface
mod Tests
