-- ===== src/Driver.antt =====
-- The driver's threads above the completion handlers (jockey3.c): the start and stop of the URB
-- rings, the sample rate, recovery from a stall, power management and the PCM operations, each
-- from entry to return on the state they share.
pub mod World
pub mod Ring
pub mod Frames
pub mod Device
pub mod Power
pub mod Reset
pub mod Ladder
pub mod Tick
pub mod Pcm
pub mod Disconnect
