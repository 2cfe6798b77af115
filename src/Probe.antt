-- ===== src/Probe.antt =====
-- The binding of the driver to a device (jockey3.c): card slots, what a chip is built from,
-- `jockey3_probe` with its unwinding, and the release of the card.
pub mod Slots
pub mod Calls
pub mod State
pub mod Parts
pub mod Endpoints
pub mod Boot
pub mod Bind
