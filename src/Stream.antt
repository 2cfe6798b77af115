-- ===== src/Stream.antt =====
-- The PCM streams of jockey3.c: the walk through ALSA's ring buffer, URB completions, the error
-- budget and the liveness checks.
pub mod Walk
pub mod State
pub mod Packet
pub mod Sizing
pub mod Hardware
pub mod Zone
pub mod Errors
pub mod Capture
pub mod Handler
pub mod Playback
