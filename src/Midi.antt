-- ===== src/Midi.antt =====
-- MIDI: the Running Status expander (ploytec_midi.c), the rate-limited MIDI OUT slot and the
-- filter of MIDI IN (jockey3.c).
pub mod RunningStatus
pub mod Receiver
pub mod Idempotent
pub mod Out
pub mod Ports
pub mod Input
