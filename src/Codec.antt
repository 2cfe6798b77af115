-- ===== src/Codec.antt =====
-- The Ploytec sample codec (ploytec_codec.c, ploytec_codec.h).
pub mod Memory
pub mod Reference
pub mod Lut64
pub mod Lut32
pub mod Words
pub mod Gather
pub mod Decode
pub mod Encode
pub mod Encode32
pub mod Batch
