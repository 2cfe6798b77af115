-- ===== src/Proto.antt =====
-- The control protocol of the device (ploytec_proto.c): every function is a sequence of transfers
-- on endpoint 0, with an early return at the errors the code does not pass over.
pub mod Session
pub mod Calls
