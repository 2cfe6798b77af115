-- ===== src/Tests.antt =====
-- The theorems at concrete inputs.
mod CodecTests
mod MidiTests
mod StreamTests
mod RecoveryTests
mod ProtoTests
mod DriverTests
mod PowerTests
mod RateTests
mod ProbeTests
mod ZoneTests
