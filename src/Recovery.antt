-- ===== src/Recovery.antt =====
-- Noticing that a stream has died and bringing it back (jockey3.c): the clock arithmetic of the
-- watchdog and the budget for resets.
pub mod Clock
pub mod Budget
pub mod Liveness
pub mod Watchdog
