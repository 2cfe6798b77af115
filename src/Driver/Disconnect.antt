-- ===== src/Driver/Disconnect.antt =====
-- `jockey3_disconnect` (jockey3.c), up to the release of the card, which is the ALSA core's.
pub mod Refusal
use alsa_jockey.Prelude.{Bool, true, false, if◌then◌else◌, none}
use alsa_jockey.Driver.World.{Host, World}
use alsa_jockey.Driver.Ring.{stop_urbs}

module _ {Env Src : Type 0} where
  -- The flags, with every waiter for a reset released, and the watchdog's run cancelled.
  unfoldable pub latch : World Env Src → World Env Src
  latch w = record w {
    chip = record (w.chip) { disconnected = true; resetting = false; reset_done = true };
    watchdog_due = none;
  }

module _ {Env Src : Type 0} (host : Host Env Src) where
  -- The first of the two interfaces to go tears all down; the other finds the flag.
  unfoldable pub disconnect : World Env Src → World Env Src
  disconnect w =
      if w.chip.disconnected
      then w
      else record (stop_urbs host (latch w)) { reset_scheduled = false }
