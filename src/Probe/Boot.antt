-- ===== src/Probe/Boot.antt =====
-- `jockey3_initialize` (jockey3.c): the device is given time to boot, initialized, and started at
-- 44.1 kHz.
pub mod Up
use alsa_jockey.Prelude.{ℕ, zero, suc, Bool, true, false, if◌then◌else◌, Option, none, some}
use alsa_jockey.Errno.{Errno}
use alsa_jockey.Proto.Session.{ctrl_ep_unresponsive, sleep}
use alsa_jockey.Driver.World.{Host, World, set_env, unless_failed}
use alsa_jockey.Driver.Ring.{start_urbs}
use alsa_jockey.Driver.Device.{initialize_ploytec, jockey3_set_rate, publish_rate}

abbrev pub power_on_rate : ℕ
power_on_rate = 44100

-- What ends the retries: success, or an endpoint 0 that does not answer.
unfoldable pub is_settled : Option Errno → Bool
is_settled none = true
is_settled (some e) = ctrl_ep_unresponsive e

module _ {Env Src : Type 0} (host : Host Env Src) where
  -- `usleep_range(50000, 100000)`.
  unfoldable pub retry_pause : World Env Src → World Env Src
  retry_pause w = record w { usb = sleep host.answer 50000 100000 w.usb }

  -- The rounds that are left, and what the last one returned.
  unfoldable pub attempts : ℕ → Option Errno → World Env Src → World Env Src × Option Errno
  attempts zero last w = (w, last)
  attempts (suc left) last w =
      let (w1, failed) = initialize_ploytec host w in
      let again = attempts left failed (retry_pause w1) in
      if is_settled failed then (w1, failed) else again

  -- Behind the initialization: the rate and the rings.
  unfoldable pub start_up : World Env Src → World Env Src × Option Errno
  start_up w =
      let (w1, failed) = jockey3_set_rate host power_on_rate true (publish_rate power_on_rate w) in
      let started = start_urbs host false w1 in unless_failed failed (λ e. (w1, some e)) started

  -- `boot_delay` is `msleep(250)`.
  unfoldable pub initialize : (Env → Env) → World Env Src → World Env Src × Option Errno
  initialize boot_delay w =
      let (w1, failed) = attempts 10 none (set_env w (boot_delay w.usb.device)) in
      let started = start_up w1 in unless_failed failed (λ e. (w1, some e)) started
