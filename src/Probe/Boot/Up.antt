-- ===== src/Probe/Boot/Up.antt =====
-- What `jockey3_initialize` (jockey3.c) leaves where it returns 0.
use alsa_jockey.Prelude.{
  ℕ, zero, suc, ◌≡◌, refl, ap, sym, subst, ◌∙◌, arith, Bool, true, false, Option, none,
}
use alsa_jockey.Errno.{Errno}
use alsa_jockey.Stream.State.{Chip}
use alsa_jockey.Driver.World.{Host, World, set_env}
use alsa_jockey.Driver.Ring.{n_urbs, start_urbs}
use alsa_jockey.Driver.Ring.Submits.{fences, all_open, is_queued}
use alsa_jockey.Driver.Ring.Depth.{IsStarted, start_urbs-IsStarted}
use alsa_jockey.Driver.Frames.{Ledger, if_both, unless_failed_cases, start_urbs-ledger}
use alsa_jockey.Proto.Calls.Order.{vendor_burst}
use alsa_jockey.Proto.Calls.Written.{IsWritten}
use alsa_jockey.Driver.Device.Programmed.{set_rate-IsProgrammed, start_urbs-log}
use alsa_jockey.Driver.Device.{initialize_ploytec, jockey3_set_rate, publish_rate}
use alsa_jockey.Probe.Boot.{power_on_rate, is_settled, retry_pause, attempts, start_up, initialize}

-- Both rings full behind open fences, watched, with the power-on rate written to the device and as
-- `current_rate`, which nobody has claimed.
pub record IsUp {Env Src : Type 0} (v : World Env Src) : Type 0 where
  pub fenced : fences v ≡ all_open
  pub playback_full : v.chip.playback.urbs_in_flight ≡ n_urbs
  pub capture_full : v.chip.capture.urbs_in_flight ≡ n_urbs
  pub watched : is_queued v.watchdog_due ≡ true
  pub rate : v.chip.current_rate ≡ power_on_rate
  pub programmed : IsWritten (vendor_burst 44100) v.usb.log
  pub unclaimed_playback : v.chip.playback.rate_committed ≡ false
  pub unclaimed_capture : v.chip.capture.rate_committed ≡ false

-- A chip that has not run.
pub record IsNew (c : Chip) : Type 0 where
  pub here : c.disconnected ≡ false
  pub awake : c.suspended ≡ false
  pub playback_out : c.playback.urbs_in_flight ≡ 0
  pub capture_out : c.capture.urbs_in_flight ≡ 0
  pub playback_claim : c.playback.rate_committed ≡ false
  pub capture_claim : c.capture.rate_committed ≡ false

-- What the host goes through changes nothing of it.
pub IsUp-set_env :
    {Env Src : Type 0} {v : World Env Src} (env : Env) → IsUp v → IsUp (set_env v env)
IsUp-set_env env up = record {
  fenced = up.fenced;
  playback_full = up.playback_full;
  capture_full = up.capture_full;
  watched = up.watched;
  rate = up.rate;
  programmed = up.programmed;
  unclaimed_playback = up.unclaimed_playback;
  unclaimed_capture = up.unclaimed_capture;
}

module _ {Env Src : Type 0} (host : Host Env Src) where
  initialize_ploytec-chip : (w : World Env Src) → (initialize_ploytec host w).0.chip ≡ w.chip
  unfolding initialize_ploytec
  initialize_ploytec-chip w =
      if_both (λ (r : World Env Src × Option Errno). r.0.chip ≡ w.chip) w.chip.disconnected refl
        refl

  set_rate-chip :
      (rate : ℕ) (cold_init : Bool) (w : World Env Src)
      → (jockey3_set_rate host rate cold_init w).0.chip ≡ w.chip
  unfolding jockey3_set_rate
  set_rate-chip rate cold_init w =
      if_both (λ (r : World Env Src × Option Errno). r.0.chip ≡ w.chip) w.chip.disconnected refl
        refl

  attempts-chip :
      (left : ℕ) (last : Option Errno) (w : World Env Src)
      → (attempts host left last w).0.chip ≡ w.chip
  unfolding attempts retry_pause
  attempts-chip zero last w = refl
  attempts-chip (suc left) last w =
      let (w1, failed) = initialize_ploytec host w in
      let once = initialize_ploytec-chip w in
      if_both (λ (r : World Env Src × Option Errno). r.0.chip ≡ w.chip) (is_settled failed) once
        (attempts-chip left failed (retry_pause host w1) ∙ once)

  start_up-IsUp :
      (w : World Env Src) → IsNew w.chip → (start_up host w).1 ≡ none → IsUp (start_up host w).0
  unfolding start_up publish_rate
  start_up-IsUp w new =
      let asked = publish_rate power_on_rate w in
      let (w1, failed) = jockey3_set_rate host power_on_rate true asked in
      let chip = set_rate-chip power_on_rate true asked in
      let (v, r) = start_urbs host false w1 in
      let kept = start_urbs-ledger host false w1 in
      let started : IsStarted r w1 v =
        (start_urbs-IsStarted host false w1).0 (ap (λ (c : Chip). c.disconnected) chip ∙ new.here)
          (ap (λ (c : Chip). c.suspended) chip ∙ new.awake) in
      unless_failed_cases (λ (res : World Env Src × Option Errno). res.1 ≡ none → IsUp res.0) failed
        (λ e is k. cc)
        λ is k. record {
          fenced = started.fenced;
          playback_full = omega (
            arith,
            started.playback_full k,
            ap (λ (c : Chip). c.playback.urbs_in_flight) chip,
            new.playback_out,
          );
          capture_full = omega (
            arith,
            started.capture_full k,
            ap (λ (c : Chip). c.capture.urbs_in_flight) chip,
            new.capture_out,
          );
          watched = started.watched;
          programmed =
              subst (IsWritten (vendor_burst 44100)) (sym (start_urbs-log host false w1))
                (set_rate-IsProgrammed host power_on_rate asked is);
          rate = ap (λ (l : Ledger). l.claims.rate) kept ∙ ap (λ (c : Chip). c.current_rate) chip;
          unclaimed_playback =
              ap (λ (l : Ledger). l.claims.of_playback) kept
              ∙ ap (λ (c : Chip). c.playback.rate_committed) chip
              ∙ new.playback_claim;
          unclaimed_capture =
              ap (λ (l : Ledger). l.claims.of_capture) kept
              ∙ ap (λ (c : Chip). c.capture.rate_committed) chip
              ∙ new.capture_claim;
        }

  -- Where initialize returns 0 on a new chip, both rings have 8 URBs in flight behind open fences
  -- with a run of the watchdog queued, `current_rate` is 44100 with no claim on it,
  -- and the vendor's burst for that rate was written.
  pub initialize-IsUp :
      (boot_delay : Env → Env) (w : World Env Src)
      → IsNew w.chip
      → (initialize host boot_delay w).1 ≡ none
      → IsUp (initialize host boot_delay w).0
  unfolding initialize
  initialize-IsUp boot_delay w new =
      let booted = set_env w (boot_delay w.usb.device) in
      let (w1, failed) = attempts host 10 none booted in
      let chip : w1.chip ≡ w.chip = attempts-chip 10 none booted in
      unless_failed_cases (λ (res : World Env Src × Option Errno). res.1 ≡ none → IsUp res.0) failed
        (λ e is k. cc) (λ is. start_up-IsUp w1 (subst IsNew (sym chip) new))
