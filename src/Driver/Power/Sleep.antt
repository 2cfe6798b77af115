-- ===== src/Driver/Power/Sleep.antt =====
-- A suspended device (jockey3.c): `jockey3_suspend`, and the recovery and the watchdog behind it.
use alsa_jockey.Prelude.{◌≡◌, refl, ap, ◌∙◌, arith, Bool, true, false, ◌||◌, Option, List, [], ◌∷◌}
use alsa_jockey.Errno.{Errno}
use alsa_jockey.Stream.State.{Direction, playback_direction, capture_direction}
use alsa_jockey.Stream.Handler.{report_xrun_lem}
use alsa_jockey.Proto.Session.{Session}
use alsa_jockey.Driver.World.{Host, World}
use alsa_jockey.Driver.Power.{quiesce, suspend}
use alsa_jockey.Driver.Ladder.{
  is_alive, report_xruns, run_recovery_ladder, set_in_progress, recover_urb_stream,
}
use alsa_jockey.Driver.Tick.{watchdog_work}
use alsa_jockey.Driver.Frames.{if_both, if_cases}
use alsa_jockey.Driver.Ring.Quiet.{Rest, IsHalted, IsKilling, stop_urbs-quiet}

-- Both rings stay empty behind their fences, and the device is left alone.
pub record IsAsleep {Env Src : Type 0} (usb : Session Env) (v : World Env Src) : Type 0 where
  pub playback_halted : IsHalted v.chip.playback 0
  pub capture_halted : IsHalted v.chip.capture 0
  pub untouched : v.usb ≡ usb
  pub asleep : v.chip.suspended ≡ true

-- What may ask for a restart of the rings while the device sleeps.
pub data Prompt : Type 0 where
  revives : Direction → Prompt
  ticks : Prompt

module _ {Env Src : Type 0} (host : Host Env Src) where
  unfoldable pub prompt : Prompt → World Env Src → World Env Src
  prompt (revives d) w = (recover_urb_stream host d w).0
  prompt ticks w = watchdog_work host w

  unfoldable pub prompts : List Prompt → World Env Src → World Env Src
  prompts [] w = w
  prompts (p ∷ ps) w = prompts ps (prompt p w)

  report_xruns-IsAsleep :
      (usb : Session Env) (w : World Env Src) → IsAsleep usb w → IsAsleep usb (report_xruns host w)
  unfolding report_xruns
  report_xruns-IsAsleep usb w i =
      let p = report_xrun_lem host.core w.chip.playback in
      let c = report_xrun_lem host.core w.chip.capture in
      record {
        playback_halted = record {
          halted = p.halted ∙ i.playback_halted.halted;
          out = p.in_flight ∙ i.playback_halted.out;
        };
        capture_halted = record {
          halted = c.halted ∙ i.capture_halted.halted;
          out = c.in_flight ∙ i.capture_halted.out;
        };
        untouched = i.untouched;
        asleep = i.asleep;
      }

  in_progress-IsAsleep :
      (b : Bool) (usb : Session Env) (w : World Env Src)
      → IsAsleep usb w
      → IsAsleep usb (set_in_progress b w)
  unfolding set_in_progress
  in_progress-IsAsleep b usb w i = record {
    playback_halted = i.playback_halted;
    capture_halted = i.capture_halted;
    untouched = i.untouched;
    asleep = i.asleep;
  }

  ladder-IsAsleep :
      (d : Direction) (usb : Session Env) (w : World Env Src)
      → IsAsleep usb w
      → IsAsleep usb (run_recovery_ladder host d w).0
  unfolding run_recovery_ladder
  ladder-IsAsleep d usb w i =
      let told = report_xruns host w in
      let still = report_xruns-IsAsleep usb w i in
      let sleeping : World Env Src × Option Errno → Type 0 = λ r. IsAsleep usb r.0 in
      if_both sleeping (is_alive host d told) still (
        if_cases sleeping (told.chip.disconnected || told.chip.suspended || told.chip.resetting)
          (λ _. still) λ e. ground (arith, e, still.asleep))

  recover-IsAsleep :
      (d : Direction) (usb : Session Env) (w : World Env Src)
      → IsAsleep usb w
      → IsAsleep usb (recover_urb_stream host d w).0
  unfolding recover_urb_stream
  recover-IsAsleep d usb w i =
      let sleeping : World Env Src × Option Errno → Type 0 = λ r. IsAsleep usb r.0 in
      let (w1, result) = run_recovery_ladder host d (set_in_progress true w) in
      let climbed =
        ladder-IsAsleep d usb (set_in_progress true w) (in_progress-IsAsleep true usb w i) in
      if_both sleeping w.chip.disconnected i (
        if_both sleeping (is_alive host d w) i (
          if_both sleeping w.chip.recovery_in_progress i
            (in_progress-IsAsleep false usb w1 climbed)))

  work-IsAsleep :
      (usb : Session Env) (w : World Env Src) → IsAsleep usb w → IsAsleep usb (watchdog_work host w)
  unfolding watchdog_work
  work-IsAsleep usb w i =
      if_cases (IsAsleep usb) (w.chip.disconnected || w.chip.suspended)
        (λ _. record {
          playback_halted = i.playback_halted;
          capture_halted = i.capture_halted;
          untouched = i.untouched;
          asleep = i.asleep;
        })
        λ e. ground (arith, e, i.asleep)

  one-IsAsleep :
      (p : Prompt) (usb : Session Env) (w : World Env Src)
      → IsAsleep usb w
      → IsAsleep usb (prompt p w)
  unfolding prompt
  one-IsAsleep (revives d) usb w i = recover-IsAsleep d usb w i
  one-IsAsleep ticks usb w i = work-IsAsleep usb w i

  all-IsAsleep :
      (ps : List Prompt) (usb : Session Env) (w : World Env Src)
      → IsAsleep usb w
      → IsAsleep usb (prompts ps w)
  unfolding prompts
  all-IsAsleep [] usb w i = i
  all-IsAsleep (p ∷ ps) usb w i = all-IsAsleep ps usb (prompt p w) (one-IsAsleep p usb w i)

  -- Where the usb core hands back every URB, suspend leaves none in flight, behind closed fences; and
  -- over any sequence of recoveries for either direction and runs of the watchdog that follows it,
  -- this stays so, the device stays marked as suspended, and no call is made to it.
  pub suspend-stays :
      (ps : List Prompt) (w : World Env Src)
      → IsKilling host w
      → let v = suspend host w in IsAsleep v.usb v × IsAsleep v.usb (prompts ps v)
  unfolding suspend quiesce
  suspend-stays ps w k =
      let v = suspend host w in
      let marked = record w {
        chip = record (w.chip) {
          suspended = true;
          playback = quiesce (host.suspends w.usb.device playback_direction) w.chip.playback;
          capture = quiesce (host.suspends w.usb.device capture_direction) w.chip.capture;
        };
      } in
      let (p, c, others, _, _) = stop_urbs-quiet host 0 marked k in
      let quiet : IsAsleep v.usb v = record {
        playback_halted = p;
        capture_halted = c;
        untouched = refl;
        asleep = ap (λ (x : Rest). x.asleep) others;
      } in
      (quiet, all-IsAsleep ps v.usb v quiet)
