-- ===== src/Driver/Pcm/Ready.antt =====
-- A stream that `jockey3_pcm_prepare` (jockey3.c) let through.
use alsa_jockey.Prelude.{◌≡◌, refl, arith, false, not, Option, none}
use alsa_jockey.Errno.{Errno}
use alsa_jockey.Stream.State.{Direction, playback_direction, capture_direction, get_pcm_urb_stream}
use alsa_jockey.Driver.World.{Host, World}
use alsa_jockey.Driver.Reset.{wait_for_reset_completion}
use alsa_jockey.Driver.Ladder.{is_alive, wait_urb_stream_started, recover_urb_stream}
use alsa_jockey.Driver.Pcm.{rewind, finish_prepare, revive_and_rewind, pcm_prepare}
use alsa_jockey.Driver.Frames.{if_both, if_cases, unless_failed_both}

pub record IsReady {Env Src : Type 0} (d : Direction) (v : World Env Src) : Type 0 where
  pub at_start : (get_pcm_urb_stream v.chip d).dma_off ≡ 0
  pub at_period : (get_pcm_urb_stream v.chip d).period_off ≡ 0
  pub here : v.chip.disconnected ≡ false
  pub settled : v.chip.recovery_in_progress ≡ false

module _ {Env Src : Type 0} where
  rewind-IsReady :
      (d : Direction) (w : World Env Src)
      → w.chip.disconnected ≡ false
      → w.chip.recovery_in_progress ≡ false
      → IsReady d (rewind d w)
  unfolding rewind
  rewind-IsReady playback_direction w e f = record {
    at_start = refl;
    at_period = refl;
    here = e;
    settled = f;
  }
  rewind-IsReady capture_direction w e f = record {
    at_start = refl;
    at_period = refl;
    here = e;
    settled = f;
  }

-- What a result of 0 stands for.
abbrev IsReadyIfDone : {Env Src : Type 0} → Direction → World Env Src × Option Errno → Type 0
IsReadyIfDone d r = r.1 ≡ none → IsReady d r.0

module _ {Env Src : Type 0} (host : Host Env Src) where
  finish_prepare-IsReadyIfDone :
      (d : Direction) (w : World Env Src) → IsReadyIfDone d (finish_prepare host d w)
  unfolding finish_prepare
  finish_prepare-IsReadyIfDone d w =
      let ended = record w { chip = record (w.chip) { recovery_in_progress = false } } in
      let rewound =
        if_cases (IsReadyIfDone d) w.chip.disconnected (λ _ k. grind arith)
          (λ e _. rewind-IsReady d ended e refl) in
      if_both (IsReadyIfDone d) (not w.chip.recovery_in_progress) rewound
        (if_both (IsReadyIfDone d) (host.in_time w.usb.device) rewound λ k. grind arith)

  revive-IsReadyIfDone :
      (d : Direction) (w : World Env Src) → IsReadyIfDone d (revive_and_rewind host d w)
  unfolding revive_and_rewind
  revive-IsReadyIfDone d w =
      let (w1, up) = wait_urb_stream_started host d (host.grace_ms w.usb.device) false w in
      let (w2, lost) = recover_urb_stream host d w1 in
      if_both (IsReadyIfDone d) w.chip.disconnected (λ k. grind arith)
        (if_both (IsReadyIfDone d) (is_alive host d w) (finish_prepare-IsReadyIfDone d w) (
          if_both (IsReadyIfDone d) up (finish_prepare-IsReadyIfDone d w1) (
            unless_failed_both (IsReadyIfDone d) lost (λ e k. grind arith)
              (finish_prepare-IsReadyIfDone d w2))))

  -- A .prepare that returns 0 leaves the stream at the start of its ring and of a period, on a device
  -- that is there, with no recovery ladder running: whatever waits, polls and recovery it went
  -- through, none of them ends it early with a result of 0.
  pub pcm_prepare-IsReady :
      (d : Direction) (w : World Env Src)
      → (pcm_prepare host d w).1 ≡ none
      → IsReady d (pcm_prepare host d w).0
  unfolding pcm_prepare
  pcm_prepare-IsReady d w =
      let (w1, failed) = wait_for_reset_completion host w in
      if_both (IsReadyIfDone d) w.chip.disconnected (λ k. grind arith)
        (unless_failed_both (IsReadyIfDone d) failed (λ e k. grind arith)
          (revive-IsReadyIfDone d w1))
