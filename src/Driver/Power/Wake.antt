-- ===== src/Driver/Power/Wake.antt =====
-- Restoring the device (`jockey3_restore_device`, jockey3.c) behind a resume, with and without a reset.
use alsa_jockey.Prelude.{ℕ, ◌+◌, ◌≡◌, refl, ap, subst, ◌∙◌, arith, Bool, true, false, Option, none}
use alsa_jockey.Errno.{Errno}
use alsa_jockey.Stream.State.{Chip}
use alsa_jockey.Driver.World.{Host, World}
use alsa_jockey.Driver.Ring.{n_urbs}
use alsa_jockey.Driver.Device.{jockey3_set_rate, initialize_ploytec}
use alsa_jockey.Driver.Power.{restore_streams, restore_device}
use alsa_jockey.Driver.Frames.{if_both, if_cases, unless_failed_cases}
use alsa_jockey.Driver.Ring.Submits.{all_open, fences, is_queued}
use alsa_jockey.Driver.Ring.Depth.{start_urbs-IsStarted}

-- Both rings at their depth again.
pub record IsBack (c : Chip) {Env Src : Type 0} (v : World Env Src) : Type 0 where
  pub fenced : fences v ≡ all_open
  pub playback_full : v.chip.playback.urbs_in_flight ≡ c.playback.urbs_in_flight + n_urbs
  pub capture_full : v.chip.capture.urbs_in_flight ≡ c.capture.urbs_in_flight + n_urbs
  pub watched : is_queued v.watchdog_due ≡ true

module _ {Env Src : Type 0} (host : Host Env Src) where
  set_rate-chip :
      (rate : ℕ) (cold : Bool) (w : World Env Src)
      → (jockey3_set_rate host rate cold w).0.chip ≡ w.chip
  unfolding jockey3_set_rate
  set_rate-chip rate cold w =
      if_both (λ (r : World Env Src × Option Errno). r.0.chip ≡ w.chip) w.chip.disconnected refl
        refl

  initialize-chip : (w : World Env Src) → (initialize_ploytec host w).0.chip ≡ w.chip
  unfolding initialize_ploytec
  initialize-chip w =
      if_both (λ (r : World Env Src × Option Errno). r.0.chip ≡ w.chip) w.chip.disconnected refl
        refl

  set_rate-here :
      (rate : ℕ) (cold : Bool) (w : World Env Src)
      → (jockey3_set_rate host rate cold w).1 ≡ none
      → w.chip.disconnected ≡ false
  unfolding jockey3_set_rate
  set_rate-here rate cold w =
      if_cases (λ (r : World Env Src × Option Errno). r.1 ≡ none → w.chip.disconnected ≡ false)
        w.chip.disconnected (λ _ k. grind arith) (λ e _. e)

  restore_streams-IsBack :
      (c : Chip) (w : World Env Src)
      → w.chip ≡ c
      → c.suspended ≡ false
      → (restore_streams host w).1 ≡ none
      → IsBack c (restore_streams host w).0
  unfolding restore_streams
  restore_streams-IsBack c w same awake =
      let (w1, failed) = jockey3_set_rate host w.chip.current_rate true w in
      let chip : w1.chip ≡ c = set_rate-chip w.chip.current_rate true w ∙ same in
      let back : World Env Src × Option Errno → Type 0 = λ r. r.1 ≡ none → IsBack c r.0 in
      unless_failed_cases back failed (λ e _ k. grind arith)
        λ well k.
          let here : w1.chip.disconnected ≡ false =
            ap (λ (x : Chip). x.disconnected) (set_rate-chip w.chip.current_rate true w)
            ∙ set_rate-here w.chip.current_rate true w well in
          let s =
            (start_urbs-IsStarted host false w1).0 here
              (ap (λ (x : Chip). x.suspended) chip ∙ awake) in
          record {
            fenced = s.fenced;
            playback_full =
                s.playback_full k ∙ ap (λ (x : Chip). x.playback.urbs_in_flight + n_urbs) chip;
            capture_full =
                s.capture_full k ∙ ap (λ (x : Chip). x.capture.urbs_in_flight + n_urbs) chip;
            watched = s.watched;
          }

  restore_streams-programmed :
      (w : World Env Src)
      → (restore_streams host w).1 ≡ none
      → (jockey3_set_rate host w.chip.current_rate true w).1 ≡ none
  unfolding restore_streams
  restore_streams-programmed w =
      let (w1, failed) = jockey3_set_rate host w.chip.current_rate true w in
      unless_failed_cases (λ (r : World Env Src × Option Errno). r.1 ≡ none → failed ≡ none) failed
        (λ e _ k. grind arith) λ well _. well

  -- The device as the initialization, which only a reset calls for, leaves it.
  abbrev pub awake : World Env Src → World Env Src
  awake w = record w { chip = record (w.chip) { suspended = false } }

  abbrev pub readied : Bool → World Env Src → World Env Src
  readied true w = (initialize_ploytec host (awake w)).0
  readied false w = awake w

  woken : (w : World Env Src) {v : World Env Src} → IsBack (awake w).chip v → IsBack w.chip v
  woken w b = record {
    fenced = b.fenced;
    playback_full = b.playback_full;
    capture_full = b.capture_full;
    watched = b.watched;
  }

  -- A resume, with a reset of the device or without, that returns 0 has brought both rings back: 8
  -- more URBs in flight in each direction than there were, behind open fences with fresh error
  -- budgets, and a run of the watchdog queued. On the way the initialization returned 0, which only a
  -- reset calls for, and so did the programming of the rate behind it.
  pub restore_device-IsBack :
      (reset : Bool) (w : World Env Src)
      → (restore_device host reset w).1 ≡ none
      → IsBack w.chip (restore_device host reset w).0
        × (reset ≡ true → (initialize_ploytec host (awake w)).1 ≡ none)
        × ((jockey3_set_rate host w.chip.current_rate true (readied reset w)).1 ≡ none)
  unfolding restore_device
  restore_device-IsBack true w =
      let (w1, failed) = initialize_ploytec host (awake w) in
      let back : World Env Src × Option Errno → Type 0 = λ r.
        r.1 ≡ none
        → IsBack w.chip r.0
          × (true ≡ true → failed ≡ none)
          × ((jockey3_set_rate host w.chip.current_rate true w1).1 ≡ none) in
      unless_failed_cases back failed (λ e _ k. grind arith)
        λ well k. (
          woken w (restore_streams-IsBack (awake w).chip w1 (initialize-chip (awake w)) refl k),
          λ _. well,
          subst (λ (rate : ℕ). (jockey3_set_rate host rate true w1).1 ≡ none)
              (ap (λ (x : Chip). x.current_rate) (initialize-chip (awake w)))
              (restore_streams-programmed w1 k),
        )
  restore_device-IsBack false w = λ k. (
    woken w (restore_streams-IsBack (awake w).chip (awake w) refl refl k),
    λ e. cc,
    restore_streams-programmed (awake w) k,
  )
