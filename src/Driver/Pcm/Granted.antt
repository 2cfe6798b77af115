-- ===== src/Driver/Pcm/Granted.antt =====
-- What `jockey3_pcm_hw_params` and `jockey3_pcm_prepare` (jockey3.c) do to the rate and the
-- directions' claims on it.
use alsa_jockey.Prelude.{ℕ, ◌≡◌, refl, sym, subst, ◌∙◌, Bool, false, not, ◌&&◌, Option, none, some}
use alsa_jockey.Errno.{Errno, enodev}
use alsa_jockey.Stream.State.{Direction, playback_direction, capture_direction, has_substream}
use alsa_jockey.Stream.Sizing.{pcm_set_n}
use alsa_jockey.Driver.World.{Host, World}
use alsa_jockey.Driver.Reset.{wait_for_reset_completion}
use alsa_jockey.Driver.Ladder.{is_alive, wait_urb_stream_started, recover_urb_stream}
use alsa_jockey.Driver.Pcm.{
  pcm_change_rate, recover_if, confirm_streams, set_n, apply_params, pcm_hw_params, finish_prepare,
  revive_and_rewind, pcm_prepare, rewind,
}
use alsa_jockey.Driver.Frames.{Claims, claims, if_both, unless_failed_both, unless_failed_cases}
use alsa_jockey.Driver.Frames.Recovery.{
  wait_for_reset_completion-ledger, wait_urb_stream_started-ledger,
}
use alsa_jockey.Driver.Tick.Claims.{recover_urb_stream-claims}
use alsa_jockey.Driver.Pcm.Interlock.{IsGranted, untouched, of_ledger, change_rate-IsGranted}

-- What succeeded so far, however the rest goes.
however :
    {d : Direction} {rate : ℕ} {a b : Claims} (r : Option Errno)
    → IsGranted d rate a b none
    → IsGranted d rate a b r
however r g = record {
  other_kept = g.other_kept;
  rate_kept = g.rate_kept;
  claimed = λ _. g.claimed refl;
  rate_given = λ _. g.rate_given refl;
}

module _ {Env Src : Type 0} (host : Host Env Src) where
  recover_if-claims :
      (b : Bool) (d : Direction) (w : World Env Src) → claims (recover_if host b d w).0 ≡ claims w
  unfolding recover_if
  recover_if-claims b d w =
      if_both (λ (r : World Env Src × Option Errno). claims r.0 ≡ claims w) b
        (recover_urb_stream-claims host d w) refl

  wait-claims :
      (d : Direction) (t : ℕ) (h : Bool) (w : World Env Src)
      → claims (wait_urb_stream_started host d t h w).0 ≡ claims w
  wait-claims d t h w = of_ledger (wait_urb_stream_started-ledger host d t h w)

  confirm_streams-claims : (w : World Env Src) → claims (confirm_streams host w).0 ≡ claims w
  unfolding confirm_streams
  confirm_streams-claims w =
      let grace = host.grace_ms w.usb.device in
      let (w1, playback_alive) = wait_urb_stream_started host playback_direction grace false w in
      let (w2, capture_alive) = wait_urb_stream_started host capture_direction grace false w1 in
      let (w3, failed) = recover_if host (not playback_alive) playback_direction w2 in
      let wanted = not capture_alive && has_substream w2.chip.capture in
      let played =
        recover_if-claims (not playback_alive) playback_direction w2
        ∙ wait-claims capture_direction grace false w1
        ∙ wait-claims playback_direction grace false w in
      unless_failed_both (λ (r : World Env Src × Option Errno). claims r.0 ≡ claims w) failed
        (λ _. played) (recover_if-claims wanted capture_direction w3 ∙ played)

  set_n-claims : (d : Direction) (n : ℕ) (w : World Env Src) → claims (set_n host d n w) ≡ claims w
  unfolding set_n pcm_set_n
  set_n-claims playback_direction n w = refl
  set_n-claims capture_direction n w = refl

  apply_params-IsGranted :
      (d : Direction) (rate period_bytes : ℕ) (w : World Env Src)
      → let (v, failed) = apply_params host d rate period_bytes w in
        IsGranted d rate (claims w) (claims v) failed
  unfolding apply_params
  apply_params-IsGranted d rate period_bytes w =
      let sized = set_n host d period_bytes w in
      let (w1, failed, changed) = pcm_change_rate host d rate sized in
      let (w2, lost) = confirm_streams host w1 in
      let asked : IsGranted d rate (claims w) (claims w1) failed =
        subst (λ (c : Claims). IsGranted d rate c (claims w1) failed)
          (set_n-claims d period_bytes w) (change_rate-IsGranted host d rate sized) in
      let to : Option Errno → Type 0 = λ r. IsGranted d rate (claims w) (claims w1) r in
      let granted : World Env Src × Option Errno → Type 0 =
        λ r. IsGranted d rate (claims w) (claims r.0) r.1 in
      unless_failed_cases granted failed (λ x e. subst to e asked)
        λ e.
          if_both granted changed
            (subst (λ (c : Claims). IsGranted d rate (claims w) c lost)
              (sym (confirm_streams-claims w1)) (however lost (subst to e asked)))
            (subst to e asked)

  -- Whatever the device and the streams do meanwhile, a call of hw_params leaves the other direction's
  -- claim on the sample rate as it was, and, where the other direction has one, the rate itself; if
  -- it succeeds, this direction holds a claim and the rate is the one asked for.
  pub pcm_hw_params-IsGranted :
      (d : Direction) (rate period_bytes : ℕ) (w : World Env Src)
      → let (v, failed) = pcm_hw_params host d rate period_bytes w in
        IsGranted d rate (claims w) (claims v) failed
  unfolding pcm_hw_params
  pcm_hw_params-IsGranted d rate period_bytes w =
      let (w1, failed) = wait_for_reset_completion host w in
      let (v, result) = apply_params host d rate period_bytes w1 in
      let waited = of_ledger (wait_for_reset_completion-ledger host w) in
      let granted : World Env Src × Option Errno → Type 0 =
        λ r. IsGranted d rate (claims w) (claims r.0) r.1 in
      if_both granted w.chip.disconnected (untouched d rate (claims w) enodev) (
        unless_failed_both granted failed
          (λ e.
            subst (λ (c : Claims). IsGranted d rate (claims w) c (some e)) (sym waited)
              (untouched d rate (claims w) e))
          (subst (λ (c : Claims). IsGranted d rate c (claims v) result) waited
            (apply_params-IsGranted d rate period_bytes w1)))

  finish_prepare-claims :
      (d : Direction) (w : World Env Src) → claims (finish_prepare host d w).0 ≡ claims w
  unfolding finish_prepare rewind
  finish_prepare-claims d w =
      let same : World Env Src × Option Errno → Type 0 = λ r. claims r.0 ≡ claims w in
      let ended = record w { chip = record (w.chip) { recovery_in_progress = false } } in
      let rewound = if_both same w.chip.disconnected refl (rewound-claims d ended) in
      if_both same (not w.chip.recovery_in_progress) rewound
        (if_both same (host.in_time w.usb.device) rewound refl)
    where
      rewound-claims : (d : Direction) (w : World Env Src) → claims (rewind d w) ≡ claims w
      rewound-claims playback_direction w = unfold rewind in refl
      rewound-claims capture_direction w = unfold rewind in refl

  pub pcm_prepare-claims :
      (d : Direction) (w : World Env Src) → claims (pcm_prepare host d w).0 ≡ claims w
  unfolding pcm_prepare revive_and_rewind
  pcm_prepare-claims d w =
      let same : World Env Src × Option Errno → Type 0 = λ r. claims r.0 ≡ claims w in
      let (w1, failed) = wait_for_reset_completion host w in
      let waited = of_ledger (wait_for_reset_completion-ledger host w) in
      let (w2, up) = wait_urb_stream_started host d (host.grace_ms w1.usb.device) false w1 in
      let (w3, lost) = recover_urb_stream host d w2 in
      let polled = wait-claims d (host.grace_ms w1.usb.device) false w1 ∙ waited in
      let revived = recover_urb_stream-claims host d w2 ∙ polled in
      if_both same w.chip.disconnected refl (
        unless_failed_both same failed (λ _. waited)
          (if_both same w1.chip.disconnected waited (
            if_both same (is_alive host d w1) (finish_prepare-claims d w1 ∙ waited) (
              if_both same up (finish_prepare-claims d w2 ∙ polled) (
                unless_failed_both same lost (λ _. revived)
                  (finish_prepare-claims d w3 ∙ revived))))))
