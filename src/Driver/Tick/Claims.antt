-- ===== src/Driver/Tick/Claims.antt =====
-- The watchdog's run (jockey3.c) leaves the rate and the directions' claims on it alone.
use alsa_jockey.Prelude.{
  ℕ, ◌≡◌, refl, ap, ◌∙◌, arith, Bool, not, ◌&&◌, ◌||◌, ◌==◌, Option, none, some,
}
use alsa_jockey.Recovery.Watchdog.{watchdog_stall_ms, watchdog_back_off}
use alsa_jockey.Stream.State.{
  UrbStream, Direction, playback_direction, capture_direction, get_pcm_urb_stream,
}
use alsa_jockey.Driver.World.{Note, Host, World}
use alsa_jockey.Driver.Ring.{queue_watchdog}
use alsa_jockey.Driver.Ladder.{recover_urb_stream}
use alsa_jockey.Driver.Tick.{
  judge, look, note_steady, wants_ladder, put, log_line, back_off_both, act, watchdog_check,
  watchdog_work,
}
use alsa_jockey.Driver.Frames.{claims, if_both}
use alsa_jockey.Driver.Ladder.Resets.{recover_urb_stream-IsClimbed}

look-committed :
    (now grace_ms : ℕ) (d : Direction) (s : UrbStream)
    → (look now grace_ms d s).stream.rate_committed ≡ s.rate_committed
unfolding look judge
look-committed now grace_ms d s = ground arith

note_steady-committed :
    (now : ℕ) (s : UrbStream) → (note_steady now s).rate_committed ≡ s.rate_committed
unfolding note_steady
note_steady-committed now s = ground arith

module _ {Env Src : Type 0} where
  -- A stream that is put back with its claim.
  put-claims :
      (d : Direction) (s : UrbStream) (w : World Env Src)
      → s.rate_committed ≡ (get_pcm_urb_stream w.chip d).rate_committed
      → claims (put d s w) ≡ claims w
  put-claims playback_direction s w e = ap (λ (b : Bool). record (claims w) { of_playback = b }) e
  put-claims capture_direction s w e = ap (λ (b : Bool). record (claims w) { of_capture = b }) e

  log_line-claims : (n : Option Note) (w : World Env Src) → claims (log_line n w) ≡ claims w
  unfolding log_line
  log_line-claims none w = refl
  log_line-claims (some n) w = refl

module _ {Env Src : Type 0} (host : Host Env Src) where
  pub recover_urb_stream-claims :
      (d : Direction) (w : World Env Src) → claims (recover_urb_stream host d w).0 ≡ claims w
  recover_urb_stream-claims d w = (recover_urb_stream-IsClimbed host d w).claims

  act-claims :
      (now : ℕ) (d : Direction) (stalled : Bool) (threshold_ms : ℕ) (w : World Env Src)
      → claims (act host now d stalled threshold_ms w) ≡ claims w
  unfolding act back_off_both watchdog_back_off
  act-claims now d stalled threshold_ms w =
      let same : World Env Src → Type 0 = λ v. claims v ≡ claims w in
      let s = get_pcm_urb_stream w.chip d in
      let unsteady = put d (record s { steady_since = 0 }) w in
      let left = put-claims d (record s { steady_since = 0 }) w refl in
      if_both same (not stalled && (threshold_ms == watchdog_stall_ms))
        (put-claims d (note_steady now s) w (note_steady-committed now s))
        (if_both same (wants_ladder now d stalled s) (recover_urb_stream-claims d unsteady ∙ left)
          left)

  watchdog_check-claims :
      (d : Direction) (w : World Env Src) → claims (watchdog_check host d w) ≡ claims w
  unfolding watchdog_check
  watchdog_check-claims d w =
      let now = host.clock w.usb.device in
      let grace = host.grace_ms w.usb.device in
      let s = get_pcm_urb_stream w.chip d in
      let seen = look now grace d s in
      let looked = log_line seen.logged (put d seen.stream w) in
      let same =
        log_line-claims seen.logged (put d seen.stream w)
        ∙ put-claims d seen.stream w (look-committed now grace d s) in
      if_both (λ (v : World Env Src). claims v ≡ claims w) (host.attached w.usb.device)
        (found_claims looked seen.found ∙ same) refl
    where
      found_claims :
          (looked : World Env Src) (found : Option (Bool × ℕ))
          → claims (elim found as (λ _. World Env Src) [
            | none ↦ looked
            | some x ↦ act host (host.clock w.usb.device) d x.0 x.1 looked
          ])
            ≡ claims looked
      found_claims looked none = refl
      found_claims looked (some (stalled, t)) =
          act-claims (host.clock w.usb.device) d stalled t looked

  pub watchdog_work-claims : (w : World Env Src) → claims (watchdog_work host w) ≡ claims w
  unfolding watchdog_work queue_watchdog
  watchdog_work-claims w =
      let same : World Env Src → Type 0 = λ v. claims v ≡ claims w in
      let running = record w { watchdog_due = none } in
      let played = watchdog_check host playback_direction running in
      let checked =
        watchdog_check-claims capture_direction played
        ∙ watchdog_check-claims playback_direction running in
      if_both same (w.chip.disconnected || w.chip.suspended) refl
        (if_both same w.chip.resetting refl checked)
