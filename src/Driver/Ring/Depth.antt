-- ===== src/Driver/Ring/Depth.antt =====
-- What `jockey3_start_urbs` (jockey3.c) leaves: both rings at their depth, or its first error.
use alsa_jockey.Prelude.{
  ◌+◌, ◌*◌, ◌≤◌, ◌≡◌, refl, ap, ◌∙◌, arith, Bool, true, false, if◌then◌else◌, Option, none, some,
}
use alsa_jockey.Errno.{Errno, enodev, eshutdown}
use alsa_jockey.Stream.State.{playback_direction, capture_direction, pkt_size}
use alsa_jockey.Driver.World.{Host, World, midi_in_urb}
use alsa_jockey.Driver.Ring.{
  n_urbs, open_fence, stamp_start, watchdog_clear_stall, stop_urbs, open_fences, queue_watchdog,
  submit_urbs, submit_midi_in, stamp, run_urbs, start_urbs,
}
use alsa_jockey.Driver.Ring.Quiet.{Rest, IsKilling, stop_urbs-quiet}
use alsa_jockey.Driver.Ring.Submits.{
  fences, all_open, is_queued, first_of-none, submit_urbs-IsSubmitted,
}

-- Both rings behind a start.
pub record IsStarted {Env Src : Type 0} (r : Option Errno) (w v : World Env Src) : Type 0 where
  pub fenced : fences v ≡ all_open
  pub playback_least : w.chip.playback.urbs_in_flight ≤ v.chip.playback.urbs_in_flight
  pub playback_most : v.chip.playback.urbs_in_flight ≤ w.chip.playback.urbs_in_flight + n_urbs
  pub capture_least : w.chip.capture.urbs_in_flight ≤ v.chip.capture.urbs_in_flight
  pub capture_most : v.chip.capture.urbs_in_flight ≤ w.chip.capture.urbs_in_flight + n_urbs
  pub playback_full :
      r ≡ none → v.chip.playback.urbs_in_flight ≡ w.chip.playback.urbs_in_flight + n_urbs
  pub capture_full :
      r ≡ none → v.chip.capture.urbs_in_flight ≡ w.chip.capture.urbs_in_flight + n_urbs
  pub watched : is_queued v.watchdog_due ≡ true

module _ {Env Src : Type 0} (host : Host Env Src) where
  run_urbs-IsStarted :
      (warm : Bool) (w : World Env Src) → let (v, r) = run_urbs host warm w in IsStarted r w v
  unfolding run_urbs open_fences open_fence stamp stamp_start watchdog_clear_stall submit_midi_in
      queue_watchdog
  run_urbs-IsStarted warm w =
      let cleared =
        watchdog_clear_stall capture_direction
          (watchdog_clear_stall playback_direction (open_fences w)) in
      let stamped = stamp host warm cleared in
      let (w1, e1) =
        submit_urbs host n_urbs (stamped.chip.playback.n_pkts * pkt_size)
          (stamped.chip.capture.n_pkts * pkt_size) none stamped in
      let all =
        submit_urbs-IsSubmitted host n_urbs (stamped.chip.playback.n_pkts * pkt_size)
          (stamped.chip.capture.n_pkts * pkt_size) none stamped in
      let well = first_of-none e1 (host.submit w1.usb.device midi_in_urb).1 in
      record {
        fenced = all.fenced;
        playback_least = all.playback_least;
        playback_most = all.playback_most;
        capture_least = all.capture_least;
        capture_most = all.capture_most;
        playback_full = λ k. all.playback_full (well k).0;
        capture_full = λ k. all.capture_full (well k).0;
        watched = refl;
      }

  -- On a device that is there and not suspended, start_urbs opens the fences of both directions
  -- and MIDI IN, with fresh error budgets and no stall left reported, and has a run of the watchdog
  -- queued; it puts at most 8 URBs in flight in each direction, and exactly 8 where it returns 0. On
  -- a device that is gone or suspended it does nothing and says which.
  pub start_urbs-IsStarted :
      (warm : Bool) (w : World Env Src)
      → let (v, r) = start_urbs host warm w in
        (w.chip.disconnected ≡ false → w.chip.suspended ≡ false → IsStarted r w v)
        × (w.chip.disconnected ≡ true → (v ≡ w) × (r ≡ some enodev))
        × (w.chip.disconnected ≡ false → w.chip.suspended ≡ true → (v ≡ w) × (r ≡ some eshutdown))
  unfolding start_urbs
  start_urbs-IsStarted warm w =
      let started = run_urbs-IsStarted warm w in
      let (v, r) = run_urbs host warm w in
      (
        there w.chip.disconnected w.chip.suspended started,
        λ e. ground (arith, e),
        λ e f. ground (arith, e, f),
      )
    where
      there :
          (gone asleep : Bool)
          → IsStarted (run_urbs host warm w).1 w (run_urbs host warm w).0
          → gone ≡ false
          → asleep ≡ false
          → let (v, r) =
              if gone
              then (w, some enodev)
              else if asleep
              then (w, some eshutdown)
              else run_urbs host warm w in
            IsStarted r w v
      there true b i e f = grind arith
      there false true i e f = grind arith
      there false false i e f = i

  -- Restarted on a device that is there and not suspended, the rings have exactly 8 URBs in flight in
  -- each direction, where stop_urbs got them all back and start_urbs returns 0.
  restart-depth :
      (warm : Bool) (w : World Env Src)
      → IsKilling host w
      → w.chip.disconnected ≡ false
      → w.chip.suspended ≡ false
      → (start_urbs host warm (stop_urbs host w)).1 ≡ none
      → let v = (start_urbs host warm (stop_urbs host w)).0 in
        (v.chip.playback.urbs_in_flight ≡ n_urbs) × (v.chip.capture.urbs_in_flight ≡ n_urbs)
  restart-depth warm w k here awake well =
      let (p, c, others, _, _) = stop_urbs-quiet host 0 w k in
      let started =
        (start_urbs-IsStarted warm (stop_urbs host w)).0 (ap (λ (x : Rest). x.gone) others ∙ here)
          (ap (λ (x : Rest). x.asleep) others ∙ awake) in
      (
        omega (arith, started.playback_full well, p.out),
        omega (arith, started.capture_full well, c.out),
      )
