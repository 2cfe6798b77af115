-- ===== src/Driver/Frames/Recovery.antt =====
-- What resets, power management and the recovery ladder (jockey3.c) do to the ledger: none changes the
-- rate or a claim on it, and only the ladder's budget asks for a reset.
use alsa_jockey.Prelude.{
  ℕ, zero, suc, ◌+◌, ◌≡◌, refl, ap, ◌∙◌, Bool, true, false, ltb, not, ◌||◌, Option,
}
use alsa_jockey.Errno.{Errno}
use alsa_jockey.Stream.State.{Direction}
use alsa_jockey.Stream.Errors.{report_xrun}
use alsa_jockey.Stream.Handler.{report_xrun_lem}
use alsa_jockey.Driver.World.{Wait, reset_runs, released, timed_out, Host, World, set_env}
use alsa_jockey.Driver.Ring.{stop_urbs}
use alsa_jockey.Driver.Device.{jockey3_set_rate, initialize_ploytec}
use alsa_jockey.Driver.Power.{
  pre_reset, finish_foreign_reset, bring_back, post_reset, quiesce, suspend, restore_streams,
  restore_device,
}
use alsa_jockey.Driver.Reset.{
  reset_device, finish_reset, reset_work, reset_ends, unless_gone, wait_ends, wait_reset_done,
  wait_for_reset_completion,
}
use alsa_jockey.Driver.Ladder.{
  is_up, nap, poll, rounds, wait_urb_stream_started, report_xruns, restart,
}
use alsa_jockey.Driver.Frames.{
  Ledger, claims, ledger, if_both, unless_failed_both, all_happen-ledger, stop_urbs-ledger,
  start_urbs-ledger,
}

module _ {Env Src : Type 0} (host : Host Env Src) where
  pub jockey3_set_rate-ledger :
      (rate : ℕ) (cold : Bool) (w : World Env Src)
      → ledger (jockey3_set_rate host rate cold w).0 ≡ ledger w
  unfolding jockey3_set_rate
  jockey3_set_rate-ledger rate cold w =
      if_both (λ (r : World Env Src × Option Errno). ledger r.0 ≡ ledger w) w.chip.disconnected refl
        refl

  initialize_ploytec-ledger : (w : World Env Src) → ledger (initialize_ploytec host w).0 ≡ ledger w
  unfolding initialize_ploytec
  initialize_ploytec-ledger w =
      if_both (λ (r : World Env Src × Option Errno). ledger r.0 ≡ ledger w) w.chip.disconnected refl
        refl

  pub pre_reset-ledger : (w : World Env Src) → ledger (pre_reset host w) ≡ ledger w
  unfolding pre_reset
  pre_reset-ledger w = stop_urbs-ledger host _

  bring_back-ledger : (w : World Env Src) → ledger (bring_back host w) ≡ ledger w
  unfolding bring_back
  bring_back-ledger w = jockey3_set_rate-ledger _ true _ ∙ initialize_ploytec-ledger w

  pub post_reset-ledger : (b : Bool) (w : World Env Src) → ledger (post_reset host b w) ≡ ledger w
  unfolding post_reset finish_foreign_reset
  post_reset-ledger b w =
      let restarted = start_urbs-ledger host false (bring_back host w) ∙ bring_back-ledger w in
      if_both (λ (v : World Env Src). ledger v ≡ ledger w) b restarted restarted

  pub suspend-ledger : (w : World Env Src) → claims (suspend host w) ≡ claims w
  unfolding suspend quiesce
  suspend-ledger w = ap (λ (l : Ledger). l.claims) (stop_urbs-ledger host _)

  restore_streams-ledger : (w : World Env Src) → ledger (restore_streams host w).0 ≡ ledger w
  unfolding restore_streams
  restore_streams-ledger w =
      let kept : World Env Src × Option Errno → Type 0 = λ r. ledger r.0 ≡ ledger w in
      let (w1, failed) = jockey3_set_rate host w.chip.current_rate true w in
      let set = jockey3_set_rate-ledger w.chip.current_rate true w in
      unless_failed_both kept failed (λ _. set) (start_urbs-ledger host false w1 ∙ set)

  pub restore_device-ledger :
      (reset : Bool) (w : World Env Src) → ledger (restore_device host reset w).0 ≡ ledger w
  unfolding restore_device
  restore_device-ledger reset w =
      let kept : World Env Src × Option Errno → Type 0 = λ r. ledger r.0 ≡ ledger w in
      let awake = record w { chip = record (w.chip) { suspended = false } } in
      let (w1, failed) = initialize_ploytec host awake in
      let started = initialize_ploytec-ledger awake in
      if_both kept reset
        (unless_failed_both kept failed (λ _. started) (restore_streams-ledger w1 ∙ started))
        (restore_streams-ledger awake)

  reset_device-ledger : (w : World Env Src) → ledger (reset_device host w).0 ≡ ledger w
  unfolding reset_device
  reset_device-ledger w =
      let down = pre_reset host w in
      let (env, failed, calls) = host.reset_port down.usb.device in
      if_both (λ (v : World Env Src). ledger v ≡ ledger w) calls
        (post_reset-ledger true (set_env down env) ∙ pre_reset-ledger w) (pre_reset-ledger w)

  reset_work-ledger : (w : World Env Src) → ledger (reset_work host w) ≡ ledger w
  unfolding reset_work finish_reset
  reset_work-ledger w =
      let (env, refused) = host.lock_for_reset w.usb.device in
      let locked = record (set_env w env) { reset_scheduled = false } in
      unless_failed_both (λ (v : World Env Src). ledger v ≡ ledger w) refused (λ _. refl)
        (reset_device-ledger locked)

  reset_ends-ledger : (w : World Env Src) → ledger (reset_ends host w) ≡ ledger w
  unfolding reset_ends
  reset_ends-ledger w =
      if_both (λ (v : World Env Src). ledger v ≡ ledger w) w.reset_scheduled (reset_work-ledger w)
        (post_reset-ledger false w)

  wait_ends-ledger : (x : Wait) (w : World Env Src) → ledger (wait_ends host x w).0 ≡ ledger w
  unfolding wait_ends unless_gone
  wait_ends-ledger reset_runs w = reset_ends-ledger w
  wait_ends-ledger released w = refl
  wait_ends-ledger timed_out w = refl

  pub wait_reset_done-ledger : (w : World Env Src) → ledger (wait_reset_done host w).0 ≡ ledger w
  unfolding wait_reset_done unless_gone
  wait_reset_done-ledger w =
      if_both (λ (r : World Env Src × Option Errno). ledger r.0 ≡ ledger w) w.chip.reset_done refl
        (wait_ends-ledger (host.reset_wait w.usb.device) w)

  pub wait_for_reset_completion-ledger :
      (w : World Env Src) → ledger (wait_for_reset_completion host w).0 ≡ ledger w
  unfolding wait_for_reset_completion
  wait_for_reset_completion-ledger w =
      if_both (λ (r : World Env Src × Option Errno). ledger r.0 ≡ ledger w) w.chip.resetting
        (wait_reset_done-ledger w) refl

  nap-ledger : (w : World Env Src) → ledger (nap host w) ≡ ledger w
  unfolding nap
  nap-ledger w =
      let (env, events) = host.nap w.usb.device in all_happen-ledger host events (set_env w env)

  poll-ledger :
      (n : ℕ) (d : Direction) (deadline : ℕ) (h : Bool) (w : World Env Src)
      → ledger (poll host n d deadline h w).0 ≡ ledger w
  unfolding poll
  poll-ledger zero d deadline h w = refl
  poll-ledger (suc n) d deadline h w =
      let kept : World Env Src × Option Bool → Type 0 = λ r. ledger r.0 ≡ ledger w in
      if_both kept (not (ltb (host.jiffies w.usb.device) deadline)) refl (
        if_both kept (w.chip.disconnected || w.chip.suspended) refl (
          if_both kept (is_up host h d w) refl
            (poll-ledger n d deadline h (nap host w) ∙ nap-ledger w)))

  pub wait_urb_stream_started-ledger :
      (d : Direction) (timeout_ms : ℕ) (h : Bool) (w : World Env Src)
      → ledger (wait_urb_stream_started host d timeout_ms h w).0 ≡ ledger w
  unfolding wait_urb_stream_started
  wait_urb_stream_started-ledger d timeout_ms h w =
      poll-ledger (rounds timeout_ms) d
        (host.jiffies w.usb.device + host.msecs_to_jiffies timeout_ms) h w

  pub restart-ledger : (w : World Env Src) → ledger (restart host w) ≡ ledger w
  unfolding restart
  restart-ledger w = start_urbs-ledger host true (stop_urbs host w) ∙ stop_urbs-ledger host w

  pub report_xruns-ledger : (w : World Env Src) → ledger (report_xruns host w) ≡ ledger w
  unfolding report_xruns
  report_xruns-ledger w =
      let p = report_xrun_lem host.core w.chip.playback in
      let c = report_xrun_lem host.core w.chip.capture in
      ap
        (λ (b : Bool). record (ledger w) {
          claims = record (claims w) {
            of_playback = b;
            of_capture = (report_xrun host.core w.chip.capture).rate_committed;
          };
        })
        p.committed
      ∙ ap (λ (b : Bool). record (ledger w) { claims = record (claims w) { of_capture = b } })
          c.committed
