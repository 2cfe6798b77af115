-- ===== src/Tests/RateTests.antt =====
-- A rate change that fails behind the writes of the rate, and a stream that is prepared through a reset
-- (jockey3.c), on concrete devices.
use alsa_jockey.Prelude.{
  ℕ, ◌==◌, ◌≡◌, refl, false, if◌then◌else◌, Option, none, some, List, [], ◌∷◌,
}
use alsa_jockey.Errno.{eio}
use alsa_jockey.Proto.Session.{
  Transfer, control_send, Reply, failed, answered, transfer, sleep, ctrl_ep_unresponsive,
}
use alsa_jockey.Proto.Calls.{
  initialize_device, activate, bounce, get_firmware, get_status, clear_halts, start_streaming,
  get_rate, set_rate, burst_and_verify, rate_burst, buf_at, rate_bytes, rate_of,
}
use alsa_jockey.Stream.State.{playback_direction}
use alsa_jockey.Stream.Capture.{capture_callback}
use alsa_jockey.Stream.Playback.{playback_callback}
use alsa_jockey.Stream.Errors.{urb_check, urb_error_give_up}
use alsa_jockey.Driver.World.{Host, World, urb_done, urbs_done, midi_in_done, unless_failed}
use alsa_jockey.Driver.Device.{jockey3_set_rate, program_rate, publish_rate}
use alsa_jockey.Driver.Ring.{
  start_urbs, stop_urbs, run_urbs, submit_urbs, submit_pcm_urb, submit_midi_in, kill_urbs, fence,
  watchdog_disarm, drop_liveness, open_fence, stamp_start, count_off, open_fences, stamp,
  watchdog_clear_stall, queue_watchdog,
}
use alsa_jockey.Driver.World.{reset_runs, all_happen}
use alsa_jockey.Stream.Errors.{report_xrun}
use alsa_jockey.Recovery.Budget.{recovery_budget_take}
use alsa_jockey.Recovery.Liveness.{check_urb_stream_alive, stream_streaming_healthy}
use alsa_jockey.Driver.Device.{initialize_ploytec, program_start}
use alsa_jockey.Driver.Power.{pre_reset, post_reset, bring_back}
use alsa_jockey.Driver.Reset.{
  queue_reset, wait_reset_done, wait_ends, reset_ends, reset_work, reset_device, finish_reset,
  unless_gone, wait_for_reset_completion,
}
use alsa_jockey.Driver.Ladder.{
  recover_urb_stream, run_recovery_ladder, set_in_progress, report_xruns, climb, restart, escalate,
  reset_and_look, wait_urb_stream_started, poll, nap, is_alive, is_up,
}
use alsa_jockey.Driver.Pcm.{pcm_prepare, revive_and_rewind, finish_prepare, rewind}
use alsa_jockey.Driver.Pcm.Ready.{IsReady, pcm_prepare-IsReady}
use alsa_jockey.Driver.Pcm.{set_rate_committed, rate_committed_streams, reprogram, pcm_change_rate}
use alsa_jockey.Tests.DriverTests.{host, world}

-- A device that fails the write of the status byte, and answers all else.
abbrev answer : ℕ → Transfer → ℕ × Reply
answer env (control_send request kind value index bytes) =
    (env, if request == 0x49 then failed eio else answered [])
answer env _ = (env, answered [])

abbrev half_host : Host ℕ (List ℕ)
half_host = record host { answer = answer }

-- The rate that was last written.
abbrev last_rate : List Transfer → Option (List ℕ)
last_rate [] = none
last_rate (control_send request kind value index bytes ∷ later) =
    let rest = last_rate later in
    elim rest [ some r ↦ some r | none ↦ if request == 0x01 then some bytes else none ]
last_rate (_ ∷ later) = last_rate later

-- No direction holds the rate, which is 44100.
abbrev idle : World ℕ (List ℕ)
idle = set_rate_committed playback_direction false (record world {
  chip = record (world.chip) { capture = record (world.chip.capture) { rate_committed = false } };
})

abbrev changed : World ℕ (List ℕ)
changed = (pcm_change_rate half_host playback_direction 48000 idle).0

-- The change to 48000 fails with the device at 48000 and the driver at 44100; and a change to 44100
-- then succeeds without a call to the device.
changed_half :
    ((pcm_change_rate half_host playback_direction 48000 idle).1 ≡ some eio)
    × (last_rate changed.usb.log ≡ some (rate_bytes 48000))
    × (changed.chip.current_rate ≡ 44100)
    × ((pcm_change_rate half_host playback_direction 44100 changed).1 ≡ none)
    × (last_rate (pcm_change_rate half_host playback_direction 44100 changed).0.usb.log
        ≡ some (rate_bytes 48000))
unfolding pcm_change_rate reprogram set_rate_committed rate_committed_streams publish_rate
    jockey3_set_rate program_rate initialize_device activate bounce get_firmware get_status
    clear_halts start_streaming get_rate set_rate burst_and_verify rate_burst transfer sleep
    unless_failed start_urbs stop_urbs run_urbs submit_urbs submit_pcm_urb submit_midi_in
    open_fences open_fence stamp stamp_start watchdog_clear_stall queue_watchdog kill_urbs fence
    watchdog_disarm drop_liveness urb_done urbs_done midi_in_done count_off capture_callback
    playback_callback urb_check urb_error_give_up buf_at rate_bytes rate_of ctrl_ep_unresponsive
changed_half = (refl, refl, refl, refl, refl)

-- A host whose resets run.
abbrev resetting_host : Host ℕ (List ℕ)
resetting_host = record host { reset_wait = λ env. reset_runs }

-- The stalled stream is prepared through a restart and a reset.
prepared-none : (pcm_prepare resetting_host playback_direction world).1 ≡ none
unfolding pcm_prepare revive_and_rewind finish_prepare rewind wait_for_reset_completion
    recover_urb_stream run_recovery_ladder set_in_progress report_xruns report_xrun climb restart
    escalate reset_and_look wait_urb_stream_started poll nap all_happen is_alive is_up
    check_urb_stream_alive stream_streaming_healthy recovery_budget_take queue_reset wait_reset_done
    wait_ends reset_ends reset_work reset_device finish_reset pre_reset post_reset bring_back
    initialize_ploytec program_start unless_gone jockey3_set_rate program_rate initialize_device
    activate bounce get_firmware get_status clear_halts start_streaming get_rate set_rate
    burst_and_verify rate_burst transfer sleep unless_failed start_urbs stop_urbs run_urbs
    submit_urbs submit_pcm_urb submit_midi_in open_fences open_fence stamp stamp_start
    watchdog_clear_stall queue_watchdog kill_urbs fence watchdog_disarm drop_liveness urb_done
    urbs_done midi_in_done count_off capture_callback playback_callback urb_check urb_error_give_up
    buf_at rate_bytes rate_of ctrl_ep_unresponsive
prepared-none = refl

pcm_prepare-IsReady_example :
    IsReady playback_direction (pcm_prepare resetting_host playback_direction world).0
pcm_prepare-IsReady_example =
    pcm_prepare-IsReady resetting_host playback_direction world prepared-none
