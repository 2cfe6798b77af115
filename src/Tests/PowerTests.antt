-- ===== src/Tests/PowerTests.antt =====
-- Power management, the restart of the rings and the watchdog's lines (jockey3.c) on a concrete host.
use alsa_jockey.Prelude.{ℕ, ◌++◌, ◌+◌, ◌-◌, ◌≤◌, ◌≡◌, arith, refl, true, false, none, List, [], ◌∷◌}
use alsa_jockey.Stream.State.{UrbStream, playback_direction, capture_direction}
use alsa_jockey.Driver.World.{World, Note, stall_onset, stall_restarted}
use alsa_jockey.Driver.World.{urb_done, urbs_done, midi_in_done, unless_failed}
use alsa_jockey.Stream.Capture.{capture_callback}
use alsa_jockey.Stream.Playback.{playback_callback}
use alsa_jockey.Stream.Errors.{urb_check, urb_error_give_up}
use alsa_jockey.Proto.Session.{transfer, sleep, ctrl_ep_unresponsive}
use alsa_jockey.Proto.Calls.{
  initialize_device, activate, bounce, get_firmware, get_status, clear_halts, start_streaming,
  get_rate, set_rate, burst_and_verify, rate_burst, buf_at, rate_bytes, rate_of,
}
use alsa_jockey.Driver.Device.{jockey3_set_rate, initialize_ploytec, program_rate, program_start}
use alsa_jockey.Driver.Ring.{
  stop_urbs, start_urbs, run_urbs, submit_urbs, submit_pcm_urb, submit_midi_in, kill_urbs, fence,
  watchdog_disarm, drop_liveness, open_fence, stamp_start, count_off, open_fences, stamp,
  watchdog_clear_stall, queue_watchdog, note_restart,
}
use alsa_jockey.Driver.Disconnect.{disconnect}
use alsa_jockey.Driver.Disconnect.Refusal.{IsRefusing, disconnect-IsRefusing}
use alsa_jockey.Driver.Ring.Quiet.{IsHalted}
use alsa_jockey.Driver.Power.{suspend, restore_device, restore_streams}
use alsa_jockey.Driver.Power.Sleep.{Prompt, revives, ticks, prompts, IsAsleep, suspend-stays}
use alsa_jockey.Driver.Power.Wake.{awake, readied, IsBack, restore_device-IsBack}
use alsa_jockey.Driver.Ladder.{
  recover_urb_stream, run_recovery_ladder, set_in_progress, report_xruns, climb, restart, escalate,
  reset_and_look, wait_urb_stream_started, poll, is_alive, is_up,
}
use alsa_jockey.Driver.Reset.{queue_reset, wait_reset_done, wait_ends, unless_gone}
use alsa_jockey.Driver.Frames.{resets}
use alsa_jockey.Driver.Ladder.Window.{Run, recovers, ended, recoveries-resets}
use alsa_jockey.Recovery.Budget.{recovery_max_attempts, recovery_budget_take}
use alsa_jockey.Recovery.Liveness.{check_urb_stream_alive, stream_streaming_healthy}
use alsa_jockey.Stream.Errors.{report_xrun}
use alsa_jockey.Driver.Tick.{look, judge, baseline}
use alsa_jockey.Driver.Tick.Pairing.{
  Watch, looks, clears, cleared, ended, lines, IsPaired, Watch-IsPaired,
}
use alsa_jockey.Tests.RecoveryTests.{streaming}
use alsa_jockey.Tests.DriverTests.{host, world, world-IsKilling}

abbrev asked : List Prompt
asked = revives capture_direction ∷ ticks ∷ revives playback_direction ∷ ticks ∷ []

suspend-stays_example :
    let v = suspend host world in IsAsleep v.usb v × IsAsleep v.usb (prompts host asked v)
suspend-stays_example = suspend-stays host asked world world-IsKilling

restored-none : (restore_device host true world).1 ≡ none
unfolding restore_device restore_streams jockey3_set_rate initialize_ploytec program_rate
    program_start initialize_device activate bounce get_firmware get_status clear_halts
    start_streaming get_rate set_rate burst_and_verify rate_burst transfer sleep unless_failed
    start_urbs run_urbs submit_urbs submit_pcm_urb submit_midi_in open_fences stamp
    watchdog_clear_stall queue_watchdog buf_at rate_bytes rate_of ctrl_ep_unresponsive
restored-none = refl

restore_device-IsBack_example :
    IsBack world.chip (restore_device host true world).0
    × (true ≡ true → (initialize_ploytec host (awake host world)).1 ≡ none)
    × ((jockey3_set_rate host 44100 true (readied host true world)).1 ≡ none)
restore_device-IsBack_example = restore_device-IsBack host true world restored-none

-- A stall that is reported at 3 s, a look during a stop, which drops it in silence, a start, and
-- the same stall again: two onsets, and no line between them.
abbrev stopped : UrbStream
stopped = record (look 3000000000 200 playback_direction streaming).stream { stopping = true }

abbrev started : UrbStream
started = record streaming { stall_reported = false }

silent : (look 3100000000 200 playback_direction stopped).stream.stall_reported ≡ false
unfolding look judge baseline
silent = refl

abbrev onset_twice : List Note
onset_twice = lines (look 3000000000 200 playback_direction streaming).logged (
    lines (look 3100000000 200 playback_direction stopped).logged
      (lines (look 3200000000 200 playback_direction started).logged []))

onset_twice_lem : onset_twice ≡ stall_onset playback_direction ∷ stall_onset playback_direction ∷ []
unfolding look judge baseline
onset_twice_lem = refl

-- The stall once more, and the start behind it, which closes it.
abbrev stalled : World ℕ (List ℕ)
stalled = record world {
  chip = record (world.chip) {
    playback = (look 3000000000 200 playback_direction streaming).stream;
  };
}

abbrev closed : List Note
closed =
    lines (look 3000000000 200 playback_direction streaming).logged
      ((cleared playback_direction stalled).notes ++ [])

closed_lem : closed ≡ stall_onset playback_direction ∷ stall_restarted playback_direction ∷ []
unfolding look judge baseline watchdog_clear_stall note_restart
closed_lem = refl

watched :
    Watch ℕ
      (List ℕ)
      playback_direction
      streaming
      (cleared playback_direction stalled).chip.playback
      closed
watched = looks 3000000000 200 (clears stalled refl ended)

Watch-IsPaired_example : IsPaired playback_direction false closed
Watch-IsPaired_example = Watch-IsPaired watched

-- The stalled stream's ladder: the restart, no wait, the budget's second attempt, a reset in vain.
ladder-window :
    (recover_urb_stream host playback_direction world).0.chip.recovery_window_start ≡ 500000000
unfolding recover_urb_stream run_recovery_ladder set_in_progress report_xruns report_xrun climb
    restart escalate reset_and_look wait_urb_stream_started poll is_alive is_up
    check_urb_stream_alive stream_streaming_healthy recovery_budget_take queue_reset wait_reset_done
    wait_ends unless_gone unless_failed start_urbs run_urbs stop_urbs submit_urbs submit_pcm_urb
    submit_midi_in kill_urbs fence watchdog_disarm drop_liveness urbs_done urb_done midi_in_done
    open_fence open_fences stamp stamp_start count_off watchdog_clear_stall queue_watchdog
    capture_callback playback_callback urb_check urb_error_give_up
ladder-window = refl

one_ladder-Run :
    Run host 500000000 world (recover_urb_stream host playback_direction world).0 (0 + 1)
one_ladder-Run = recovers playback_direction refl ladder-window ended

recoveries-resets_example :
    resets (recover_urb_stream host playback_direction world).0.notes
    ≤ resets world.notes + (recovery_max_attempts - 1)
recoveries-resets_example = recoveries-resets host (omega arith) (omega arith) one_ladder-Run

disconnect-IsRefusing_example :
    let v = disconnect host world in
    IsHalted v.chip.playback 0
    × IsHalted v.chip.capture 0
    × (v.reset_scheduled ≡ false)
    × (v.watchdog_due ≡ none)
    × IsRefusing host v
disconnect-IsRefusing_example = disconnect-IsRefusing host world refl world-IsKilling
