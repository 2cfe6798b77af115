-- ===== src/Tests/DriverTests.antt =====
-- The rings, the recovery ladder and the PCM operations (jockey3.c) on a concrete host.
use alsa_jockey.Prelude.{
  ℕ, ◌+◌, ◌/◌, ◌≤◌, ◌≡◌, refl, arith, true, false, ◌||◌, none, some, List, [], ◌∷◌, ◌⊎◌,
}
use alsa_jockey.Errno.{enoent, enodev, eshutdown}
use alsa_jockey.Codec.Batch.{portable}
use alsa_jockey.Midi.RunningStatus.{fresh}
use alsa_jockey.Proto.Session.{answered}
use alsa_jockey.Stream.State.{playback_direction, capture_direction}
use alsa_jockey.Stream.Capture.{Completion}
use alsa_jockey.Recovery.Liveness.{check_urb_stream_alive}
use alsa_jockey.Driver.World.{Host, World, timed_out, urb_completes}
use alsa_jockey.Driver.Ring.{stop_urbs, start_urbs}
use alsa_jockey.Driver.Ring.Quiet.{rest, IsHalted, IsKilling, stop_urbs-quiet}
use alsa_jockey.Driver.Ring.Depth.{IsStarted, start_urbs-IsStarted}
use alsa_jockey.Driver.Ladder.{is_alive, is_up, wait_urb_stream_started, recover_urb_stream}
use alsa_jockey.Driver.Ladder.Resets.{IsLadder, recover_urb_stream-IsLadder}
use alsa_jockey.Driver.Ladder.Rounds.{IsNapping, IsTicking, wait_urb_stream_started_lem}
use alsa_jockey.Driver.Frames.{claims, ledger}
use alsa_jockey.Driver.Pcm.Held.{
  Call, hw_params, hw_free, prepare, tick, suspends, resumes, occurs, serve_all, IsHonoured,
  serve_all-rates,
}
use alsa_jockey.Tests.RecoveryTests.{chip}

-- A URB that was killed.
abbrev killed : Completion
killed = record {
  status = some enoent;
  actual_length = 0;
  transfer_buffer = λ x. 0;
  now = 0;
  submit_result = none;
}

abbrev eight : List Completion
eight = killed ∷ killed ∷ killed ∷ killed ∷ killed ∷ killed ∷ killed ∷ killed ∷ []

-- A host whose state is its clock, with a jiffy of 4 ms, which answers every transfer and takes
-- every URB, and gives back full rings; no reset of it ends in time.
abbrev pub host : Host ℕ (List ℕ)
host = record {
  transmit = λ src. none;
  variant = portable;
  codec = record {
    initialized = true;
    bit_spread_64 = λ x. 0;
    bit_spread_32 = record { high = λ x. 0; low = λ x. 0 };
  };
  core = record { after_period = λ s. s.running; after_xrun = λ s. false };
  answer = λ env t. (env, answered []);
  clock = λ env. env;
  jiffies = λ env. env / 4000000;
  msecs_to_jiffies = λ ms. (ms + 3) / 4;
  submit = λ env urb. (env, none);
  kill = λ env. (env, record { midi_in = none; of_playback = eight; of_capture = eight });
  nap = λ env. (env + 500000, []);
  grace_ms = λ env. 0;
  attached = λ env. true;
  reset_wait = λ env. timed_out;
  in_time = λ env. true;
  suspends = λ env d. true;
  constrain_periods = λ env. none;
  constrain_rate = λ env. none;
  ilog2 = λ n. 3;
  lock_for_reset = λ env. (env, none);
  reset_port = λ env. (env, none, true);
}

-- Streaming, at 3 s: a second after the last completion; a window of the budget is open.
abbrev pub world : World ℕ (List ℕ)
world = record {
  chip = record chip { recovery_window_start = 500000000; recovery_attempts = 1 };
  midi = record {
    current_rate = 44100;
    midi_out_acc = 0;
    midi_rate_divisor = 4410;
    midi_state = fresh;
    midi_out_substream = none;
  };
  usb = record { device = 3000000000; log = [] };
  watchdog_due = none;
  reset_scheduled = false;
  notes = [];
}

abbrev pub world-IsKilling : IsKilling host world
world-IsKilling = (refl, refl)

stop_urbs-quiet_example :
    let v = stop_urbs host world in
    IsHalted v.chip.playback 0
    × IsHalted v.chip.capture 0
    × (rest v ≡ record (rest world) { midi_halted = true; due = none })
    × (check_urb_stream_alive 3000000000 v.chip.playback ≡ false)
    × (check_urb_stream_alive 3000000000 v.chip.capture ≡ false)
stop_urbs-quiet_example = stop_urbs-quiet host 3000000000 world world-IsKilling

start_urbs-IsStarted_example :
    let (v, r) = start_urbs host true world in
    (false ≡ false → false ≡ false → IsStarted r world v)
    × (false ≡ true → (v ≡ world) × (r ≡ some enodev))
    × (false ≡ false → false ≡ true → (v ≡ world) × (r ≡ some eshutdown))
start_urbs-IsStarted_example = start_urbs-IsStarted host true world

recover_urb_stream-IsLadder_example :
    IsLadder (ledger world) (ledger (recover_urb_stream host playback_direction world).0)
    × ((world.chip.disconnected
            || is_alive host playback_direction world
            || world.chip.recovery_in_progress)
          ≡ true
        → (recover_urb_stream host playback_direction world).0 ≡ world)
recover_urb_stream-IsLadder_example =
    recover_urb_stream-IsLadder host playback_direction world (omega arith)

host-IsNapping : IsNapping host
host-IsNapping env = omega arith

host-IsTicking : IsTicking host
host-IsTicking = (λ env later n h. omega (arith, h), λ ms. omega arith)

wait_urb_stream_started_example :
    let (v, up) = wait_urb_stream_started host playback_direction 200 true world in
    (up ≡ true → is_up host true playback_direction v ≡ true)
    × (up ≡ false
        → (750 + 50 ≤ v.usb.device / 4000000) ⊎ ((v.chip.disconnected || v.chip.suspended) ≡ true))
wait_urb_stream_started_example =
    wait_urb_stream_started_lem host playback_direction 200 true world host-IsNapping host-IsTicking

-- Both directions ask, one gives back, and the device sleeps in between.
abbrev session : List Call
session =
    hw_params playback_direction 48000 768
    ∷ prepare playback_direction
    ∷ hw_params capture_direction 44100 768
    ∷ tick
    ∷ suspends
    ∷ resumes false
    ∷ occurs (urb_completes capture_direction killed)
    ∷ hw_free playback_direction
    ∷ hw_params capture_direction 96000 768
    ∷ []

serve_all-rates_example :
    let (v, k) = serve_all host session world (record { of_playback = none; of_capture = none }) in
    IsHonoured (claims v) k × ((r q : ℕ) → k.of_playback ≡ some r → k.of_capture ≡ some q → r ≡ q)
serve_all-rates_example = serve_all-rates host session world
