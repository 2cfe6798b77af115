-- ===== src/Tests/RecoveryTests.antt =====
-- The watchdog and the budget (jockey3.c) at concrete clocks.
use native.Mathlib.Decide.{dec_le}
use alsa_jockey.Prelude.{
  ℕ, zero, suc, leb, if◌then◌else◌, ◌+◌, ◌*◌, ◌^◌, ◌≤◌, ◌<◌, ◌≡◌, arith, true, false, none, some,
  ◌⊎◌, max,
}
use alsa_jockey.Stream.State.{UrbStream, Chip, playback_direction, get_pcm_urb_stream}
use alsa_jockey.Stream.Sizing.{IsIlog2, pcm_set_n, pcm_set_n_lem}

-- Started at 1 s; the last of 5 completions at 2 s.
abbrev pub streaming : UrbStream
streaming = record {
  substream = some (record { runtime = none });
  urbs_in_flight = 8;
  last_callback_time = 2000000000;
  first_callback_time = 1100000000;
  completions_since_start = 5;
  urbs_started_time = 1000000000;
  dma_off = 0;
  period_off = 0;
  running = false;
  rate_committed = true;
  callbacks_active = 0;
  stopping = false;
  consec_errors = 0;
  stall_reported = false;
  stall_since = 0;
  retry_at = 0;
  retry_backoff_ms = 500;
  steady_since = 0;
  n_shift = 0;
  n_pkts = 1;
}

abbrev pub chip : Chip
chip = record {
  playback = streaming;
  capture = streaming;
  disconnected = false;
  resetting = false;
  suspended = false;
  current_rate = 44100;
  recovery_attempts = 0;
  recovery_window_start = 0;
  recovery_in_progress = false;
  warm_start = false;
  reset_rc = none;
  reset_done = true;
  midi_stopping = false;
  midi_consec_errors = 0;
}

-- The logarithm, sought from `k` down.
abbrev ilog2_below : ℕ → ℕ → ℕ
ilog2_below zero n = zero
ilog2_below (suc k) n = let rest = ilog2_below k n in if leb (2 ^ suc k) n then suc k else rest

ilog2_below_lem :
    (k n : ℕ) → 0 < n → n < 2 ^ suc k → (2 ^ ilog2_below k n ≤ n) × (n < 2 ^ suc (ilog2_below k n))
ilog2_below_lem zero n pos h = (pos, h)
ilog2_below_lem (suc k) n pos h = elim (dec_le (2 ^ suc k) n) [
  | yes big ↦ let t : leb (2 ^ suc k) n ≡ true = ground (arith, big) in rw t (big, h)
  | no small ↦
      let t : leb (2 ^ suc k) n ≡ false = ground (arith, small) in
      rw t (ilog2_below_lem k n pos (omega (arith, small)))
]

power_above : (n : ℕ) → n < 2 ^ suc n
power_above zero = omega arith
power_above (suc n) = omega (arith, power_above n)

abbrev pub ilog2 : ℕ → ℕ
ilog2 n = ilog2_below n n

add_one : (n : ℕ) → n + 1 ≡ suc n
add_one n = omega arith

pub ilog2-IsIlog2 : IsIlog2 ilog2
ilog2-IsIlog2 n pos =
    let (lo, hi) = ilog2_below_lem n n pos (power_above n) in (lo, rw (add_one (ilog2 n)) hi)

pcm_set_n_example :
    let s = get_pcm_urb_stream (pcm_set_n ilog2 playback_direction 768 chip) playback_direction in
    (s.n_pkts ≡ 2 ^ s.n_shift)
    × (s.n_pkts ≤ 8)
    × (s.n_pkts * 120 ≤ max 768 120)
    × (s.n_pkts ≡ 8 ⊎ 768 < 2 * s.n_pkts * 120)
pcm_set_n_example = pcm_set_n_lem ilog2 playback_direction 768 chip ilog2-IsIlog2 (omega arith)
