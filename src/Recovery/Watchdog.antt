-- ===== src/Recovery/Watchdog.antt =====
-- The timing of the watchdog (jockey3.c): `jockey3_watchdog_next_delay_ms`, the delay that
-- `jockey3_watchdog_arm` queues, and `jockey3_watchdog_back_off`.
use alsa_jockey.Prelude.{
  ℕ, zero, suc, ◌+◌, ◌-◌, ◌*◌, ◌/◌, ◌^◌, ◌≤◌, ◌<◌, ◌≡◌, arith, false, ltb, ◌==◌, ◌||◌,
  if◌then◌else◌, u32, u64, min, ◌⊎◌,
}
use alsa_jockey.Stream.State.{UrbStream, Chip, has_substream, nsec_per_msec}
use alsa_jockey.Recovery.Clock.{sub64, not_positive, clamp}

abbrev pub watchdog_poll_ms : ℕ
watchdog_poll_ms = 1000

abbrev pub watchdog_min_poll_ms : ℕ
watchdog_min_poll_ms = 10

abbrev pub watchdog_stall_ms : ℕ
watchdog_stall_ms = 20

abbrev pub watchdog_retry_min_ms : ℕ
watchdog_retry_min_ms = 500

abbrev pub watchdog_retry_max_ms : ℕ
watchdog_retry_max_ms = 30000

-- `jockey3_start_grace_ms`, of a module parameter that is not negative.
abbrev pub start_grace_ms : ℕ → ℕ
start_grace_ms ms = clamp ms 50 5000

-- From which time the deadline is counted, and how many milliseconds from there.
unfoldable pub deadline_base : ℕ → ℕ → UrbStream → ℕ × ℕ
deadline_base now grace_ms s =
    if ltb (sub64 now s.urbs_started_time) (grace_ms * nsec_per_msec)
    then (s.urbs_started_time, grace_ms)
    else (
      if s.last_callback_time == 0 then s.urbs_started_time else s.last_callback_time,
      watchdog_stall_ms,
    )

unfoldable pub watchdog_next_delay_ms : ℕ → ℕ → UrbStream → ℕ
watchdog_next_delay_ms now grace_ms s =
    let (last, threshold_ms) = deadline_base now grace_ms s in
    let remaining_ns = sub64 (last + threshold_ms * nsec_per_msec) now in
    if s.urbs_started_time == 0
    then watchdog_poll_ms
    else if not_positive remaining_ns
    then (if ltb now s.retry_at
        then clamp (sub64 s.retry_at now / nsec_per_msec) watchdog_min_poll_ms watchdog_poll_ms
        else watchdog_min_poll_ms)
    else clamp (remaining_ns / nsec_per_msec) watchdog_min_poll_ms watchdog_poll_ms

-- The delay of `jockey3_watchdog_arm`.
unfoldable pub watchdog_arm : ℕ → ℕ → Chip → ℕ
watchdog_arm now grace_ms c =
    let capture_open = has_substream c.capture in
    let delay_ms =
      if capture_open || has_substream c.playback
      then watchdog_next_delay_ms now grace_ms c.playback
      else watchdog_poll_ms in
    if capture_open then min delay_ms (watchdog_next_delay_ms now grace_ms c.capture) else delay_ms

unfoldable pub watchdog_back_off : ℕ → UrbStream → UrbStream
watchdog_back_off now s = record s {
  retry_at = u64 (now + s.retry_backoff_ms * nsec_per_msec);
  retry_backoff_ms = min (u32 (s.retry_backoff_ms * 2)) watchdog_retry_max_ms;
}

watchdog_next_delay_ms-bounds :
    (now grace_ms : ℕ) (s : UrbStream)
    → (watchdog_min_poll_ms ≤ watchdog_next_delay_ms now grace_ms s)
      × (watchdog_next_delay_ms now grace_ms s ≤ watchdog_poll_ms)
unfolding watchdog_next_delay_ms
watchdog_next_delay_ms-bounds now grace_ms s = ground arith

-- The watchdog's next run is at least 10 and at most 1000 milliseconds away, whatever the clocks
-- of the two directions hold, and exactly 1000 where no direction is open.
watchdog_arm-bounds :
    (now grace_ms : ℕ) (c : Chip)
    → (watchdog_min_poll_ms ≤ watchdog_arm now grace_ms c)
      × (watchdog_arm now grace_ms c ≤ watchdog_poll_ms)
      × (has_substream c.playback ≡ false
          → has_substream c.capture ≡ false
          → watchdog_arm now grace_ms c ≡ watchdog_poll_ms)
unfolding watchdog_arm
watchdog_arm-bounds now grace_ms c =
    let p = watchdog_next_delay_ms-bounds now grace_ms c.playback in
    let q = watchdog_next_delay_ms-bounds now grace_ms c.capture in
    (ground (arith, p, q), ground (arith, p, q), λ a b. ground (arith, a, b))

-- An established stream that last completed a URB at most 20 ms ago is looked at no later than
-- its stall deadline, 20 ms after that completion, or after the shortest poll of 10 ms.
watchdog_next_delay_ms-deadline :
    (now grace_ms : ℕ) (s : UrbStream)
    → 0 < s.urbs_started_time
    → s.urbs_started_time + grace_ms * nsec_per_msec ≤ now
    → 0 < s.last_callback_time
    → s.last_callback_time ≤ now
    → now < s.last_callback_time + watchdog_stall_ms * nsec_per_msec
    → now < 2 ^ 63
    → watchdog_next_delay_ms now grace_ms s * nsec_per_msec + now
        ≤ s.last_callback_time + watchdog_stall_ms * nsec_per_msec
      ⊎ watchdog_next_delay_ms now grace_ms s ≡ watchdog_min_poll_ms
unfolding watchdog_next_delay_ms deadline_base
watchdog_next_delay_ms-deadline now grace_ms s a b c d e f =
    let left = s.last_callback_time + watchdog_stall_ms * nsec_per_msec - now in
    let late : ltb (sub64 now s.urbs_started_time) (grace_ms * nsec_per_msec) ≡ false =
      ground arith in
    let seen : (s.last_callback_time == 0) ≡ false = ground arith in
    let started : (s.urbs_started_time == 0) ≡ false = ground arith in
    let remaining : sub64 (s.last_callback_time + watchdog_stall_ms * nsec_per_msec) now ≡ left =
      omega arith in
    let positive : not_positive left ≡ false = ground arith in
    rw (late, seen, started, remaining, positive) (ground arith)

-- `n` backoffs, at these times.
unfoldable pub back_offs : ℕ → (ℕ → ℕ) → UrbStream → UrbStream
back_offs zero times s = s
back_offs (suc n) times s = watchdog_back_off (times n) (back_offs n times s)

back_offs_lem :
    (n : ℕ) (times : ℕ → ℕ) (s : UrbStream)
    → s.retry_backoff_ms ≡ watchdog_retry_min_ms
    → (back_offs n times s).retry_backoff_ms
      ≡ min (watchdog_retry_min_ms * 2 ^ n) watchdog_retry_max_ms
unfolding back_offs watchdog_back_off
back_offs_lem zero times s e = omega (arith, e)
back_offs_lem (suc n) times s e = omega (arith, back_offs_lem n times s e)

-- From the initial 500 ms the hold doubles with each ladder the watchdog starts, up to 30 seconds:
-- the n-th backoff holds the next ladder off for min(500 * 2^n, 30000) ms from its time, which
-- is taken to leave room in 64 bits.
watchdog_back_off-doubles :
    (n now : ℕ) (times : ℕ → ℕ) (s : UrbStream)
    → s.retry_backoff_ms ≡ watchdog_retry_min_ms
    → now + watchdog_retry_max_ms * nsec_per_msec < 2 ^ 64
    → let held = back_offs n times s in
      (held.retry_backoff_ms ≡ min (watchdog_retry_min_ms * 2 ^ n) watchdog_retry_max_ms)
      × ((watchdog_back_off now held).retry_at
          ≡ now + min (watchdog_retry_min_ms * 2 ^ n) watchdog_retry_max_ms * nsec_per_msec)
unfolding watchdog_back_off
watchdog_back_off-doubles n now times s e h =
    let held = back_offs_lem n times s e in (held, omega (arith, held))
