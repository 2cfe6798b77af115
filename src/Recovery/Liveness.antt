-- ===== src/Recovery/Liveness.antt =====
-- Whether a stream is alive (jockey3.c): `jockey3_check_urb_stream_alive`,
-- `jockey3_min_urb_interval_ns` and `jockey3_stream_streaming_healthy`.
use alsa_jockey.Prelude.{
  ℕ, ◌-◌, ◌*◌, ◌/◌, ◌^◌, Bool, false, ltb, leb, ◌==◌, ◌||◌, ◌&&◌, not, if◌then◌else◌, u64,
}
use alsa_jockey.Stream.State.{
  UrbStream, Direction, playback_direction, capture_direction, nsec_per_msec,
}
use alsa_jockey.Recovery.Clock.{sub64}

abbrev pub healthy_min_completions : ℕ
healthy_min_completions = 4

abbrev pub nsec_per_sec : ℕ
nsec_per_sec = 1000000000

-- `JOCKEY3_LIVENESS_WINDOW_NS(shift)`.
abbrev pub liveness_window_ns : ℕ → ℕ
liveness_window_ns shift = u64 (nsec_per_msec * 2 ^ shift)

abbrev pub frames_per_packet : Direction → ℕ
frames_per_packet playback_direction = 10
frames_per_packet capture_direction = 8

unfoldable pub check_urb_stream_alive : ℕ → UrbStream → Bool
check_urb_stream_alive now s =
    not (s.last_callback_time == 0)
    && leb (sub64 now s.last_callback_time) (liveness_window_ns s.n_shift)

unfoldable pub min_urb_interval_ns : UrbStream → ℕ → Direction → ℕ
min_urb_interval_ns s rate d =
    if (rate == 0) || (s.n_pkts == 0)
    then 0
    else u64 (s.n_pkts * frames_per_packet d * nsec_per_sec) / rate

-- `n` is an int: from 2^31 on it is negative.
unfoldable pub stream_streaming_healthy : ℕ → ℕ → Direction → UrbStream → Bool
stream_streaming_healthy now rate d s =
    let first = s.first_callback_time in
    let last = s.last_callback_time in
    let n = s.completions_since_start in
    let min_interval = min_urb_interval_ns s rate d in
    let span = sub64 last first in
    let floor = u64 ((n - 1) * (min_interval / 2)) in
    if leb (2 ^ 31) n || ltb n healthy_min_completions || (first == 0) || leb last first
    then false
    else if min_interval == 0
    then false
    else if ltb span floor
    then false
    else not (ltb (liveness_window_ns s.n_shift) (sub64 now last))
