-- ===== src/Stream/State.antt =====
-- The per-direction streaming state and the chip (`struct jockey3_pcm_urb_stream` and
-- `struct jockey3_chip` of jockey3.c), as far as the modules of this library read or write them.
use alsa_jockey.Prelude.{ℕ, Bool, true, false, Option, none, some}
use alsa_jockey.Errno.{Errno}
use alsa_jockey.Codec.Memory.{Buffer}

-- What the driver reads of `struct snd_pcm_runtime`. `dma_area` is the buffer that ALSA shares
-- with the application; sizes are `buffer_bytes` in bytes and `period_size` in frames.
pub record Runtime : Type 0 where
  pub dma_area : Option Buffer
  pub buffer_bytes : ℕ
  pub channels : ℕ
  pub period_size : ℕ

-- An open substream; `runtime` may be absent.
pub record Substream : Type 0 where
  pub runtime : Option Runtime

-- Times are `ktime` in nanoseconds.
pub record UrbStream : Type 0 where
  pub substream : Option Substream
  pub urbs_in_flight : ℕ
  pub last_callback_time : ℕ
  pub first_callback_time : ℕ
  pub completions_since_start : ℕ
  pub urbs_started_time : ℕ
  pub dma_off : ℕ
  pub period_off : ℕ
  pub running : Bool
  pub rate_committed : Bool
  pub callbacks_active : ℕ
  pub stopping : Bool
  pub consec_errors : ℕ
  pub stall_reported : Bool
  pub stall_since : ℕ
  pub retry_at : ℕ
  pub retry_backoff_ms : ℕ
  pub steady_since : ℕ
  pub n_shift : ℕ
  pub n_pkts : ℕ

pub data Direction : Type 0 where
  playback_direction capture_direction : Direction

pub record Chip : Type 0 where
  pub playback : UrbStream
  pub capture : UrbStream
  pub disconnected : Bool
  pub resetting : Bool
  pub suspended : Bool
  pub current_rate : ℕ
  pub recovery_attempts : ℕ
  pub recovery_window_start : ℕ
  pub recovery_in_progress : Bool
  pub warm_start : Bool
  pub reset_rc : Option Errno
  pub reset_done : Bool
  pub midi_stopping : Bool
  pub midi_consec_errors : ℕ

-- `jockey3_get_pcm_urb_stream`, and the write through the pointer that it returns.
abbrev pub get_pcm_urb_stream : Chip → Direction → UrbStream
get_pcm_urb_stream c playback_direction = c.playback
get_pcm_urb_stream c capture_direction = c.capture

abbrev pub set_pcm_urb_stream : Chip → Direction → UrbStream → Chip
set_pcm_urb_stream c playback_direction s = record c { playback = s }
set_pcm_urb_stream c capture_direction s = record c { capture = s }

abbrev pub has_substream : UrbStream → Bool
has_substream s = elim (s.substream) [ none ↦ false | some _ ↦ true ]

abbrev pub nsec_per_msec : ℕ
nsec_per_msec = 1000000

abbrev pub max_urb_errors : ℕ
max_urb_errors = 8

abbrev pub pkt_size : ℕ
pkt_size = 512
