-- ===== src/Stream/Hardware.antt =====
-- What the driver tells the ALSA core of its streams (jockey3.c): `jockey3_pcm_hw_playback`,
-- `jockey3_pcm_hw_capture` and `jockey3_pcm_pointer`.
pub mod Fits
pub mod Pointer
use alsa_jockey.Prelude.{ℕ, Bool, true, false, ◌==◌, ◌||◌, ◌*◌, ◌≤◌, ◌≡◌, List, [], ◌∷◌}
use alsa_jockey.Codec.Batch.{playback_frames, capture_frames}
use alsa_jockey.Stream.State.{
  UrbStream, Runtime, Direction, playback_direction, capture_direction, Chip, get_pcm_urb_stream,
}

-- `struct snd_pcm_hardware`, as far as it bounds sizes.
pub record Hardware : Type 0 where
  pub rates : List ℕ
  pub channels_min : ℕ
  pub channels_max : ℕ
  pub buffer_bytes_max : ℕ
  pub period_bytes_min : ℕ
  pub period_bytes_max : ℕ
  pub periods_min : ℕ
  pub periods_max : ℕ

-- JOCKEY3_PCM_RATES.
abbrev pub pcm_rates : List ℕ
pcm_rates = 44100 ∷ 48000 ∷ 88200 ∷ 96000 ∷ []

unfoldable pub pcm_hw : Direction → Hardware
pcm_hw playback_direction = record {
  rates = pcm_rates;
  channels_min = 4;
  channels_max = 4;
  buffer_bytes_max = 1024 * 1024;
  period_bytes_min = playback_frames * 4 * 3;
  period_bytes_max = 512 * 1024;
  periods_min = 2;
  periods_max = 1024;
}
pcm_hw capture_direction = record {
  rates = pcm_rates;
  channels_min = 6;
  channels_max = 6;
  buffer_bytes_max = 1024 * 1024;
  period_bytes_min = capture_frames * 6 * 3;
  period_bytes_max = 512 * 1024;
  periods_min = 2;
  periods_max = 1024;
}

-- What an application asks for; a frame has 3 bytes for each channel.
pub record Params : Type 0 where
  pub rate : ℕ
  pub channels : ℕ
  pub period_size : ℕ
  pub periods : ℕ

abbrev pub period_bytes : Params → ℕ
period_bytes p = p.period_size * (p.channels * 3)

-- One of a list of rates.
abbrev pub has_rate : ℕ → List ℕ → Bool
has_rate rate [] = false
has_rate rate (r ∷ rs) = rate == r || has_rate rate rs

-- The ALSA core lets only such parameters through to hw_params; that a buffer is a whole number of
-- periods is the constraint that .open adds.
pub record IsAllowed (hw : Hardware) (p : Params) : Type 0 where
  pub rate_listed : has_rate p.rate hw.rates ≡ true
  pub channels_low : hw.channels_min ≤ p.channels
  pub channels_high : p.channels ≤ hw.channels_max
  pub period_low : hw.period_bytes_min ≤ period_bytes p
  pub period_high : period_bytes p ≤ hw.period_bytes_max
  pub periods_low : hw.periods_min ≤ p.periods
  pub periods_high : p.periods ≤ hw.periods_max
  pub buffer_high : p.periods * period_bytes p ≤ hw.buffer_bytes_max

-- The runtime of a substream with such parameters.
pub record IsRuntimeOf (p : Params) (r : Runtime) : Type 0 where
  pub as_wide : r.channels ≡ p.channels
  pub one_period : r.period_size ≡ p.period_size
  pub whole_buffer : r.buffer_bytes ≡ p.periods * period_bytes p

-- `bytes_to_frames` is the ALSA core's.
module _ (bytes_to_frames : Runtime → ℕ → ℕ) where
  unfoldable pub pcm_pointer : Direction → Runtime → Chip → ℕ
  pcm_pointer d r c = bytes_to_frames r (get_pcm_urb_stream c d).dma_off
