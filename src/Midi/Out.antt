-- ===== src/Midi/Out.antt =====
-- The MIDI slot of each playback packet: `jockey3_get_next_midi_out_byte` and
-- `jockey3_set_current_rate` (jockey3.c).
pub mod Order
pub mod Rate
use alsa_jockey.Prelude.{
  ℕ, zero, suc, ◌+◌, ◌-◌, ◌*◌, ◌/◌, ◌%◌, ◌^◌, ◌≤◌, ◌<◌, ◌≡◌, ◌≢◌, refl, Bool, true, false, arith,
  ltb, u32, ◌==◌, if◌then◌else◌, List, [], ◌∷◌, ◌++◌, Option, none, some, ap, sym, ◌∙◌,
  append_assoc,
}
use alsa_jockey.Codec.Batch.{playback_frames}
use alsa_jockey.Midi.RunningStatus.{RunningStatus, expand, take_queued, feed, expand_all}

abbrev pub midi_idle_byte : ℕ
midi_idle_byte = 0xfd

-- The fields of `struct jockey3_chip` that the limiter uses. `Src` is what the ALSA core holds of
-- an open rawmidi substream.
pub record MidiOut (Src : Type 0) : Type 0 where
  pub current_rate : ℕ
  pub midi_out_acc : ℕ
  pub midi_rate_divisor : ℕ
  pub midi_state : RunningStatus
  pub midi_out_substream : Option Src

module _ {Src : Type 0} where
  unfoldable pub set_current_rate : MidiOut Src → ℕ → MidiOut Src
  set_current_rate m rate = record m {
    current_rate = rate;
    midi_rate_divisor = rate / playback_frames;
    midi_out_acc = 0;
  }

  -- What set_current_rate leaves for the supported rates, and every packet keeps.
  pub record IsLimited (m : MidiOut Src) : Type 0 where
    pub slow_enough : 2500 ≤ m.midi_rate_divisor
    pub fits : m.midi_rate_divisor < 2 ^ 31
    pub below : m.midi_out_acc < m.midi_rate_divisor

  pub set_current_rate-IsLimited :
      (m : MidiOut Src) (rate : ℕ)
      → 25000 ≤ rate
      → rate < 2 ^ 31
      → IsLimited (set_current_rate m rate)
  unfolding set_current_rate
  set_current_rate-IsLimited m rate lo hi = omega arith

-- `transmit` stands for `snd_rawmidi_transmit(substream, &b, 1)`: the byte, if it returns 1, and
-- what is left.
module _ {Src : Type 0} (transmit : Src → Option (ℕ × Src)) where
  -- The part behind the rate limit: a queued byte first, then the substream's next.
  unfoldable pub next_paid_byte : MidiOut Src → MidiOut Src × ℕ
  next_paid_byte m =
      if m.midi_state.has_queued_byte
      then (
        record m { midi_state = record (m.midi_state) { has_queued_byte = false } },
        m.midi_state.queued_byte,
      )
      else elim m.midi_out_substream [
        | none ↦ (m, midi_idle_byte)
        | some src ↦ elim (transmit src) [
          | none ↦ (m, midi_idle_byte)
          | some (b, src') ↦ (
            record m { midi_state = (expand m.midi_state b).0; midi_out_substream = some src' },
            (expand m.midi_state b).1,
          )
        ]
      ]

  unfoldable pub get_next_midi_out_byte : MidiOut Src → MidiOut Src × ℕ
  get_next_midi_out_byte m =
      let acc = u32 (m.midi_out_acc + 2500) in
      if ltb acc m.midi_rate_divisor
      then (record m { midi_out_acc = acc }, midi_idle_byte)
      else next_paid_byte (record m { midi_out_acc = acc - m.midi_rate_divisor })

  -- The slots of `n` packets in a row.
  unfoldable pub slots : ℕ → MidiOut Src → MidiOut Src × List ℕ
  slots zero m = (m, [])
  slots (suc n) m =
      let (m1, b) = get_next_midi_out_byte m in let (m2, bs) = slots n m1 in (m2, b ∷ bs)
