-- ===== src/Midi/Ports.antt =====
-- The rawmidi port callbacks: open, close and trigger (jockey3.c). A substream is named by a number.
use alsa_jockey.Prelude.{
  ℕ, ◌≡◌, ◌≢◌, refl, Bool, true, false, not, arith, ◌==◌, if◌then◌else◌, Option, none, some,
}
use alsa_jockey.Midi.RunningStatus.{RunningStatus, fresh}

-- The MIDI fields of `struct jockey3_chip`, all under midi_lock, and the disconnect flag.
pub record Ports : Type 0 where
  pub disconnected : Bool
  pub midi_in_substream : Option ℕ
  pub midi_out_substream : Option ℕ
  pub midi_state : RunningStatus
  pub midi_stopping : Bool
  pub midi_consec_errors : ℕ

-- -ENODEV is `false`.
unfoldable pub midi_in_open : Ports → Bool
midi_in_open p = not p.disconnected

abbrev pub is_open_as : Option ℕ → ℕ → Bool
is_open_as none sub = false
is_open_as (some s) sub = s == sub

-- `if (*slot == substream) *slot = NULL`.
abbrev pub detach : Option ℕ → ℕ → Option ℕ
detach slot sub = if is_open_as slot sub then none else slot

unfoldable pub midi_in_close : Ports → ℕ → Ports
midi_in_close p sub = record p { midi_in_substream = detach p.midi_in_substream sub }

unfoldable pub midi_in_trigger : Ports → ℕ → Bool → Ports
midi_in_trigger p sub up = record p { midi_in_substream = if up then some sub else none }

unfoldable pub midi_out_open : Ports → Ports × Bool
midi_out_open p = if p.disconnected then (p, false) else (record p { midi_state = fresh }, true)

unfoldable pub midi_out_close : Ports → ℕ → Ports
midi_out_close p sub = record p { midi_out_substream = detach p.midi_out_substream sub }

unfoldable pub midi_out_trigger : Ports → ℕ → Bool → Ports
midi_out_trigger p sub up = record p { midi_out_substream = if up then some sub else none }

-- A substream that is closed is no longer the one that the URB handlers serve, in either direction;
-- and closing one leaves another that has taken its place.
close-detaches :
    (p : Ports) (sub other : ℕ)
    → (is_open_as (midi_out_close p sub).midi_out_substream sub ≡ false)
      × (is_open_as (midi_in_close p sub).midi_in_substream sub ≡ false)
      × (other ≢ sub
          → (is_open_as (midi_out_close p sub).midi_out_substream other
              ≡ is_open_as p.midi_out_substream other)
            × (is_open_as (midi_in_close p sub).midi_in_substream other
                ≡ is_open_as p.midi_in_substream other))
unfolding midi_out_close midi_in_close
close-detaches p sub other = (
  detached p.midi_out_substream,
  detached p.midi_in_substream,
  λ h. (kept p.midi_out_substream h, kept p.midi_in_substream h),
)
  where
    detached : (o : Option ℕ) → is_open_as (detach o sub) sub ≡ false
    detached none = refl
    detached (some x) = ground arith

    kept : (o : Option ℕ) → other ≢ sub → is_open_as (detach o sub) other ≡ is_open_as o other
    kept none h = refl
    kept (some x) h = ground (arith, h)
