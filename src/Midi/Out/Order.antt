-- ===== src/Midi/Out/Order.antt =====
-- What leaves through the MIDI slots is the expanded source, in order and without loss.
use alsa_jockey.Prelude.{
  ℕ, zero, suc, ◌+◌, ◌-◌, ◌≡◌, ◌≢◌, refl, true, false, arith, ltb, u32, ◌==◌, if◌then◌else◌, List,
  [], ◌∷◌, ◌++◌, Option, none, some, sym, ◌∙◌, append_assoc, Bool-cases, Option-cases, inl, inr,
}
use alsa_jockey.Midi.RunningStatus.{take_queued, feed, expand_all}
use alsa_jockey.Midi.Out.{MidiOut, midi_idle_byte, next_paid_byte, get_next_midi_out_byte, slots}

-- A byte that is told from the idle byte.
abbrev pub NotIdle : ℕ → Type 0
NotIdle b = b ≢ midi_idle_byte

abbrev pub NoneIdle : List ℕ → Type 0
NoneIdle [] = Unit {0}
NoneIdle (b ∷ bs) = NotIdle b × NoneIdle bs

-- The slots' bytes without the idle ones: what the device takes for MIDI.
abbrev pub sent_bytes : List ℕ → List ℕ
sent_bytes [] = []
sent_bytes (b ∷ bs) = let rest = sent_bytes bs in if b == midi_idle_byte then rest else b ∷ rest

sent_one : (b : ℕ) → NotIdle b → sent_bytes (b ∷ []) ≡ b ∷ []
sent_one b h = ground arith

-- What the ALSA core documents of `snd_rawmidi_transmit`: the bytes written to the substream come
-- out in order, and the call fails only when there is none.
pub record IsFifo {Src : Type 0} (transmit : Src → Option (ℕ × Src)) (pending : Src → List ℕ)
    : Type 0 where
  pub empty : (src : Src) → transmit src ≡ none → pending src ≡ []
  pub first :
      (src : Src) (b : ℕ) (src' : Src)
      → transmit src ≡ some (b, src')
      → pending src ≡ b ∷ pending src'

module _ {Src : Type 0} (transmit : Src → Option (ℕ × Src)) (pending : Src → List ℕ)
    (fifo : IsFifo transmit pending) where
  -- What is still to be sent: a queued byte, then the expansion of the substream's bytes.
  abbrev pub source_bytes : Option Src → List ℕ
  source_bytes none = []
  source_bytes (some src) = pending src

  unfoldable pub outstanding : MidiOut Src → List ℕ
  outstanding m =
      (take_queued m.midi_state).1
      ++ expand_all (take_queued m.midi_state).0 (source_bytes m.midi_out_substream)

  outstanding_queued :
      (m : MidiOut Src)
      → m.midi_state.has_queued_byte ≡ true
      → NoneIdle (outstanding m)
      → outstanding m
        ≡ sent_bytes ((next_paid_byte transmit m).1 ∷ [])
          ++ outstanding (next_paid_byte transmit m).0
  unfolding outstanding next_paid_byte take_queued
  outstanding_queued m e h = let h' = simp e at h in simp (e, sent_one _ h'.0)

  outstanding_closed :
      (m : MidiOut Src)
      → m.midi_state.has_queued_byte ≡ false
      → m.midi_out_substream ≡ none
      → outstanding m
        ≡ sent_bytes ((next_paid_byte transmit m).1 ∷ [])
          ++ outstanding (next_paid_byte transmit m).0
  unfolding outstanding next_paid_byte take_queued
  outstanding_closed m e n = simp (e, n)

  outstanding_drained :
      (m : MidiOut Src) (src : Src)
      → m.midi_state.has_queued_byte ≡ false
      → m.midi_out_substream ≡ some src
      → transmit src ≡ none
      → outstanding m
        ≡ sent_bytes ((next_paid_byte transmit m).1 ∷ [])
          ++ outstanding (next_paid_byte transmit m).0
  unfolding outstanding next_paid_byte take_queued
  outstanding_drained m src e n t = simp (e, n, t)

  outstanding_fed :
      (m : MidiOut Src) (src : Src) (b : ℕ) (src' : Src)
      → m.midi_state.has_queued_byte ≡ false
      → m.midi_out_substream ≡ some src
      → transmit src ≡ some (b, src')
      → NoneIdle (outstanding m)
      → outstanding m
        ≡ sent_bytes ((next_paid_byte transmit m).1 ∷ [])
          ++ outstanding (next_paid_byte transmit m).0
  unfolding outstanding next_paid_byte take_queued expand_all feed
  outstanding_fed m src b src' e n t h =
      let h' = simp (e, n, fifo.first src b src' t) at h in
      simp (e, n, t, fifo.first src b src' t, sent_one _ h'.0)

  paid_byte-outstanding :
      (m : MidiOut Src)
      → NoneIdle (outstanding m)
      → outstanding m
        ≡ sent_bytes ((next_paid_byte transmit m).1 ∷ [])
          ++ outstanding (next_paid_byte transmit m).0
  paid_byte-outstanding m h = elim (Bool-cases m.midi_state.has_queued_byte) [
    | inl e ↦ outstanding_queued m e h
    | inr e ↦ elim (Option-cases m.midi_out_substream) [
      | inl n ↦ outstanding_closed m e n
      | inr (src, n) ↦ elim (Option-cases (transmit src)) [
        | inl t ↦ outstanding_drained m src e n t
        | inr ((b, src'), t) ↦ outstanding_fed m src b src' e n t h
      ]
    ]
  ]

  -- The limiter's counter does not show.
  outstanding_acc :
      (m : MidiOut Src) (acc : ℕ) → outstanding (record m { midi_out_acc = acc }) ≡ outstanding m
  unfolding outstanding
  outstanding_acc m acc = refl

  slot-outstanding :
      (m : MidiOut Src)
      → NoneIdle (outstanding m)
      → outstanding m
        ≡ sent_bytes ((get_next_midi_out_byte transmit m).1 ∷ [])
          ++ outstanding (get_next_midi_out_byte transmit m).0
  unfolding get_next_midi_out_byte
  slot-outstanding m h = elim (Bool-cases (ltb (u32 (m.midi_out_acc + 2500)) m.midi_rate_divisor)) [
    | inl e ↦ simp e (sym (outstanding_acc m _))
    | inr e ↦
        let paid = record m { midi_out_acc = u32 (m.midi_out_acc + 2500) - m.midi_rate_divisor } in
        simp e (sym (outstanding_acc m _) ∙ paid_byte-outstanding paid (rw (outstanding_acc m) h))
  ]

  NoneIdle-append : (xs ys : List ℕ) → NoneIdle (xs ++ ys) → NoneIdle ys
  NoneIdle-append [] ys h = h
  NoneIdle-append (x ∷ xs) ys h = NoneIdle-append xs ys h.1

  sent_bytes-cons :
      (b : ℕ) (bs : List ℕ) → sent_bytes (b ∷ bs) ≡ sent_bytes (b ∷ []) ++ sent_bytes bs
  sent_bytes-cons b bs = ground arith

  -- If no outstanding byte is spelled like the idle byte, then what `n` packets carry, without the
  -- idle bytes, followed by what is outstanding after them, is what was outstanding before: the
  -- expanded source leaves in order, with nothing lost or doubled.
  pub slots-outstanding :
      (n : ℕ) (m : MidiOut Src)
      → NoneIdle (outstanding m)
      → sent_bytes (slots transmit n m).1 ++ outstanding (slots transmit n m).0 ≡ outstanding m
  unfolding slots
  slots-outstanding zero m h = refl
  slots-outstanding (suc n) m h =
      let (m1, b) = get_next_midi_out_byte transmit m in
      let step = slot-outstanding m h in
      let left = NoneIdle-append (sent_bytes (b ∷ [])) (outstanding m1) (rw step at h) in
      rw (
        sent_bytes-cons b (slots transmit n m1).1,
        append_assoc,
        slots-outstanding n m1 left,
        ← step,
      )
