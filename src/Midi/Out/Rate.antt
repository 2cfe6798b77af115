-- ===== src/Midi/Out/Rate.antt =====
-- The leaky bucket of `jockey3_get_next_midi_out_byte`: how many bytes may pass.
use alsa_jockey.Prelude.{
  ℕ, zero, suc, ◌+◌, ◌-◌, ◌*◌, ◌/◌, ◌^◌, ◌≤◌, ◌<◌, ◌≡◌, refl, arith, u32, ◌==◌, if◌then◌else◌, List,
  [], ◌∷◌, Option, ◌∙◌, Bool-cases, inl, inr,
}
use alsa_jockey.Midi.Out.{
  MidiOut, IsLimited, midi_idle_byte, next_paid_byte, get_next_midi_out_byte, slots,
  set_current_rate, set_current_rate-IsLimited,
}

abbrev pub count_sent : List ℕ → ℕ
count_sent [] = 0
count_sent (b ∷ bs) = let rest = count_sent bs in if b == midi_idle_byte then rest else suc rest

module _ {Src : Type 0} (transmit : Src → Option (ℕ × Src)) where
  next_paid_byte-kept :
      (m : MidiOut Src)
      → ((next_paid_byte transmit m).0.midi_out_acc ≡ m.midi_out_acc)
        × ((next_paid_byte transmit m).0.midi_rate_divisor ≡ m.midi_rate_divisor)
  unfolding next_paid_byte
  next_paid_byte-kept m = ground arith

  -- The credit that a slot leaves, with what its byte cost, is at most 2500 more than before.
  abbrev slot_cost : ℕ → ℕ → ℕ
  slot_cost divisor b = if b == midi_idle_byte then 0 else divisor

  get_next-credit :
      (m : MidiOut Src)
      → IsLimited m
      → let (m', b) = get_next_midi_out_byte transmit m in
        IsLimited m'
        × (m'.midi_rate_divisor ≡ m.midi_rate_divisor)
        × (slot_cost m.midi_rate_divisor b + m'.midi_out_acc ≤ m.midi_out_acc + 2500)
  unfolding get_next_midi_out_byte
  get_next-credit m h = ground (
    arith,
    next_paid_byte-kept
        (record m { midi_out_acc = u32 (m.midi_out_acc + 2500) - m.midi_rate_divisor }),
  )

  credit_step :
      (b c n divisor acc acc1 acc2 : ℕ)
      → slot_cost divisor b + acc1 ≤ acc + 2500
      → c * divisor + acc2 ≤ acc1 + 2500 * n
      → (if b == midi_idle_byte then c else suc c) * divisor + acc2 ≤ acc + 2500 * suc n
  credit_step b c n divisor acc acc1 acc2 h k = elim (Bool-cases (b == midi_idle_byte)) [
    | inl e ↦ rw e (let h' = rw e at h in omega arith)
    | inr e ↦ rw e (let h' = rw e at h in omega arith)
  ]

  slots-credit :
      (n : ℕ) (m : MidiOut Src) (divisor : ℕ)
      → m.midi_rate_divisor ≡ divisor
      → IsLimited m
      → count_sent (slots transmit n m).1 * divisor + (slots transmit n m).0.midi_out_acc
        ≤ m.midi_out_acc + 2500 * n
  unfolding slots
  slots-credit zero m divisor e h = omega arith
  slots-credit (suc n) m divisor e h =
      let (m1, b) = get_next_midi_out_byte transmit m in
      let (limited, kept, cost) = get_next-credit m h in
      credit_step b (count_sent (slots transmit n m1).1) n divisor m.midi_out_acc m1.midi_out_acc
        (slots transmit n m1).0.midi_out_acc (rw (← e) cost)
        (slots-credit n m1 divisor (kept ∙ e) limited)

  -- At every supported rate (25000 Hz and up), the `seconds * (rate / 10)` packets that follow a
  -- rate change carry at most 2500 MIDI bytes a second, whatever the substream supplies.
  pub set_current_rate-slots_bounded :
      (m : MidiOut Src) (rate seconds : ℕ)
      → 25000 ≤ rate
      → rate < 2 ^ 31
      → count_sent (slots transmit (seconds * (rate / 10)) (set_current_rate m rate)).1
        ≤ 2500 * seconds
  set_current_rate-slots_bounded m rate seconds lo hi =
      let started = set_current_rate m rate in
      let sent = count_sent (slots transmit (seconds * (rate / 10)) started).1 in
      let total =
        slots-credit (seconds * (rate / 10)) started (rate / 10) (unfold set_current_rate in refl)
          (set_current_rate-IsLimited m rate lo hi) in
      cancel sent (2500 * seconds) (rate / 10) (omega arith) (start-le total)
    where
      cancel : (a b d : ℕ) → 0 < d → a * d ≤ b * d → a ≤ b
      cancel a b d pos h = grind arith

      start-le :
          count_sent (slots transmit (seconds * (rate / 10)) (set_current_rate m rate)).1
                * (rate / 10)
              + (slots transmit (seconds * (rate / 10)) (set_current_rate m rate)).0.midi_out_acc
            ≤ (set_current_rate m rate).midi_out_acc + 2500 * (seconds * (rate / 10))
          → count_sent (slots transmit (seconds * (rate / 10)) (set_current_rate m rate)).1
              * (rate / 10)
            ≤ 2500 * seconds * (rate / 10)
      start-le h = unfold set_current_rate in omega arith
