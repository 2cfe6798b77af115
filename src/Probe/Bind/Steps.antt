-- ===== src/Probe/Bind/Steps.antt =====
-- What each step of `jockey3_probe` (jockey3.c) leaves to the next one, and to its unwinding.
use alsa_jockey.Prelude.{
  ℕ, ◌+◌, ◌≡◌, ap, sym, subst, ◌∙◌, arith, Bool, true, Option, none, some, List, length,
}
use alsa_jockey.Errno.{Errno}
use alsa_jockey.Stream.State.{Direction, playback_direction, capture_direction, Chip}
use alsa_jockey.Midi.RunningStatus
use alsa_jockey.Probe.Calls.{
  Resource, block, urb, device, interface_0, interface_1, card, is_it, taken, given,
}
use alsa_jockey.Probe.State.{Slot, Parts, Binding, Kernel}
use alsa_jockey.Probe.Parts.{
  alloc_block, alloc_urb, init_slots, init_xfer_buf, init_midi_in, init_midi_urb, init_urbs,
}
use alsa_jockey.Probe.Parts.Owned.{owned, owned_parts, owned_rings}
use alsa_jockey.Probe.Parts.Alloc.{Kept, kept, if_null_cases, alloc_block-Takes, alloc_urb-Takes}
use alsa_jockey.Probe.Parts.Taken.{
  IsEmpty, IsFilled, All, slots_of, other, owned-none, init_slots-IsBuilt,
}
use alsa_jockey.Probe.Bind.Triples.{Ends}

-- The references on the device and the interfaces, and the card.
abbrev pub held : Resource → ℕ
held r = is_it r device + is_it r interface_0 + is_it r interface_1 + is_it r card

-- A chip that is being built, in card slot `i`: what was taken and not given back is what its pointers
-- own, and what the card holds.
abbrev pub Owns : {Env Src : Type 0} → ℕ → (ℕ → Bool) → Binding Env Src → Type 0
Owns i used st =
    ((r : Resource) → taken r st.calls ≡ held r + owned_parts r st.parts + given r st.calls)
    × (st.dev_idx ≡ i)
    × (st.used ≡ used)
    × (st.card.private_free ≡ true)

-- The midi pointers, and one direction's slots, as a new card has them; the slots filled.
abbrev pub NoMidi : Parts → Type 0
NoMidi p = (p.midi_in_buf ≡ none) × (p.midi_in_urb ≡ none)

abbrev pub Empty : Direction → Parts → Type 0
Empty d p = All IsEmpty (slots_of d p.rings)

abbrev pub Filled : Direction → Parts → Type 0
Filled d p = All (IsFilled d) (slots_of d p.rings)

-- Ahead of an allocation: a chip that has not run, with 8 slots.
abbrev pub Plain : {Env Src : Type 0} → ℕ → (ℕ → Bool) → Chip → Binding Env Src → Type 0
Plain i used chip st = Owns i used st × (st.world.chip ≡ chip) × (length st.parts.rings ≡ 8)

module _ {Env Src : Type 0} (i : ℕ) (used : ℕ → Bool) where
  -- A step that keeps the rest owns what it took in the pointers that it leaves.
  Owns-next :
      (st st1 : Binding Env Src) (parts : Parts)
      → Owns i used st
      → kept st1 ≡ kept st
      → ((r : Resource)
          → (taken r st1.calls + owned_parts r st.parts ≡ taken r st.calls + owned_parts r parts)
            × (given r st1.calls ≡ given r st.calls))
      → Owns i used (record st1 { parts = parts })
  Owns-next st st1 parts o k t = (
    λ r. omega (arith, o.0 r, t r),
    ap (λ (x : Kept). x.dev_idx) k ∙ o.1,
    ap (λ (x : Kept). x.used) k ∙ o.2,
    ap (λ (x : Kept). x.card.private_free) k ∙ o.3,
  )

module _ {Env Src : Type 0} (kernel : Kernel Env) (i : ℕ) (used : ℕ → Bool) (chip : Chip) where
  pub init_xfer_buf-Ends :
      Ends
        (λ (st : Binding Env Src).
          Plain i used chip st
          × (st.parts.xfer_buf ≡ none)
          × NoMidi st.parts
          × Empty playback_direction st.parts
          × Empty capture_direction st.parts)
        (λ st.
          Plain i used chip st
          × NoMidi st.parts
          × Empty playback_direction st.parts
          × Empty capture_direction st.parts)
        (Owns i used)
        (init_xfer_buf kernel)
  unfolding init_xfer_buf
  init_xfer_buf-Ends st ((o, fresh, eight), no_buf, midi, pb, rec) =
      let (st1, b) = alloc_block kernel st in
      let k = (alloc_block-Takes kernel card st).1 in
      let same = ap (λ (x : Kept). x.parts) k in
      let parts = record (st1.parts) { xfer_buf = b } in
      let built : Owns i used (record st1 { parts = parts }) =
        Owns-next i used st st1 parts o k λ r.
          let t = (alloc_block-Takes kernel r st).0 in
          (
            omega (
              arith,
              t.taken_more,
              ap (owned_parts r) same,
              owned-none r block no_buf,
              ap (λ (p : Parts). owned r block p.xfer_buf) same,
            ),
            t.given_same,
          ) in
      let left : Parts → Type 0 = λ p.
        NoMidi p × Empty playback_direction p × Empty capture_direction p × (length p.rings ≡ 8) in
      let (midi', pb', rec', eight') = subst left (sym same) (midi, pb, rec, eight) in
      (
        λ none_is. ((built, ap (λ (x : Kept). x.chip) k ∙ fresh, eight'), midi', pb', rec'),
        λ e is. built,
      )

  -- One allocation of MIDI IN, put in place of a null pointer.
  init_midi_in-Ends :
      Ends
        (λ (st : Binding Env Src).
          Plain i used chip st
          × (st.parts.midi_in_urb ≡ none)
          × Empty playback_direction st.parts
          × Empty capture_direction st.parts)
        (λ st.
          Plain i used chip st
          × Empty playback_direction st.parts
          × Empty capture_direction st.parts)
        (Owns i used)
        (init_midi_in kernel)
  unfolding init_midi_in
  init_midi_in-Ends st ((o, fresh, eight), no_urb, pb, rec) =
      let (st1, u) = alloc_urb kernel st in
      let k = (alloc_urb-Takes kernel card st).1 in
      let same = ap (λ (x : Kept). x.parts) k in
      let parts = record (st1.parts) { midi_in_urb = u } in
      let built : Owns i used (record st1 { parts = parts }) =
        Owns-next i used st st1 parts o k λ r.
          let t = (alloc_urb-Takes kernel r st).0 in
          (
            omega (
              arith,
              t.taken_more,
              ap (owned_parts r) same,
              owned-none r urb no_urb,
              ap (λ (p : Parts). owned r urb p.midi_in_urb) same,
            ),
            t.given_same,
          ) in
      let left : Parts → Type 0 =
        λ p. Empty playback_direction p × Empty capture_direction p × (length p.rings ≡ 8) in
      let (pb', rec', eight') = subst left (sym same) (pb, rec, eight) in
      if_null_cases
        (λ (res : Binding Env Src × Option Errno).
          (res.1 ≡ none
            → Plain i used chip res.0
              × Empty playback_direction res.0.parts
              × Empty capture_direction res.0.parts)
          × ((e : Errno) → res.1 ≡ some e → Owns i used res.0))
        u (λ null. (λ none_is. cc, λ e is. built))
        λ p is. (
          λ none_is. ((built, ap (λ (x : Kept). x.chip) k ∙ fresh, eight'), pb', rec'),
          λ e is'. built,
        )

  pub init_midi_urb-Ends :
      Ends
        (λ (st : Binding Env Src).
          Plain i used chip st
          × NoMidi st.parts
          × Empty playback_direction st.parts
          × Empty capture_direction st.parts)
        (λ st.
          Plain i used chip st
          × Empty playback_direction st.parts
          × Empty capture_direction st.parts)
        (Owns i used)
        (init_midi_urb kernel)
  unfolding init_midi_urb
  init_midi_urb-Ends st ((o, fresh, eight), (no_buf, no_urb), pb, rec) =
      let reset = record st {
        world = record (st.world) {
          midi = record (st.world.midi) { midi_state = RunningStatus.fresh; midi_out_acc = 0 };
        };
      } in
      let (st1, b) = alloc_block kernel reset in
      let k = (alloc_block-Takes kernel card reset).1 in
      let same = ap (λ (x : Kept). x.parts) k in
      let parts = record (st1.parts) { midi_in_buf = b } in
      let built : Owns i used (record st1 { parts = parts }) =
        Owns-next i used st st1 parts o k λ r.
          let t = (alloc_block-Takes kernel r reset).0 in
          (
            omega (
              arith,
              t.taken_more,
              ap (owned_parts r) same,
              owned-none r block no_buf,
              ap (λ (p : Parts). owned r block p.midi_in_buf) same,
            ),
            t.given_same,
          ) in
      let left : Parts → Type 0 = λ p.
        (p.midi_in_urb ≡ none)
        × Empty playback_direction p
        × Empty capture_direction p
        × (length p.rings ≡ 8) in
      let (no_urb', pb', rec', eight') = subst left (sym same) (no_urb, pb, rec, eight) in
      if_null_cases
        (λ (res : Binding Env Src × Option Errno).
          (res.1 ≡ none
            → Plain i used chip res.0
              × Empty playback_direction res.0.parts
              × Empty capture_direction res.0.parts)
          × ((e : Errno) → res.1 ≡ some e → Owns i used res.0))
        b (λ null. (λ none_is. cc, λ e is. built))
        λ p is.
          init_midi_in-Ends (record st1 { parts = parts })
            ((built, ap (λ (x : Kept). x.chip) k ∙ fresh, eight'), no_urb', pb', rec')

  -- One direction's slots are filled; the other's stay.
  pub init_urbs-Ends :
      (d : Direction) (S : List Slot → Type 0)
      → Ends
          (λ (st : Binding Env Src).
            Plain i used chip st × Empty d st.parts × S (slots_of (other d) st.parts.rings))
          (λ st. Plain i used chip st × Filled d st.parts × S (slots_of (other d) st.parts.rings))
          (Owns i used)
          (init_urbs kernel d)
  unfolding init_urbs
  init_urbs-Ends d S st ((o, fresh, eight), e, others) =
      let (st1, rings, failed) = init_slots kernel d st.parts.rings st in
      let all = init_slots-IsBuilt kernel card d st.parts.rings st e in
      let k = all.kept_same in
      let same = ap (λ (x : Kept). x.parts) k in
      let parts = record (st1.parts) { rings = rings } in
      let built : Owns i used (record st1 { parts = parts }) =
        Owns-next i used st st1 parts o k λ r.
          let t = init_slots-IsBuilt kernel r d st.parts.rings st e in
          (
            omega (
              arith,
              t.taken_more,
              ap (owned_parts r) same,
              ap (λ (p : Parts). owned_rings r p.rings) same,
            ),
            t.given_same,
          ) in
      (
        λ none_is. (
          (built, ap (λ (x : Kept). x.chip) k ∙ fresh, all.as_long ∙ eight),
          all.fills none_is,
          subst S (sym all.others) others,
        ),
        λ e is. built,
      )
