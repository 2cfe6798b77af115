-- ===== src/Probe/Parts.antt =====
-- The buffers and URBs of a chip (jockey3.c): `jockey3_init_midi_urb`, `jockey3_init_playback_urbs`,
-- `jockey3_init_capture_urbs`, and what `jockey3_free_resources` frees.
pub mod Owned
pub mod Alloc
pub mod Taken
use alsa_jockey.Prelude.{ℕ, ◌*◌, true, false, Option, none, some, List, [], ◌∷◌}
use alsa_jockey.Errno.{Errno, enomem}
use alsa_jockey.Midi.RunningStatus.{fresh}
use alsa_jockey.Stream.State.{Direction, playback_direction, capture_direction, pkt_size}
use alsa_jockey.Stream.Playback.{init_out_packet}
use alsa_jockey.Probe.Calls.{Resource, block, urb, Call, take, give}
use alsa_jockey.Probe.State.{
  Fill, Slot, Pair, get_slot, set_slot, Parts, Binding, Kernel, put_env, log_call, Step,
}

-- JOCKEY3_PLAYBACK_N and JOCKEY3_CAPTURE_N: packets for which the buffers are allocated.
abbrev pub most_pkts : ℕ
most_pkts = 8

abbrev pub ep_pcm_out : ℕ
ep_pcm_out = 5

abbrev pub ep_pcm_in : ℕ
ep_pcm_in = 6

abbrev pub ep_midi_in : ℕ
ep_midi_in = 3

-- `usb_fill_bulk_urb` of a ring's URB.
abbrev pub fill_of : Direction → Fill
fill_of playback_direction = record {
  ep_num = ep_pcm_out;
  is_in = false;
  length = most_pkts * pkt_size;
}
fill_of capture_direction = record {
  ep_num = ep_pcm_in;
  is_in = true;
  length = most_pkts * pkt_size;
}

-- A slot with both, the buffer zeroed and, for playback, primed.
unfoldable pub filled_slot : Direction → ℕ → ℕ → Slot
filled_slot playback_direction u b = record {
  urb = some u;
  buf = some b;
  filled = some (fill_of playback_direction);
  contents = init_out_packet most_pkts (λ i. 0);
}
filled_slot capture_direction u b = record {
  urb = some u;
  buf = some b;
  filled = some (fill_of capture_direction);
  contents = λ i. 0;
}

-- What is done on NULL, and what with a pointer.
unfoldable pub if_null : {A : Type 0} → Option ℕ → A → (ℕ → A) → A
if_null none null next = null
if_null (some p) null next = next p

-- `kfree` and `usb_free_urb`, which do nothing on NULL.
unfoldable pub free : (ℕ → Resource) → Option ℕ → List Call → List Call
free kind none cs = cs
free kind (some p) cs = give (kind p) ∷ cs

unfoldable pub free_slot : Slot → List Call → List Call
free_slot s cs = free block s.buf (free urb s.urb cs)

unfoldable pub free_rings : List Pair → List Call → List Call
free_rings [] cs = cs
free_rings (p ∷ ps) cs = free_rings ps (free_slot p.capture (free_slot p.playback cs))

unfoldable pub free_parts : Parts → List Call → List Call
free_parts p cs =
    free block p.xfer_buf
      (free block p.midi_in_buf (free urb p.midi_in_urb (free_rings p.rings cs)))

module _ {Env Src : Type 0} where
  unfoldable pub log_taken : (ℕ → Resource) → Option ℕ → Binding Env Src → Binding Env Src
  log_taken kind none st = st
  log_taken kind (some p) st = log_call (take (kind p)) st

module _ {Env Src : Type 0} (kernel : Kernel Env) where
  unfoldable pub alloc_block : Binding Env Src → Binding Env Src × Option ℕ
  alloc_block st =
      let (env, p) = kernel.kmalloc st.world.usb.device in (log_taken block p (put_env st env), p)

  unfoldable pub alloc_urb : Binding Env Src → Binding Env Src × Option ℕ
  alloc_urb st =
      let (env, p) = kernel.usb_alloc_urb st.world.usb.device in
      (log_taken urb p (put_env st env), p)

  unfoldable pub init_xfer_buf : Step Env Src
  init_xfer_buf st =
      let (st1, b) = alloc_block st in
      (
        record st1 { parts = record (st1.parts) { xfer_buf = b } },
        if_null b (some enomem) (λ p. none),
      )

  unfoldable pub init_midi_in : Step Env Src
  init_midi_in st =
      let (st1, u) = alloc_urb st in
      let st2 = record st1 { parts = record (st1.parts) { midi_in_urb = u } } in
      let fill : Fill = record { ep_num = ep_midi_in; is_in = true; length = pkt_size } in
      if_null u (st2, some enomem)
        λ p. (record st2 { parts = record (st2.parts) { midi_filled = some fill } }, none)

  unfoldable pub init_midi_urb : Step Env Src
  init_midi_urb st =
      let reset = record st {
        world = record (st.world) {
          midi = record (st.world.midi) { midi_state = fresh; midi_out_acc = 0 };
        };
      } in
      let (st1, b) = alloc_block reset in
      let st2 = record st1 { parts = record (st1.parts) { midi_in_buf = b } } in
      let next = init_midi_in st2 in if_null b (st2, some enomem) (λ p. next)

  -- The pairs from one slot on, for one direction; the pairs behind a failure stay as they are.
  unfoldable pub init_slots :
      Direction → List Pair → Binding Env Src → Binding Env Src × List Pair × Option Errno
  init_slots d [] st = (st, [], none)
  init_slots d (p ∷ ps) st =
      let (st1, b) = alloc_block st in
      let (st2, u) = alloc_urb st1 in
      let got = set_slot p d (record (get_slot p d) { buf = b }) in
      if_null b (st1, got ∷ ps, some enomem)
        λ new_buf.
          if_null u (st2, got ∷ ps, some enomem)
            λ new_urb.
              let (st3, rest, failed) = init_slots d ps st2 in
              (st3, set_slot p d (filled_slot d new_urb new_buf) ∷ rest, failed)

  -- `jockey3_init_playback_urbs` and `jockey3_init_capture_urbs`.
  unfoldable pub init_urbs : Direction → Step Env Src
  init_urbs d st =
      let (st1, rings, failed) = init_slots d st.parts.rings st in
      (record st1 { parts = record (st1.parts) { rings = rings } }, failed)
