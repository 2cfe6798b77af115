-- ===== src/Stream/Playback/Layout.antt =====
-- The layout of the packets that `jockey3_playback_callback` (jockey3.c) sends.
use native.Mathlib.Decide.{dec_lt}
use alsa_jockey.Prelude.{
  ℕ, zero, suc, ◌+◌, ◌-◌, ◌*◌, ◌/◌, ◌%◌, ◌<◌, ◌≡◌, refl, ap, ◌∙◌, none, some, arith, Bool, true,
  false, ltb, ◌==◌, ◌&&◌, if◌then◌else◌, u8, Option, List, [], ◌∷◌, Bool-cases, inl, inr,
}
use alsa_jockey.Codec.Memory.{Buffer, IsBytes, advance, memset}
use alsa_jockey.Codec.Batch.{Variant, CodecState, IsReady, playback_frames}
use alsa_jockey.Codec.Reference.{wire_byte}
use alsa_jockey.Stream.Packet.Out.{IsPlaying}
use alsa_jockey.Stream.Playback.Callback.{playback_completed-IsCompleted}
use alsa_jockey.Stream.Playback.Given.{
  IsLive, finish-length, counted-IsLive, counted-IsPlaying, join_and_give-audio,
}
use alsa_jockey.Midi.Out.{MidiOut, get_next_midi_out_byte, slots}
use alsa_jockey.Stream.State.{UrbStream, Runtime, max_urb_errors, pkt_size}
use alsa_jockey.Stream.Errors.{urb_check, urb_ok, AlsaCore}
use alsa_jockey.Stream.Capture.{Completion}
use alsa_jockey.Stream.Playback.{
  midi_out_offset, sync_byte_offset, silence_out_packet, seal_packet, silence_packets, seal_packets,
  join_and_give, playback_completed, playback_callback,
}

-- Entry `i`, and 0 behind the end.
unfoldable pub entry_at : List ℕ → ℕ → ℕ
entry_at [] i = 0
entry_at (b ∷ bs) i = if i == 0 then b else entry_at bs (i - 1)

-- Byte `y` of a packet with the MIDI byte `b` whose audio byte there is `a`.
abbrev pub packet_byte : ℕ → ℕ → ℕ → ℕ
packet_byte b a y =
    if ltb y midi_out_offset
    then a
    else if y == midi_out_offset
    then u8 b
    else if y == sync_byte_offset
    then 0xff
    else 0

seal_packet_lem :
    (b : ℕ) (buf : Buffer) (y : ℕ) → y < pkt_size → seal_packet b buf y ≡ packet_byte b (buf y) y
unfolding seal_packet memset
seal_packet_lem b buf y h = ground arith

silence_packets_lem :
    (n : ℕ) (buf : Buffer) (i y : ℕ)
    → i < n
    → y < midi_out_offset
    → silence_packets n buf (i * pkt_size + y) ≡ 0
unfolding silence_packets silence_out_packet memset
silence_packets_lem zero buf i y h k = omega arith
silence_packets_lem (suc n) buf i y h k = elim (dec_lt 0 i) [
  | yes p ↦
      let x : i * pkt_size + y - pkt_size ≡ (i - 1) * pkt_size + y = omega arith in
      let rest = silence_packets_lem n (advance buf pkt_size) (i - 1) y (omega arith) k in
      ground (arith, x, rest)
  | no p ↦ ground arith
]

module _ {Src : Type 0} (transmit : Src → Option (ℕ × Src)) where
  seal_packets-slots :
      (n : ℕ) (m : MidiOut Src) (buf : Buffer)
      → (seal_packets transmit n m buf).0 ≡ (slots transmit n m).0
  unfolding seal_packets slots
  seal_packets-slots zero m buf = refl
  seal_packets-slots (suc n) m buf =
      seal_packets-slots n (get_next_midi_out_byte transmit m).0 (advance buf pkt_size)

  seal_packets_lem :
      (n : ℕ) (m : MidiOut Src) (buf : Buffer) (i y : ℕ)
      → i < n
      → y < pkt_size
      → (seal_packets transmit n m buf).1 (i * pkt_size + y)
        ≡ packet_byte (entry_at (slots transmit n m).1 i) (buf (i * pkt_size + y)) y
  unfolding seal_packets slots entry_at
  seal_packets_lem zero m buf i y h k = omega arith
  seal_packets_lem (suc n) m buf i y h k =
      let (m1, b) = get_next_midi_out_byte transmit m in
      elim (dec_lt 0 i) [
        | yes p ↦
            let x : i * pkt_size + y - pkt_size ≡ (i - 1) * pkt_size + y = omega arith in
            let back : (i - 1) * pkt_size + y + pkt_size ≡ i * pkt_size + y = omega arith in
            let rest = seal_packets_lem n m1 (advance buf pkt_size) (i - 1) y (omega arith) k in
            ground (arith, x, back, rest)
        | no p ↦ ground (arith, seal_packet_lem b buf y k)
      ]

packet_byte_same :
    (b y : ℕ) {a a' : ℕ} → (y < midi_out_offset → a ≡ a') → packet_byte b a y ≡ packet_byte b a' y
packet_byte_same b y h = elim (dec_lt y midi_out_offset) [
  | yes p ↦ ap (λ (x : ℕ). packet_byte b x y) (h p)
  | no p ↦ ground (arith, p)
]

module _ {Src : Type 0} (transmit : Src → Option (ℕ × Src)) (v : Variant) (codec : CodecState)
    (core : AlsaCore) where
  join_and_give-silent :
      (valid : Bool) (s : UrbStream) (buf : Buffer) (i y : ℕ)
      → s.running ≡ false
      → i < s.n_pkts
      → y < midi_out_offset
      → (join_and_give v codec valid s buf).1 (i * pkt_size + y) ≡ 0
  unfolding join_and_give
  join_and_give-silent valid s buf i y e h k =
      let z = silence_packets_lem s.n_pkts buf i y h k in
      elim (Bool-cases (valid && ltb s.consec_errors max_urb_errors)) [
        | inl q ↦ rw (q, e) (ground (arith, z))
        | inr q ↦ rw (q) (ground (arith, z))
      ]

  -- On a connected device, a playback URB that completes well is submitted again with as many packets of
  -- 512 bytes as the stream has for a URB, unless the stream is being stopped or has given up, if the usb
  -- core takes it. Byte 480 of packet `i` is the i-th of as many MIDI slots in a row, byte 481 the sync
  -- byte 0xff, and the rest behind it is zero; the MIDI side is left as those slots leave it. Below 480,
  -- frame `y / 48` of packet `i` of a stream that plays is the encoding of the ring's frame
  -- `10 i + y / 48` from the hardware pointer on; and where the stream does not run, there are zeros.
  -- The codec's tables are those of its variant, the period is not empty, and the ring holds bytes.
  pub playback_callback-layout :
      (c : Completion) (m : MidiOut Src) (s : UrbStream) (r : Runtime) (dma : Buffer)
      (ring start : ℕ)
      → IsReady v codec
      → IsBytes dma
      → 0 < r.period_size
      → urb_check c.status ≡ urb_ok
      → let sent = playback_callback transmit v codec core false c m s in
        let (midi, slot_bytes) = slots transmit s.n_pkts m in
        (sent.midi ≡ midi)
        × (IsLive s
            → IsPlaying s r dma ring start
            → (i y : ℕ) → i < s.n_pkts
            → y < pkt_size
            → sent.out (i * pkt_size + y)
              ≡ packet_byte
                  (entry_at slot_bytes i)
                  (wire_byte
                    (advance dma ((start + i * playback_frames + y / 48) % ring * 12))
                    (y % 48))
                  y)
        × (s.running ≡ false
            → (i y : ℕ) → i < s.n_pkts
            → y < pkt_size
            → sent.out (i * pkt_size + y) ≡ packet_byte (entry_at slot_bytes i) 0 y)
        × (s.stopping ≡ false
            → s.consec_errors < max_urb_errors
            → c.submit_result ≡ none
            → sent.done.submitted ≡ some (s.n_pkts * pkt_size))
  unfolding playback_completed playback_callback slots entry_at
  playback_callback-layout c m s r dma ring start ready bytes timed e =
      let s0 : UrbStream = record s { urbs_in_flight = s.urbs_in_flight - 1 } in
      let audio = (join_and_give v codec true s0 c.transfer_buffer).1 in
      let ended = playback_completed-IsCompleted transmit v codec core false true c m s0 in
      rw (e, playback_callback)
        (
          seal_packets-slots transmit s.n_pkts m audio,
          λ live h i y k j.
              seal_packets_lem transmit s.n_pkts m audio i y k j
              ∙ packet_byte_same (entry_at (slots transmit s.n_pkts m).1 i) y (λ low.
                join_and_give-audio v codec s0 r dma c.transfer_buffer ring start ready bytes timed
                  (counted-IsLive live) (counted-IsPlaying h) i y k low),
          λ q i y k j.
              seal_packets_lem transmit s.n_pkts m audio i y k j
              ∙ packet_byte_same (entry_at (slots transmit s.n_pkts m).1 i) y
                  (λ low. join_and_give-silent true s0 c.transfer_buffer i y q k low),
          λ unfenced trusted taken.
              finish-length false _ (s.n_pkts * pkt_size) c.submit_result _
                (ended.continues refl unfenced trusted taken),
        )
