-- ===== src/Stream/Playback.antt =====
-- The completion handler of a playback URB, `jockey3_playback_callback` (jockey3.c), from entry to
-- return with no other thread between its critical sections, and the packets it sends.
pub mod Audio
pub mod Given
pub mod Layout
pub mod Callback
use alsa_jockey.Prelude.{
  ℕ, zero, suc, ◌+◌, ◌-◌, ◌*◌, ◌/◌, ◌%◌, ◌^◌, ◌≤◌, ◌<◌, ◌≡◌, refl, arith, Bool, true, false, ltb,
  leb, ◌==◌, ◌&&◌, ◌||◌, not, if◌then◌else◌, u8, Option, none, some,
}
use alsa_jockey.Errno.{Errno}
use alsa_jockey.Codec.Memory.{Buffer, advance, rejoin, store, memset}
use alsa_jockey.Codec.Batch.{Variant, CodecState}
use alsa_jockey.Midi.Out.{MidiOut, get_next_midi_out_byte, midi_idle_byte}
use alsa_jockey.Stream.State.{UrbStream, has_substream, max_urb_errors, pkt_size}
use alsa_jockey.Stream.Packet.{process_out_packet}
use alsa_jockey.Stream.Errors.{
  urb_check, urb_ok, urb_stopped, urb_error, AlsaCore, urb_error_give_up, note_completion,
}
use alsa_jockey.Stream.Capture.{Completion, Done, finish, period_elapsed}

abbrev pub midi_out_offset : ℕ
midi_out_offset = 480

abbrev pub sync_byte_offset : ℕ
sync_byte_offset = 481

unfoldable pub silence_out_packet : Buffer → Buffer
silence_out_packet buf = memset buf 0 midi_out_offset

-- The slot, the sync byte, and zeros from there to the packet's end.
unfoldable pub seal_packet : ℕ → Buffer → Buffer
seal_packet b sub =
    let synced = store (store sub midi_out_offset b) sync_byte_offset 0xff in
    rejoin synced (sync_byte_offset + 1)
      (memset (advance synced (sync_byte_offset + 1)) 0 (pkt_size - (sync_byte_offset + 1)))

-- The `n` packets of a fresh buffer, which is first sent before any completion handler has run.
unfoldable pub init_out_packet : ℕ → Buffer → Buffer
init_out_packet zero buf = buf
init_out_packet (suc n) buf =
    rejoin (store (store buf midi_out_offset midi_idle_byte) sync_byte_offset 0xff) pkt_size
      (init_out_packet n (advance buf pkt_size))

unfoldable pub silence_packets : ℕ → Buffer → Buffer
silence_packets zero buf = buf
silence_packets (suc n) buf =
    rejoin (silence_out_packet buf) pkt_size (silence_packets n (advance buf pkt_size))

-- The loop that fills each packet's slot, sync byte and gap.
module _ {Src : Type 0} (transmit : Src → Option (ℕ × Src)) where
  unfoldable pub seal_packets : ℕ → MidiOut Src → Buffer → MidiOut Src × Buffer
  seal_packets zero m buf = (m, buf)
  seal_packets (suc n) m buf =
      let (m1, b) = get_next_midi_out_byte transmit m in
      let (m2, rest) = seal_packets n m1 (advance buf pkt_size) in
      (m2, rejoin (seal_packet b buf) pkt_size rest)

module _ (v : Variant) (codec : CodecState) where
  -- The packet loop; the flag is OR'd over the packets.
  unfoldable pub give_packets : ℕ → UrbStream → Buffer → Bool → UrbStream × Buffer × Bool
  give_packets zero s buf elapsed = (s, buf, elapsed)
  give_packets (suc n) s buf elapsed =
      let (s1, out, one) = process_out_packet v codec s buf in
      let (s2, rest, all) = give_packets n s1 (advance out pkt_size) (elapsed || one) in
      (s2, rejoin out pkt_size rest, all)

  -- Step 1, under the lock: the packets' audio; whether data moved, whether the callback is in the
  -- safe zone, whether a period elapsed.
  unfoldable pub join_and_give : Bool → UrbStream → Buffer → UrbStream × Buffer × Bool × Bool × Bool
  join_and_give valid s buf =
      let moved_data = valid && ltb s.consec_errors max_urb_errors in
      let s1 = if moved_data then record s { consec_errors = 0 } else s in
      if moved_data && not s1.stopping && s1.running && has_substream s1
      then (let (given, out, elapsed) =
            give_packets s.n_pkts (record s1 { callbacks_active = s1.callbacks_active + 1 }) buf
              false in
          (given, out, moved_data, true, elapsed))
      else (s1, silence_packets s.n_pkts buf, moved_data, false, false)

-- The stream and the URB after the callback, the transfer buffer as sent, the MIDI side.
pub record Sent (Src : Type 0) : Type 0 where
  pub done : Done
  pub out : Buffer
  pub midi : MidiOut Src

module _ {Src : Type 0} (transmit : Src → Option (ℕ × Src)) (v : Variant) (codec : CodecState)
    (core : AlsaCore) where
  -- The part behind the status check, with `data_valid` as that leaves it.
  unfoldable pub playback_completed : Bool → Bool → Completion → MidiOut Src → UrbStream → Sent Src
  playback_completed disconnected valid c m s =
      let submit_pkts = s.n_pkts in
      let (s1, audio, moved_data, active, elapsed) =
        join_and_give v codec valid s c.transfer_buffer in
      let s2 = if moved_data then note_completion s1 c.now else s1 in
      let (m1, out) = seal_packets transmit submit_pkts m audio in
      let s3 = period_elapsed v codec core elapsed s2 in
      record {
        done = finish disconnected active (submit_pkts * pkt_size) c.submit_result s3;
        out = out;
        midi = m1;
      }

  unfoldable pub playback_callback : Bool → Completion → MidiOut Src → UrbStream → Sent Src
  playback_callback disconnected c m s =
      let s0 = record s { urbs_in_flight = s.urbs_in_flight - 1 } in
      let (blamed, give_up) = urb_error_give_up core s0 in
      let returned : UrbStream → Sent Src = λ t. record {
        done = record { stream = t; submitted = none };
        out = c.transfer_buffer;
        midi = m;
      } in
      elim (urb_check c.status) [
        | urb_stopped ↦ returned s0
        | urb_error ↦
            if give_up || disconnected
            then returned blamed
            else playback_completed disconnected false c m blamed
        | urb_ok ↦ if disconnected then returned s0 else playback_completed disconnected true c m s0
      ]
