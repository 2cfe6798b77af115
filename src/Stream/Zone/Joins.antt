-- ===== src/Stream/Zone/Joins.antt =====
-- When a critical section (jockey3.c) lets a thread into the safe zone.
use alsa_jockey.Prelude.{
  ℕ, zero, suc, ◌+◌, ◌/◌, ◌≡◌, refl, ◌∙◌, arith, Bool, true, false, not, ltb, ◌==◌, ◌&&◌, ◌||◌,
  if◌then◌else◌, min,
}
use alsa_jockey.Codec.Memory.{Buffer, advance}
use alsa_jockey.Codec.Batch.{Variant, CodecState}
use alsa_jockey.Stream.State.{UrbStream, max_urb_errors, pkt_size}
use alsa_jockey.Stream.Errors.{AlsaCore}
use alsa_jockey.Stream.Packet.{process_in_packet, process_out_packet, drain_packet, fill_packet}
use alsa_jockey.Stream.Capture.{Completion, take_packets, join_and_take}
use alsa_jockey.Stream.Capture.Balance.{join_and_take-IsJoined}
use alsa_jockey.Stream.Playback.{give_packets, join_and_give}
use alsa_jockey.Stream.Playback.Callback.{join_and_give-IsJoined}

-- A section that counts the thread if it joins, leaves `running` alone, and lets nobody join a stream
-- that does not run.
pub record Admits (s t : UrbStream) (active : Bool) : Type 0 where
  pub counted : t.callbacks_active ≡ (if active then s.callbacks_active + 1 else s.callbacks_active)
  pub ran : t.running ≡ s.running
  pub live : active ≡ true → s.running ≡ true

process_in_packet-running :
    (v : Variant) (codec : CodecState) (s : UrbStream) (b : Buffer)
    → (process_in_packet v codec s b).0.running ≡ s.running
unfolding process_in_packet drain_packet
process_in_packet-running v codec s b = ground arith

take_packets-running :
    (v : Variant) (codec : CodecState) (core : AlsaCore) (n : ℕ) (b : Buffer) (s : UrbStream)
    (e : Bool)
    → (take_packets v codec core n b s e).0.running ≡ s.running
unfolding take_packets
take_packets-running v codec core zero b s e = refl
take_packets-running v codec core (suc n) b s e =
    let (s1, one) = process_in_packet v codec s b in
    take_packets-running v codec core n (advance b pkt_size) s1 (e || one)
    ∙ process_in_packet-running v codec s b

process_out_packet-running :
    (v : Variant) (codec : CodecState) (s : UrbStream) (b : Buffer)
    → (process_out_packet v codec s b).0.running ≡ s.running
unfolding process_out_packet fill_packet
process_out_packet-running v codec s b = ground arith

give_packets-running :
    (v : Variant) (codec : CodecState) (n : ℕ) (s : UrbStream) (b : Buffer) (e : Bool)
    → (give_packets v codec n s b e).0.running ≡ s.running
unfolding give_packets
give_packets-running v codec zero s b e = refl
give_packets-running v codec (suc n) s b e =
    let (s1, out, one) = process_out_packet v codec s b in
    give_packets-running v codec n s1 (advance out pkt_size) (e || one)
    ∙ process_out_packet-running v codec s b

module _ (v : Variant) (codec : CodecState) (core : AlsaCore) where
  pub join_and_take-Admits :
      (valid : Bool) (c : Completion) (s : UrbStream)
      → let (t, moved, active, elapsed) = join_and_take v codec core valid c s in Admits s t active
  unfolding join_and_take
  join_and_take-Admits valid c s =
      let n = c.actual_length / pkt_size in
      let moved = valid && not (n == 0) && ltb s.consec_errors max_urb_errors in
      let s1 : UrbStream = if moved then record s { consec_errors = 0 } else s in
      let taken =
        take_packets-running v codec core (min n s1.n_pkts) c.transfer_buffer
          (record s1 { callbacks_active = s1.callbacks_active + 1 }) false in
      record {
        counted = (join_and_take-IsJoined v codec core valid c s).joined;
        ran = ground (arith, taken);
        live = λ e. ground (arith, e);
      }

  pub join_and_give-Admits :
      (valid : Bool) (b : Buffer) (s : UrbStream)
      → let (t, out, moved, active, elapsed) = join_and_give v codec valid s b in Admits s t active
  unfolding join_and_give
  join_and_give-Admits valid b s =
      let moved = valid && ltb s.consec_errors max_urb_errors in
      let s1 : UrbStream = if moved then record s { consec_errors = 0 } else s in
      let taken =
        give_packets-running v codec s.n_pkts
          (record s1 { callbacks_active = s1.callbacks_active + 1 }) b false in
      record {
        counted = (join_and_give-IsJoined v codec valid s b).joined;
        ran = ground (arith, taken);
        live = λ e. ground (arith, e);
      }
