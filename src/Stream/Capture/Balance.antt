-- ===== src/Stream/Capture/Balance.antt =====
-- The counters and the error run of `jockey3_capture_callback` (jockey3.c).
use alsa_jockey.Prelude.{
  ℕ, zero, suc, ◌+◌, ◌*◌, ◌/◌, refl, ◌∙◌, arith, Bool, false, ltb, ◌==◌, ◌&&◌, ◌||◌, not,
  if◌then◌else◌, Option, none, some, min,
}
use alsa_jockey.Codec.Memory.{Buffer, advance}
use alsa_jockey.Codec.Batch.{Variant, CodecState}
use alsa_jockey.Stream.State.{UrbStream, Runtime, max_urb_errors, pkt_size}
use alsa_jockey.Stream.Packet.{process_in_packet, dma_of, drain_packet}
use alsa_jockey.Stream.Handler.{
  IsSameRun, IsSameRun-refl, IsJoined, IsCompleted, handler_end-IsCompleted,
}
use alsa_jockey.Stream.Errors.{AlsaCore, note_completion}
use alsa_jockey.Stream.Capture.{
  Completion, take_packets, join_and_take, period_elapsed, capture_completed,
}

process_in_packet-IsSameRun :
    (v : Variant) (codec : CodecState) (s : UrbStream) (b : Buffer)
    → IsSameRun s (process_in_packet v codec s b).0
unfolding process_in_packet drain_packet
process_in_packet-IsSameRun v codec s b = by_dma (dma_of s)
  where
    by_dma :
        (d : Option (Runtime × Buffer))
        → IsSameRun s
            (elim d as (λ _. UrbStream × Bool) [
              | none ↦ (s, false)
              | some x ↦ drain_packet v codec s x.0 x.1 b
            ]).0
    by_dma none = IsSameRun-refl s
    by_dma (some (r, dma)) = record {
      in_flight = refl;
      active = refl;
      errors = refl;
      halted = refl;
      committed = refl;
    }

take_packets-IsSameRun :
    (v : Variant) (codec : CodecState) (core : AlsaCore) (n : ℕ) (b : Buffer) (s : UrbStream)
    (e : Bool)
    → IsSameRun s (take_packets v codec core n b s e).0
unfolding take_packets
take_packets-IsSameRun v codec core zero b s e = IsSameRun-refl s
take_packets-IsSameRun v codec core (suc n) b s e =
    let one = process_in_packet-IsSameRun v codec s b in
    let rest =
      take_packets-IsSameRun v codec core n (advance b pkt_size) (process_in_packet v codec s b).0
        (e || (process_in_packet v codec s b).1) in
    record {
      in_flight = rest.in_flight ∙ one.in_flight;
      active = rest.active ∙ one.active;
      errors = rest.errors ∙ one.errors;
      halted = rest.halted ∙ one.halted;
      committed = rest.committed ∙ one.committed;
    }

module _ (v : Variant) (codec : CodecState) (core : AlsaCore) where
  pub join_and_take-IsJoined :
      (valid : Bool) (c : Completion) (s : UrbStream)
      → let (t, moved, active, elapsed) = join_and_take v codec core valid c s in
        IsJoined valid s t moved active
  unfolding join_and_take
  join_and_take-IsJoined valid c s =
      let n = c.actual_length / pkt_size in
      let moved = valid && not (n == 0) && ltb s.consec_errors max_urb_errors in
      let s1 : UrbStream = if moved then record s { consec_errors = 0 } else s in
      let taken =
        take_packets-IsSameRun v codec core (min n s1.n_pkts) c.transfer_buffer
          (record s1 { callbacks_active = s1.callbacks_active + 1 }) false in
      record {
        in_flight = ground (arith, taken.in_flight);
        joined = ground (arith, taken.active);
        halted = ground (arith, taken.halted);
        errors = ground (arith, taken.errors);
        unusable = λ e. ground (arith);
        given_up = λ e. ground (arith);
        committed = ground (arith, taken.committed);
      }

  pub capture_completed-IsCompleted :
      (gone valid : Bool) (c : Completion) (s : UrbStream)
      → IsCompleted gone valid c.submit_result s (capture_completed v codec core gone valid c s)
  unfolding capture_completed
  capture_completed-IsCompleted gone valid c s =
      let (s1, moved, active, elapsed) = join_and_take v codec core valid c s in
      let s2 : UrbStream = if moved then note_completion s1 c.now else s1 in
      handler_end-IsCompleted v codec core gone valid moved active elapsed c.now
        ((period_elapsed v codec core elapsed s2).n_pkts * pkt_size) c.submit_result s s1
        (join_and_take-IsJoined valid c s)
