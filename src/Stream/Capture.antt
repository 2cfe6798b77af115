-- ===== src/Stream/Capture.antt =====
-- The completion handler of a capture URB, `jockey3_capture_callback` (jockey3.c), from entry to
-- return with no other thread between its critical sections.
pub mod Balance
pub mod Callback
pub mod Audio
use alsa_jockey.Prelude.{
  ℕ, zero, suc, ◌+◌, ◌-◌, ◌*◌, ◌/◌, ◌%◌, ◌^◌, ◌≤◌, ◌<◌, ◌≡◌, refl, arith, Bool, true, false, ltb,
  leb, ◌==◌, ◌&&◌, ◌||◌, not, if◌then◌else◌, u32, Option, none, some, min,
}
use alsa_jockey.Errno.{Errno}
use alsa_jockey.Codec.Memory.{Buffer, advance}
use alsa_jockey.Codec.Batch.{Variant, CodecState}
use alsa_jockey.Stream.State.{UrbStream, has_substream, max_urb_errors, pkt_size}
use alsa_jockey.Stream.Packet.{process_in_packet}
use alsa_jockey.Stream.Errors.{
  urb_check, urb_ok, urb_stopped, urb_error, AlsaCore, urb_error_give_up, note_completion,
}

-- A completed URB, the clock, and what `usb_submit_urb` will answer.
pub record Completion : Type 0 where
  pub status : Option Errno
  pub actual_length : ℕ
  pub transfer_buffer : Buffer
  pub now : ℕ
  pub submit_result : Option Errno

-- The stream after the callback; the length that was submitted, if the URB was taken.
pub record Done : Type 0 where
  pub stream : UrbStream
  pub submitted : Option ℕ

-- The end of both handlers: leave the safe zone, and resubmit unless the direction is stopping, gone
-- or given up.
unfoldable pub finish : Bool → Bool → ℕ → Option Errno → UrbStream → Done
finish disconnected active transfer_length submit_result s =
    let left = if active then record s { callbacks_active = s.callbacks_active - 1 } else s in
    if not left.stopping && not disconnected && ltb left.consec_errors max_urb_errors
    then elim submit_result [
      | none ↦ record {
        stream = record left { urbs_in_flight = left.urbs_in_flight + 1 };
        submitted = some transfer_length;
      }
      | some _ ↦ record { stream = left; submitted = none }
    ]
    else record { stream = left; submitted = none }

module _ (v : Variant) (codec : CodecState) (core : AlsaCore) where
  -- The packet loop; the flag is OR'd over the packets.
  unfoldable pub take_packets : ℕ → Buffer → UrbStream → Bool → UrbStream × Bool
  take_packets zero urb_buf s elapsed = (s, elapsed)
  take_packets (suc n) urb_buf s elapsed =
      let (s', one) = process_in_packet v codec s urb_buf in
      take_packets n (advance urb_buf pkt_size) s' (elapsed || one)

  -- Step 1, under the lock: whether data moved, whether the callback is in the safe zone, whether a
  -- period elapsed.
  unfoldable pub join_and_take : Bool → Completion → UrbStream → UrbStream × Bool × Bool × Bool
  join_and_take valid c s =
      let n_pkts = c.actual_length / pkt_size in
      let moved_data = valid && not (n_pkts == 0) && ltb s.consec_errors max_urb_errors in
      let s1 = if moved_data then record s { consec_errors = 0 } else s in
      if moved_data && not s1.stopping && s1.running && has_substream s1
      then (let (taken, elapsed) =
            take_packets (min n_pkts s1.n_pkts) c.transfer_buffer
              (record s1 { callbacks_active = s1.callbacks_active + 1 }) false in
          (taken, moved_data, true, elapsed))
      else (s1, moved_data, false, false)

  -- `snd_pcm_period_elapsed`, which may call back into .trigger.
  unfoldable pub period_elapsed : Bool → UrbStream → UrbStream
  period_elapsed elapsed s = if elapsed then record s { running = core.after_period s } else s

  -- The part behind the status check, with `data_valid` as that leaves it.
  unfoldable pub capture_completed : Bool → Bool → Completion → UrbStream → Done
  capture_completed disconnected valid c s =
      let (s1, moved_data, active, elapsed) = join_and_take valid c s in
      let s2 = if moved_data then note_completion s1 c.now else s1 in
      let s3 = period_elapsed elapsed s2 in
      finish disconnected active (s3.n_pkts * pkt_size) c.submit_result s3

  unfoldable pub capture_callback : Bool → Completion → UrbStream → Done
  capture_callback disconnected c s =
      let s0 = record s { urbs_in_flight = s.urbs_in_flight - 1 } in
      let (blamed, give_up) = urb_error_give_up core s0 in
      elim (urb_check c.status) [
        | urb_stopped ↦ record { stream = s0; submitted = none }
        | urb_error ↦
            if give_up || disconnected
            then record { stream = blamed; submitted = none }
            else capture_completed disconnected false c blamed
        | urb_ok ↦
            if disconnected
            then record { stream = s0; submitted = none }
            else capture_completed disconnected true c s0
      ]
