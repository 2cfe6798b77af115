-- ===== src/Stream/Playback/Callback.antt =====
-- What `jockey3_playback_callback` (jockey3.c) guarantees on every path through it.
use alsa_jockey.Prelude.{
  ℕ, zero, suc, ◌+◌, ◌-◌, ◌*◌, ◌≡◌, refl, arith, Bool, true, false, ltb, ◌&&◌, ◌||◌, if◌then◌else◌,
  Option, none, some,
}
use alsa_jockey.Codec.Memory.{Buffer, advance}
use alsa_jockey.Codec.Batch.{Variant, CodecState}
use alsa_jockey.Midi.Out.{MidiOut}
use alsa_jockey.Stream.State.{UrbStream, Runtime, max_urb_errors, pkt_size}
use alsa_jockey.Stream.Packet.{process_out_packet, fill_packet, dma_of}
use alsa_jockey.Stream.Errors.{
  UrbState, urb_check, urb_ok, urb_stopped, urb_error, AlsaCore, urb_error_give_up,
}
use alsa_jockey.Stream.Capture.{Completion}
use alsa_jockey.Stream.Handler.{
  IsSameRun, IsSameRun-refl, IsSameRun-trans, IsJoined, IsCompleted, handler_end-IsCompleted,
  one_if,
}
use alsa_jockey.Stream.Handler.Status.{IsHandled, handle, handle-IsHandled}
use alsa_jockey.Stream.Playback.{
  give_packets, join_and_give, Sent, playback_completed, playback_callback,
}

process_out_packet-IsSameRun :
    (v : Variant) (codec : CodecState) (s : UrbStream) (b : Buffer)
    → IsSameRun s (process_out_packet v codec s b).0
unfolding process_out_packet fill_packet
process_out_packet-IsSameRun v codec s b = by_dma (dma_of s)
  where
    by_dma :
        (d : Option (Runtime × Buffer))
        → IsSameRun s
            (elim d as (λ _. UrbStream × Buffer × Bool) [
              | none ↦ (s, b, false)
              | some x ↦ fill_packet v codec s x.0 x.1 b
            ]).0
    by_dma none = IsSameRun-refl s
    by_dma (some (r, dma)) = record {
      in_flight = refl;
      active = refl;
      errors = refl;
      halted = refl;
      committed = refl;
    }

give_packets-IsSameRun :
    (v : Variant) (codec : CodecState) (n : ℕ) (s : UrbStream) (b : Buffer) (e : Bool)
    → IsSameRun s (give_packets v codec n s b e).0
unfolding give_packets
give_packets-IsSameRun v codec zero s b e = IsSameRun-refl s
give_packets-IsSameRun v codec (suc n) s b e =
    let (s1, out, one) = process_out_packet v codec s b in
    IsSameRun-trans (process_out_packet-IsSameRun v codec s b)
      (give_packets-IsSameRun v codec n s1 (advance out pkt_size) (e || one))

module _ (v : Variant) (codec : CodecState) where
  pub join_and_give-IsJoined :
      (valid : Bool) (s : UrbStream) (b : Buffer)
      → let (t, out, moved, active, elapsed) = join_and_give v codec valid s b in
        IsJoined valid s t moved active
  unfolding join_and_give
  join_and_give-IsJoined valid s b =
      let moved = valid && ltb s.consec_errors max_urb_errors in
      let s1 : UrbStream = if moved then record s { consec_errors = 0 } else s in
      let given =
        give_packets-IsSameRun v codec s.n_pkts
          (record s1 { callbacks_active = s1.callbacks_active + 1 }) b false in
      record {
        in_flight = ground (arith, given.in_flight);
        joined = ground (arith, given.active);
        halted = ground (arith, given.halted);
        errors = ground (arith, given.errors);
        unusable = λ e. ground (arith);
        given_up = λ e. ground (arith);
        committed = ground (arith, given.committed);
      }

module _ {Src : Type 0} (transmit : Src → Option (ℕ × Src)) (v : Variant) (codec : CodecState)
    (core : AlsaCore) where
  pub playback_completed-IsCompleted :
      (gone valid : Bool) (c : Completion) (m : MidiOut Src) (s : UrbStream)
      → IsCompleted gone valid c.submit_result s
          (playback_completed transmit v codec core gone valid c m s).done
  unfolding playback_completed
  playback_completed-IsCompleted gone valid c m s =
      let (s1, audio, moved, active, elapsed) = join_and_give v codec valid s c.transfer_buffer in
      handler_end-IsCompleted v codec core gone valid moved active elapsed c.now
        (s.n_pkts * pkt_size) c.submit_result s s1
        (join_and_give-IsJoined v codec valid s c.transfer_buffer)

  -- The handler is the shared one around its own packet loop.
  by_status :
      (u : UrbState) (gone : Bool) (c : Completion) (m : MidiOut Src) (s : UrbStream)
      → let s0 = record s { urbs_in_flight = s.urbs_in_flight - 1 } in
        let (blamed, give_up) = urb_error_give_up core s0 in
        let returned : UrbStream → Sent Src = λ t. record {
          done = record { stream = t; submitted = none };
          out = c.transfer_buffer;
          midi = m;
        } in
        (elim u as (λ _. Sent Src) [
          | urb_stopped ↦ returned s0
          | urb_error ↦
              if give_up || gone
              then returned blamed
              else playback_completed transmit v codec core gone false c m blamed
          | urb_ok ↦
              if gone
              then returned s0
              else playback_completed transmit v codec core gone true c m s0
        ]).done
        ≡ handle core u gone
            (λ valid t. (playback_completed transmit v codec core gone valid c m t).done)
            s
  unfolding handle
  by_status urb_stopped gone c m s = refl
  by_status urb_error gone c m s = ground arith
  by_status urb_ok gone c m s = ground arith

  pub callback-IsHandled :
      (gone : Bool) (c : Completion) (m : MidiOut Src) (s : UrbStream)
      → IsHandled
          (urb_check c.status)
          gone
          c.submit_result
          s
          (playback_callback transmit v codec core gone c m s).done
  unfolding playback_callback
  callback-IsHandled gone c m s = rw (by_status (urb_check c.status) gone c m s) (
      handle-IsHandled core (urb_check c.status) gone c.submit_result
        (λ valid t. (playback_completed transmit v codec core gone valid c m t).done) s
        (λ valid t. playback_completed-IsCompleted gone valid c m t))

  -- A completed playback URB is counted down once, and up again exactly when it is taken back by
  -- usb_submit_urb; and the callback leaves the safe zone as often as it entered it.
  playback_callback-balance :
      (gone : Bool) (c : Completion) (m : MidiOut Src) (s : UrbStream)
      → let d = (playback_callback transmit v codec core gone c m s).done in
        (d.stream.urbs_in_flight ≡ s.urbs_in_flight - 1 + one_if d.submitted)
        × (d.stream.callbacks_active ≡ s.callbacks_active)
  playback_callback-balance gone c m s =
      let h = callback-IsHandled gone c m s in (h.in_flight, h.active)
