-- ===== src/Driver/Device/Programmed.antt =====
-- What `jockey3_set_rate` (jockey3.c) has written to the device where it returns 0, and that the start
-- of the rings makes no call on endpoint 0.
use alsa_jockey.Prelude.{
  ℕ, zero, suc, ◌-◌, ◌*◌, ◌≡◌, refl, sym, ap, subst, ◌∙◌, Bool, true, false, Option, none,
}
use alsa_jockey.Errno.{Errno}
use alsa_jockey.Stream.State.{playback_direction, capture_direction, pkt_size}
use alsa_jockey.Proto.Session.{Transfer, Reply, Session, Result, err, ok}
use alsa_jockey.Proto.Calls.{
  initialize_device, get_rate, set_rate, start_streaming, rate_idx_device,
}
use alsa_jockey.Proto.Calls.Order.{vendor_burst}
use alsa_jockey.Proto.Calls.Written.{
  IsWritten, set_rate-IsWritten, start_streaming-Extends, Extends-IsWritten,
}
use alsa_jockey.Driver.World.{Host, World}
use alsa_jockey.Driver.Device.{and_then, program_rate, jockey3_set_rate}
use alsa_jockey.Driver.Ring.{
  n_urbs, first_of, submit_pcm_urb, submit_urbs, submit_midi_in, open_fences, stamp,
  watchdog_clear_stall, queue_watchdog, run_urbs, start_urbs,
}
use alsa_jockey.Driver.Frames.{if_both}

and_then-none :
    {Dev A : Type 0} (p : Session Dev × Result A) (next : Session Dev → Session Dev × Option Errno)
    → (and_then p next).1 ≡ none
    → (x : A) × (p.1 ≡ ok x) × (and_then p next ≡ next p.0)
and_then-none (s, err e) next k = cc
and_then-none (s, ok x) next k = (x, refl, refl)

module _ {Dev : Type 0} (answer : Dev → Transfer → Dev × Reply) where
  program_rate-IsWritten :
      (rate : ℕ) (s : Session Dev)
      → (program_rate answer rate true s).1 ≡ none
      → IsWritten (vendor_burst rate) (program_rate answer rate true s).0.log
  unfolding program_rate
  program_rate-IsWritten rate s k =
      let (s1, ready, fw) = initialize_device answer false s in
      let last : Session Dev → Session Dev × Option Errno = λ a. (a, none) in
      let stream : Session Dev → Session Dev × Option Errno =
        λ a. and_then (start_streaming answer a) last in
      let write : Session Dev → Session Dev × Option Errno =
        λ a. and_then (set_rate answer rate true a) stream in
      let read : Session Dev → Session Dev × Option Errno =
        λ a. and_then (get_rate answer rate_idx_device a) write in
      let result : Session Dev × Option Errno → Option Errno = λ r. r.1 in
      let (_, _, e1) = and_then-none (s1, ready) read k in
      let k1 = sym (ap result e1) ∙ k in
      let s2 = (get_rate answer rate_idx_device s1).0 in
      let (_, _, e2) = and_then-none (get_rate answer rate_idx_device s1) write k1 in
      let k2 = sym (ap result e2) ∙ k1 in
      let s3 = (set_rate answer rate true s2).0 in
      let (x, programmed, e3) = and_then-none (set_rate answer rate true s2) stream k2 in
      let (_, _, e4) = and_then-none (start_streaming answer s3) last (sym (ap result e3) ∙ k2) in
      subst (λ (r : Session Dev × Option Errno). IsWritten (vendor_burst rate) r.0.log)
        (sym (e1 ∙ e2 ∙ e3 ∙ e4))
        (Extends-IsWritten (vendor_burst rate) (set_rate-IsWritten answer rate s2 x programmed)
          (start_streaming-Extends answer s3))

module _ {Env Src : Type 0} (host : Host Env Src) where
  -- A cold start of the rate that returns 0 has made the vendor's burst.
  pub set_rate-IsProgrammed :
      (rate : ℕ) (w : World Env Src)
      → (jockey3_set_rate host rate true w).1 ≡ none
      → IsWritten (vendor_burst rate) (jockey3_set_rate host rate true w).0.usb.log
  unfolding jockey3_set_rate
  set_rate-IsProgrammed rate w =
      if_both
        (λ (r : World Env Src × Option Errno).
          r.1 ≡ none → IsWritten (vendor_burst rate) r.0.usb.log)
        w.chip.disconnected (λ k. cc) (program_rate-IsWritten host.answer rate w.usb)

  submit_urbs-log :
      (n p c : ℕ) (e : Option Errno) (w : World Env Src)
      → (submit_urbs host n p c e w).0.usb.log ≡ w.usb.log
  unfolding submit_urbs submit_pcm_urb
  submit_urbs-log zero p c e w = refl
  submit_urbs-log (suc n) p c e w =
      let (w1, e1) = submit_pcm_urb host playback_direction (n_urbs - suc n) p w in
      let (w2, e2) = submit_pcm_urb host capture_direction (n_urbs - suc n) c w1 in
      submit_urbs-log n p c (first_of (first_of e e1) e2) w2

  pub start_urbs-log :
      (warm : Bool) (w : World Env Src) → (start_urbs host warm w).0.usb.log ≡ w.usb.log
  unfolding start_urbs run_urbs open_fences stamp submit_midi_in queue_watchdog watchdog_clear_stall
  start_urbs-log warm w =
      let kept : World Env Src × Option Errno → Type 0 = λ r. r.0.usb.log ≡ w.usb.log in
      let stamped = stamp host warm (
        watchdog_clear_stall capture_direction
          (watchdog_clear_stall playback_direction (open_fences w))) in
      if_both kept w.chip.disconnected refl (
        if_both kept w.chip.suspended refl (
          submit_urbs-log n_urbs (stamped.chip.playback.n_pkts * pkt_size)
            (stamped.chip.capture.n_pkts * pkt_size) none stamped))
