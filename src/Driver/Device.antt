-- ===== src/Driver/Device.antt =====
-- The driver's own sequences on the device (jockey3.c): `jockey3_set_rate`,
-- `jockey3_initialize_ploytec`, and the publication of a new rate.
pub mod Programmed
use alsa_jockey.Prelude.{ℕ, Bool, false, not, if◌then◌else◌, Option, none, some}
use alsa_jockey.Errno.{Errno, enodev}
use alsa_jockey.Proto.Session.{Transfer, Reply, Session, Result, err, ok}
use alsa_jockey.Proto.Calls.{
  initialize_device, get_rate, set_rate, start_streaming, rate_idx_device,
}
use alsa_jockey.Midi.Out.{set_current_rate}
use alsa_jockey.Driver.World.{Host, World}

-- A call whose error is returned at once, and what follows it.
abbrev pub and_then :
    {Dev A : Type 0}
    → Session Dev × Result A
    → (Session Dev → Session Dev × Option Errno)
    → Session Dev × Option Errno
and_then (s, err e) next = (s, some e)
and_then (s, ok _) next = next s

module _ {Dev : Type 0} (answer : Dev → Transfer → Dev × Reply) where
  -- The transfers of `jockey3_set_rate`.
  unfoldable pub program_rate : ℕ → Bool → Session Dev → Session Dev × Option Errno
  program_rate rate cold_init s =
      let (s1, ready, fw) = initialize_device answer (not cold_init) s in
      and_then (s1, ready)
        λ s1. and_then (get_rate answer rate_idx_device s1) λ s2.
          and_then (set_rate answer rate cold_init s2)
            λ s3. and_then (start_streaming answer s3) λ s4. (s4, none)

  -- The transfers of `jockey3_initialize_ploytec`.
  unfoldable pub program_start : Session Dev → Session Dev × Option Errno
  program_start s =
      let (s1, ready, fw) = initialize_device answer false s in
      and_then (s1, ready) λ s1. and_then (start_streaming answer s1) λ s2. (s2, none)

module _ {Env Src : Type 0} (host : Host Env Src) where
  unfoldable pub jockey3_set_rate : ℕ → Bool → World Env Src → World Env Src × Option Errno
  jockey3_set_rate rate cold_init w =
      let (usb, failed) = program_rate host.answer rate cold_init w.usb in
      if w.chip.disconnected then (w, some enodev) else (record w { usb = usb }, failed)

  unfoldable pub initialize_ploytec : World Env Src → World Env Src × Option Errno
  initialize_ploytec w =
      let (usb, failed) = program_start host.answer w.usb in
      if w.chip.disconnected then (w, some enodev) else (record w { usb = usb }, failed)

module _ {Env Src : Type 0} where
  -- `jockey3_set_current_rate`.
  unfoldable pub publish_rate : ℕ → World Env Src → World Env Src
  publish_rate rate w = record w {
    chip = record (w.chip) { current_rate = rate };
    midi = set_current_rate w.midi rate;
  }
