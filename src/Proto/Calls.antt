-- ===== src/Proto/Calls.antt =====
-- The functions of ploytec_proto.c, each on the device as it stands and the calls made so far.
pub mod Order
pub mod Written
use alsa_jockey.Prelude.{
  ℕ, zero, suc, ◌+◌, ◌*◌, ◌/◌, ◌%◌, ◌^◌, ◌≡◌, refl, arith, List, [], ◌∷◌, ◌++◌, Option, none, some,
  Bool, true, false, if◌then◌else◌, u8, u32, bit_or, ◌==◌,
}
use alsa_jockey.Errno.{Errno}
use alsa_jockey.Proto.Session.{
  Transfer, control_recv, control_send, set_interface, clear_halt, usleep_range, Reply, failed,
  answered, Session, Result, err, ok, ctrl_ep_unresponsive, transfer, sleep,
}

-- `buf[i]` after a read of `bytes`.
unfoldable pub buf_at : List ℕ → ℕ → ℕ
buf_at [] i = 0
buf_at (b ∷ bs) zero = u8 b
buf_at (b ∷ bs) (suc i) = buf_at bs i

abbrev pub rate_idx_device : ℕ
rate_idx_device = 0

abbrev pub rate_idx_pcm_in : ℕ
rate_idx_pcm_in = 0x86

abbrev pub rate_idx_pcm_out : ℕ
rate_idx_pcm_out = 0x05

-- The three bytes of a rate, as they are written and as they are read.
unfoldable pub rate_bytes : ℕ → List ℕ
rate_bytes rate = u8 rate ∷ u8 (rate / 2 ^ 8) ∷ u8 (rate / 2 ^ 16) ∷ []

unfoldable pub rate_of : List ℕ → ℕ
rate_of buf = buf_at buf 0 + buf_at buf 1 * 2 ^ 8 + buf_at buf 2 * 2 ^ 16

-- The writes after the gap.
abbrev pub burst_index : List ℕ
burst_index =
    rate_idx_pcm_in ∷ rate_idx_pcm_out ∷ rate_idx_pcm_in ∷ rate_idx_pcm_out ∷ rate_idx_pcm_in ∷ []

-- PCM in, PCM out, MIDI in.
abbrev pub halt_pipes : List ℕ
halt_pipes = 0x86 ∷ 0x05 ∷ 0x83 ∷ []

abbrev pub firmware_read : Transfer
firmware_read = control_recv 0x56 0xc0 0 0 3

abbrev pub status_read : Transfer
status_read = control_recv 0x49 0xc0 0 0 1

abbrev pub rate_write : ℕ → ℕ → Transfer
rate_write rate index = control_send 0x01 0x22 0x0100 index (rate_bytes rate)

abbrev pub rate_read : ℕ → Transfer
rate_read index = control_recv 0x81 0xa2 0x0100 index 3

module _ {Dev : Type 0} (answer : Dev → Transfer → Dev × Reply) where
  -- A transfer whose error is returned at once, and what follows it.
  abbrev pub checked :
      {A : Type 0}
      → Transfer
      → (List ℕ → Session Dev → Session Dev × Result A)
      → Session Dev
      → Session Dev × Result A
  checked t next s = elim ((transfer answer t s).1) [
    | failed e ↦ ((transfer answer t s).0, err e)
    | answered bs ↦ next bs ((transfer answer t s).0)
  ]

  unfoldable pub get_firmware : Session Dev → Session Dev × Result ℕ
  get_firmware =
      checked firmware_read
        λ buf s. (s, ok (buf_at buf 0 * 2 ^ 16 + buf_at buf 1 * 2 ^ 8 + buf_at buf 2))

  unfoldable pub get_status : Session Dev → Session Dev × Result ℕ
  get_status = checked status_read λ buf s. (s, ok (buf_at buf 0))

  -- The halts, of which only a silent endpoint 0 ends the loop.
  unfoldable pub clear_halts : List ℕ → Session Dev → Session Dev × Option Errno
  clear_halts [] s = (s, none)
  clear_halts (pipe ∷ pipes) s =
      let (s1, reply) = transfer answer (clear_halt pipe) s in
      let rest = clear_halts pipes s1 in
      elim reply [
        | answered _ ↦ rest
        | failed e ↦ if ctrl_ep_unresponsive e then (s1, some e) else rest
      ]

  -- From alternate setting 1 on.
  unfoldable pub activate : Session Dev → Session Dev × Result ℕ
  activate = checked (set_interface 0 1) λ _. checked (set_interface 1 1) λ _ s.
      let (s1, halted) = clear_halts halt_pipes (sleep answer 25 35 s) in
      elim halted [
        | some e ↦ (s1, err e)
        | none ↦ ((get_status s1).0, elim ((get_status s1).1) [ err e ↦ err e | ok _ ↦ ok 0 ])
      ]

  unfoldable pub bounce : Session Dev → Session Dev × Result ℕ
  bounce =
      checked (set_interface 1 0)
        λ _. checked (set_interface 0 0) λ _ s. activate (sleep answer 3000 5000 s)

  -- Besides the result, the firmware version if it was read: it goes to the caller's `fw_version`.
  unfoldable pub initialize_device : Bool → Session Dev → Session Dev × Result ℕ × Option ℕ
  initialize_device bounce_alt0 s =
      let (s1, fw) = get_firmware s in
      let (s2, result) = if bounce_alt0 then bounce s1 else activate s1 in
      elim fw [
        | ok version ↦ (s2, result, some version)
        | err e ↦ if ctrl_ep_unresponsive e then (s1, err e, none) else (s2, result, none)
      ]

  unfoldable pub start_streaming : Session Dev → Session Dev × Result ℕ
  start_streaming s =
      let (s1, status) = get_status s in
      elim status [
        | err e ↦ (s1, err e)
        | ok b ↦ checked (control_send 0x49 0x40 (bit_or b 0x20) 0 []) (λ _ s2. (s2, ok 0)) s1
      ]

  unfoldable pub get_rate : ℕ → Session Dev → Session Dev × Result ℕ
  get_rate index = checked (rate_read index) λ buf s. (s, ok (rate_of buf))

  unfoldable pub rate_burst : List ℕ → ℕ → Session Dev → Session Dev × Result ℕ
  rate_burst [] rate s = (s, ok 0)
  rate_burst (index ∷ later) rate s =
      checked (rate_write rate index) (λ _ s1. rate_burst later rate s1) s

  -- From the burst on; the verification's outcome is only logged.
  unfoldable pub burst_and_verify : ℕ → Session Dev → Session Dev × Result ℕ
  burst_and_verify rate s =
      let (s1, burst) = rate_burst burst_index rate s in
      elim burst [
        | err e ↦ (s1, err e)
        | ok _ ↦ (sleep answer 50000 51000 (get_rate rate_idx_pcm_in s1).0, ok 0)
      ]

  unfoldable pub set_rate : ℕ → Bool → Session Dev → Session Dev × Result ℕ
  set_rate rate cold_init s =
      if cold_init
      then burst_and_verify rate (sleep answer 14000 15000 s)
      else checked (rate_write rate rate_idx_pcm_in)
          (λ _ s1. burst_and_verify rate (sleep answer 10000 11000 s1)) (sleep answer 50000 51000 s)
