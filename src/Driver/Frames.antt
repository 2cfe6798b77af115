-- ===== src/Driver/Frames.antt =====
-- What the driver's operations (jockey3.c) leave alone: the rate and the directions' claims on it, the
-- budget for resets, the flag of the recovery ladder, and the number of resets asked for.
pub mod Recovery
use alsa_jockey.Prelude.{
  ℕ, zero, suc, ◌+◌, ◌-◌, ◌*◌, ◌≡◌, refl, sym, ap, ◌∙◌, arith, Bool, true, false, if◌then◌else◌,
  Option, none, some, List, [], ◌∷◌, ◌++◌, Bool-cases, inl, inr,
}
use alsa_jockey.Errno.{Errno}
use alsa_jockey.Stream.State.{
  UrbStream, Direction, playback_direction, capture_direction, get_pcm_urb_stream,
  set_pcm_urb_stream, pkt_size,
}
use alsa_jockey.Midi.Input.{MidiUrb}
use alsa_jockey.Stream.Capture.{Completion}
use alsa_jockey.Stream.Capture.Callback as CaptureCallback
use alsa_jockey.Stream.Playback.Callback as PlaybackCallback
use alsa_jockey.Driver.World.{
  Note, stall_onset, stall_recovered, stall_restarted, reset_asked, Event, pcm_urb, urb_completes,
  goes_away, goes_to_sleep, Host, World, unless_failed, set_env, add_note, urb_done, urbs_done,
  midi_in_done, happens, all_happen,
}
use alsa_jockey.Driver.Ring.{
  n_urbs, first_of, count_off, note_restart, drop_liveness, open_fence, stamp_start,
  watchdog_disarm, fence, watchdog_clear_stall, queue_watchdog, kill_urbs, stop_urbs,
  submit_pcm_urb, submit_urbs, submit_midi_in, open_fences, stamp, run_urbs, start_urbs,
}

abbrev pub asks_reset : Note → ℕ
asks_reset reset_asked = 1
asks_reset _ = 0

-- How many resets were asked for.
unfoldable pub resets : List Note → ℕ
resets [] = 0
resets (n ∷ ns) = asks_reset n + resets ns

pub resets-append : (ns ms : List Note) → resets (ns ++ ms) ≡ resets ns + resets ms
unfolding resets
resets-append [] ms = omega arith
resets-append (n ∷ ns) ms = omega (arith, resets-append ns ms)

-- A direction's claim on the rate, for both, and the rate.
pub record Claims : Type 0 where
  pub of_playback : Bool
  pub of_capture : Bool
  pub rate : ℕ

pub record Ledger : Type 0 where
  pub claims : Claims
  pub window : ℕ
  pub attempts : ℕ
  pub in_progress : Bool
  pub asked : ℕ

abbrev pub claims : {Env Src : Type 0} → World Env Src → Claims
claims w = record {
  of_playback = w.chip.playback.rate_committed;
  of_capture = w.chip.capture.rate_committed;
  rate = w.chip.current_rate;
}

abbrev pub ledger : {Env Src : Type 0} → World Env Src → Ledger
ledger w = record {
  claims = claims w;
  window = w.chip.recovery_window_start;
  attempts = w.chip.recovery_attempts;
  in_progress = w.chip.recovery_in_progress;
  asked = resets w.notes;
}

count_off-committed :
    (r : Option Errno) (s : UrbStream) → (count_off r s).rate_committed ≡ s.rate_committed
unfolding count_off
count_off-committed none s = refl
count_off-committed (some e) s = refl

note_restart-resets :
    (d : Direction) (b : Bool) (ns : List Note) → resets (note_restart d b ns) ≡ resets ns
unfolding note_restart resets
note_restart-resets d true ns = omega (arith, resets-append ns (stall_restarted d ∷ []))
note_restart-resets d false ns = refl

-- What holds of both branches holds of the one that is taken.
pub if_both :
    {A : Type 0} (P : A → Type 0) (b : Bool) {x y : A} → P x → P y → P (if b then x else y)
if_both P true p q = p
if_both P false p q = q

-- The same, knowing which branch it is.
pub if_cases :
    {A : Type 0} (P : A → Type 0) (b : Bool) {x y : A}
    → (b ≡ true → P x)
    → (b ≡ false → P y)
    → P (if b then x else y)
if_cases P true p q = p refl
if_cases P false p q = q refl

pub unless_failed_both :
    {A : Type 0} (P : A → Type 0) (r : Option Errno) {early : Errno → A} {next : A}
    → ((e : Errno) → P (early e))
    → P next
    → P (unless_failed r early next)
unfolding unless_failed
unless_failed_both P none p q = q
unless_failed_both P (some e) p q = p e

pub unless_failed_cases :
    {A : Type 0} (P : A → Type 0) (r : Option Errno) {early : Errno → A} {next : A}
    → ((e : Errno) → r ≡ some e → P (early e))
    → (r ≡ none → P next)
    → P (unless_failed r early next)
unfolding unless_failed
unless_failed_cases P none p q = q refl
unless_failed_cases P (some e) p q = p e refl

module _ {Env Src : Type 0} (host : Host Env Src) where
  urb_done-ledger :
      (d : Direction) (c : Completion) (w : World Env Src) → ledger (urb_done host d c w) ≡ ledger w
  unfolding urb_done
  urb_done-ledger playback_direction c w =
      ap (λ (b : Bool). record (ledger w) { claims = record (claims w) { of_playback = b } })
        (PlaybackCallback.callback-IsHandled host.transmit host.variant host.codec host.core
          w.chip.disconnected c w.midi w.chip.playback).committed
  urb_done-ledger capture_direction c w =
      ap (λ (b : Bool). record (ledger w) { claims = record (claims w) { of_capture = b } })
        (CaptureCallback.callback-IsHandled host.variant host.codec host.core w.chip.disconnected c
          w.chip.capture).committed

  urbs_done-ledger :
      (d : Direction) (cs : List Completion) (w : World Env Src)
      → ledger (urbs_done host d cs w) ≡ ledger w
  unfolding urbs_done
  urbs_done-ledger d [] w = refl
  urbs_done-ledger d (c ∷ cs) w =
      urbs_done-ledger d cs (urb_done host d c w) ∙ urb_done-ledger d c w

  midi_in_done-ledger :
      (u : Option MidiUrb) (w : World Env Src) → ledger (midi_in_done host u w) ≡ ledger w
  unfolding midi_in_done
  midi_in_done-ledger none w = refl
  midi_in_done-ledger (some u) w = refl

  pub happens-ledger : (e : Event) (w : World Env Src) → ledger (happens host e w) ≡ ledger w
  unfolding happens
  happens-ledger (urb_completes d c) w = urb_done-ledger d c w
  happens-ledger goes_away w = refl
  happens-ledger goes_to_sleep w = refl

  pub all_happen-ledger :
      (es : List Event) (w : World Env Src) → ledger (all_happen host es w) ≡ ledger w
  unfolding all_happen
  all_happen-ledger [] w = refl
  all_happen-ledger (e ∷ es) w = all_happen-ledger es (happens host e w) ∙ happens-ledger e w

  kill_urbs-ledger : (w : World Env Src) → ledger (kill_urbs host w) ≡ ledger w
  unfolding kill_urbs
  kill_urbs-ledger w =
      let (env, killed) = host.kill w.usb.device in
      let heard = midi_in_done host killed.midi_in (set_env w env) in
      let played = urbs_done host playback_direction killed.of_playback heard in
      urbs_done-ledger capture_direction killed.of_capture played
      ∙ urbs_done-ledger playback_direction killed.of_playback heard
      ∙ midi_in_done-ledger killed.midi_in (set_env w env)

  pub stop_urbs-ledger : (w : World Env Src) → ledger (stop_urbs host w) ≡ ledger w
  unfolding stop_urbs fence watchdog_disarm drop_liveness
  stop_urbs-ledger w = kill_urbs-ledger (fence (watchdog_disarm w))

  submit_pcm_urb-ledger :
      (d : Direction) (slot len : ℕ) (w : World Env Src)
      → ledger (submit_pcm_urb host d slot len w).0 ≡ ledger w
  unfolding submit_pcm_urb
  submit_pcm_urb-ledger playback_direction slot len w =
      ap (λ (b : Bool). record (ledger w) { claims = record (claims w) { of_playback = b } })
        (count_off-committed (host.submit w.usb.device (pcm_urb playback_direction slot len)).1 _)
  submit_pcm_urb-ledger capture_direction slot len w =
      ap (λ (b : Bool). record (ledger w) { claims = record (claims w) { of_capture = b } })
        (count_off-committed (host.submit w.usb.device (pcm_urb capture_direction slot len)).1 _)

  submit_urbs-ledger :
      (n p c : ℕ) (e : Option Errno) (w : World Env Src)
      → ledger (submit_urbs host n p c e w).0 ≡ ledger w
  unfolding submit_urbs
  submit_urbs-ledger zero p c e w = refl
  submit_urbs-ledger (suc n) p c e w =
      let (w1, e1) = submit_pcm_urb host playback_direction (n_urbs - suc n) p w in
      let (w2, e2) = submit_pcm_urb host capture_direction (n_urbs - suc n) c w1 in
      submit_urbs-ledger n p c (first_of (first_of e e1) e2) w2
      ∙ submit_pcm_urb-ledger capture_direction (n_urbs - suc n) c w1
      ∙ submit_pcm_urb-ledger playback_direction (n_urbs - suc n) p w

  watchdog_clear_stall-ledger :
      (d : Direction) (w : World Env Src) → ledger (watchdog_clear_stall d w) ≡ ledger w
  unfolding watchdog_clear_stall
  watchdog_clear_stall-ledger playback_direction w =
      ap (λ (n : ℕ). record (ledger w) { asked = n })
        (note_restart-resets playback_direction w.chip.playback.stall_reported w.notes)
  watchdog_clear_stall-ledger capture_direction w =
      ap (λ (n : ℕ). record (ledger w) { asked = n })
        (note_restart-resets capture_direction w.chip.capture.stall_reported w.notes)

  run_urbs-ledger : (warm : Bool) (w : World Env Src) → ledger (run_urbs host warm w).0 ≡ ledger w
  unfolding run_urbs open_fences open_fence stamp stamp_start submit_midi_in queue_watchdog
  run_urbs-ledger warm w =
      let played = watchdog_clear_stall playback_direction (open_fences w) in
      let stamped = stamp host warm (watchdog_clear_stall capture_direction played) in
      submit_urbs-ledger n_urbs (stamped.chip.playback.n_pkts * pkt_size)
        (stamped.chip.capture.n_pkts * pkt_size) none stamped
      ∙ watchdog_clear_stall-ledger capture_direction played
      ∙ watchdog_clear_stall-ledger playback_direction (open_fences w)

  pub start_urbs-ledger :
      (warm : Bool) (w : World Env Src) → ledger (start_urbs host warm w).0 ≡ ledger w
  unfolding start_urbs
  start_urbs-ledger warm w =
      let kept : World Env Src × Option Errno → Type 0 = λ r. ledger r.0 ≡ ledger w in
      if_both kept w.chip.disconnected refl
        (if_both kept w.chip.suspended refl (run_urbs-ledger warm w))
