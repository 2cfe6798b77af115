-- ===== src/Driver/Ring/Submits.antt =====
-- What the submits of a start (`jockey3_start_urbs`, jockey3.c) do to the counts of both rings.
use alsa_jockey.Prelude.{
  ℕ, zero, suc, ◌+◌, ◌-◌, ◌≤◌, ◌≡◌, refl, ap, ◌∙◌, arith, Bool, true, false, Option, none, some,
}
use alsa_jockey.Errno.{Errno}
use alsa_jockey.Stream.State.{UrbStream, playback_direction, capture_direction}
use alsa_jockey.Driver.World.{Host, World, pcm_urb}
use alsa_jockey.Driver.Ring.{n_urbs, first_of, count_off, submit_pcm_urb, submit_urbs}

-- What the submits leave alone: the fences, the error budgets, the stalls that are reported.
pub record Fences : Type 0 where
  pub playback_halted : Bool
  pub capture_halted : Bool
  pub midi_halted : Bool
  pub playback_errors : ℕ
  pub capture_errors : ℕ
  pub midi_errors : ℕ
  pub playback_stalled : Bool
  pub capture_stalled : Bool

abbrev pub fences : {Env Src : Type 0} → World Env Src → Fences
fences w = record {
  playback_halted = w.chip.playback.stopping;
  capture_halted = w.chip.capture.stopping;
  midi_halted = w.chip.midi_stopping;
  playback_errors = w.chip.playback.consec_errors;
  capture_errors = w.chip.capture.consec_errors;
  midi_errors = w.chip.midi_consec_errors;
  playback_stalled = w.chip.playback.stall_reported;
  capture_stalled = w.chip.capture.stall_reported;
}

abbrev pub all_open : Fences
all_open = record {
  playback_halted = false;
  capture_halted = false;
  midi_halted = false;
  playback_errors = 0;
  capture_errors = 0;
  midi_errors = 0;
  playback_stalled = false;
  capture_stalled = false;
}

abbrev pub is_queued : Option ℕ → Bool
is_queued none = false
is_queued (some delay_ms) = true

-- A URB that is in flight, or was refused.
abbrev pub one_unless : Option Errno → ℕ
one_unless none = 1
one_unless (some e) = 0

-- The count, and the rest of a stream that the submits touch.
count_off_lem :
    (r : Option Errno) (s : UrbStream)
    → count_off r (record s { urbs_in_flight = s.urbs_in_flight + 1 })
      ≡ record s { urbs_in_flight = s.urbs_in_flight + one_unless r }
unfolding count_off
count_off_lem none s = refl
count_off_lem (some e) s = ap (λ (n : ℕ). record s { urbs_in_flight = n }) (omega arith)

-- The URBs that are in flight in both directions, behind `n` submits to each.
pub record IsSubmitted {Env Src : Type 0} (n : ℕ) (e r : Option Errno) (w v : World Env Src)
    : Type 0 where
  pub fenced : fences v ≡ fences w
  pub playback_least : w.chip.playback.urbs_in_flight ≤ v.chip.playback.urbs_in_flight
  pub playback_most : v.chip.playback.urbs_in_flight ≤ w.chip.playback.urbs_in_flight + n
  pub capture_least : w.chip.capture.urbs_in_flight ≤ v.chip.capture.urbs_in_flight
  pub capture_most : v.chip.capture.urbs_in_flight ≤ w.chip.capture.urbs_in_flight + n
  pub was_well : r ≡ none → e ≡ none
  pub playback_full : r ≡ none → v.chip.playback.urbs_in_flight ≡ w.chip.playback.urbs_in_flight + n
  pub capture_full : r ≡ none → v.chip.capture.urbs_in_flight ≡ w.chip.capture.urbs_in_flight + n

pub first_of-none : (a b : Option Errno) → first_of a b ≡ none → (a ≡ none) × (b ≡ none)
first_of-none none b e = (refl, e)
first_of-none (some x) b e = grind arith

one_unless-bounds : (r : Option Errno) → (one_unless r ≤ 1) × (r ≡ none → one_unless r ≡ 1)
one_unless-bounds none = (omega arith, λ _. refl)
one_unless-bounds (some e) = (omega arith, λ k. grind arith)

module _ {Env Src : Type 0} (host : Host Env Src) where
  -- One slot of both rings.
  pair-IsSubmitted :
      (slot p c : ℕ) (e : Option Errno) (w : World Env Src)
      → let (w1, e1) = submit_pcm_urb host playback_direction slot p w in
        let (w2, e2) = submit_pcm_urb host capture_direction slot c w1 in
        IsSubmitted 1 e (first_of (first_of e e1) e2) w w2
  unfolding submit_pcm_urb
  pair-IsSubmitted slot p c e w =
      let (env, e1) = host.submit w.usb.device (pcm_urb playback_direction slot p) in
      let (env2, e2) = host.submit env (pcm_urb capture_direction slot c) in
      let cp = count_off_lem e1 w.chip.playback in
      let cc = count_off_lem e2 w.chip.capture in
      let b1 = one_unless-bounds e1 in
      let b2 = one_unless-bounds e2 in
      let well = first_of-none (first_of e e1) e2 in
      let well_first = first_of-none e e1 in
      rw (cp, cc)
        (record {
          fenced = refl;
          playback_least = omega arith;
          playback_most = omega (arith, b1.0);
          capture_least = omega arith;
          capture_most = omega (arith, b2.0);
          was_well = λ k. (well_first (well k).0).0;
          playback_full = λ k. omega (arith, b1.1 (well_first (well k).0).1);
          capture_full = λ k. omega (arith, b2.1 (well k).1);
        })

  pub submit_urbs-IsSubmitted :
      (n p c : ℕ) (e : Option Errno) (w : World Env Src)
      → let (v, r) = submit_urbs host n p c e w in IsSubmitted n e r w v
  unfolding submit_urbs
  submit_urbs-IsSubmitted zero p c e w = record {
    fenced = refl;
    playback_least = omega arith;
    playback_most = omega arith;
    capture_least = omega arith;
    capture_most = omega arith;
    was_well = λ k. k;
    playback_full = λ _. omega arith;
    capture_full = λ _. omega arith;
  }
  submit_urbs-IsSubmitted (suc n) p c e w =
      let (w1, e1) = submit_pcm_urb host playback_direction (n_urbs - suc n) p w in
      let (w2, e2) = submit_pcm_urb host capture_direction (n_urbs - suc n) c w1 in
      let one = pair-IsSubmitted (n_urbs - suc n) p c e w in
      let more = submit_urbs-IsSubmitted n p c (first_of (first_of e e1) e2) w2 in
      record {
        fenced = more.fenced ∙ one.fenced;
        playback_least = omega (arith, one.playback_least, more.playback_least);
        playback_most = omega (arith, one.playback_most, more.playback_most);
        capture_least = omega (arith, one.capture_least, more.capture_least);
        capture_most = omega (arith, one.capture_most, more.capture_most);
        was_well = λ k. one.was_well (more.was_well k);
        playback_full =
            λ k. omega (arith, more.playback_full k, one.playback_full (more.was_well k));
        capture_full = λ k. omega (arith, more.capture_full k, one.capture_full (more.was_well k));
      }
