-- ===== src/Driver/Ring/Quiet.antt =====
-- What `jockey3_stop_urbs` (jockey3.c) leaves: nothing in flight, behind closed fences.
use alsa_jockey.Prelude.{
  ℕ, suc, ◌≡◌, refl, ap, sym, ◌∙◌, arith, Bool, true, false, Option, none, some, List, [], ◌∷◌,
  length,
}
use alsa_jockey.Midi.Input.{MidiUrb}
use alsa_jockey.Stream.State.{UrbStream, Direction, playback_direction, capture_direction}
use alsa_jockey.Errno.{Errno}
use alsa_jockey.Stream.Errors.{UrbState}
use alsa_jockey.Stream.Capture.{Completion, Done, capture_callback}
use alsa_jockey.Stream.Playback.{playback_callback}
use alsa_jockey.Stream.Handler.{one_if}
use alsa_jockey.Stream.Handler.Status.{IsHandled}
use alsa_jockey.Stream.Capture.Callback as CaptureCallback
use alsa_jockey.Stream.Playback.Callback as PlaybackCallback
use alsa_jockey.Recovery.Liveness.{check_urb_stream_alive}
use alsa_jockey.Driver.World.{Host, World, set_env, urb_done, urbs_done, midi_in_done}
use alsa_jockey.Driver.Ring.{drop_liveness, watchdog_disarm, fence, kill_urbs, stop_urbs}

-- What a handler leaves alone besides its own direction.
pub record Rest : Type 0 where
  pub midi_halted : Bool
  pub gone : Bool
  pub asleep : Bool
  pub due : Option ℕ

abbrev pub rest : {Env Src : Type 0} → World Env Src → Rest
rest w = record {
  midi_halted = w.chip.midi_stopping;
  gone = w.chip.disconnected;
  asleep = w.chip.suspended;
  due = w.watchdog_due;
}

-- A direction that is being stopped, with that many URBs out.
pub record IsHalted (s : UrbStream) (n : ℕ) : Type 0 where
  pub halted : s.stopping ≡ true
  pub out : s.urbs_in_flight ≡ n

handled-IsHalted :
    {u : UrbState} {gone : Bool} {r : Option Errno} {s : UrbStream} (d : Done) (n : ℕ)
    → IsHandled u gone r s d
    → IsHalted s (suc n)
    → IsHalted d.stream n
handled-IsHalted d n h i = record {
  halted = h.halted ∙ i.halted;
  out = omega (arith, h.in_flight, i.out, not_taken);
}
  where
    not_taken : one_if d.submitted ≡ 0
    not_taken = unfold one_if in ap one_if (h.stopping_end i.halted)

module _ {Env Src : Type 0} (host : Host Env Src) where
  urbs_done-rest :
      (d : Direction) (cs : List Completion) (w : World Env Src)
      → rest (urbs_done host d cs w) ≡ rest w
  unfolding urbs_done urb_done
  urbs_done-rest d [] w = refl
  urbs_done-rest playback_direction (c ∷ cs) w =
      urbs_done-rest playback_direction cs (urb_done host playback_direction c w)
  urbs_done-rest capture_direction (c ∷ cs) w =
      urbs_done-rest capture_direction cs (urb_done host capture_direction c w)

  capture_done-playback :
      (cs : List Completion) (w : World Env Src)
      → (urbs_done host capture_direction cs w).chip.playback ≡ w.chip.playback
  unfolding urbs_done urb_done
  capture_done-playback [] w = refl
  capture_done-playback (c ∷ cs) w = capture_done-playback cs (urb_done host capture_direction c w)

  playback_done-capture :
      (cs : List Completion) (w : World Env Src)
      → (urbs_done host playback_direction cs w).chip.capture ≡ w.chip.capture
  unfolding urbs_done urb_done
  playback_done-capture [] w = refl
  playback_done-capture (c ∷ cs) w = playback_done-capture cs (urb_done host playback_direction c w)

  -- Each URB that is handed back to a direction which is being stopped is out no more.
  playback_done-IsHalted :
      (cs : List Completion) (w : World Env Src)
      → IsHalted w.chip.playback (length cs)
      → IsHalted (urbs_done host playback_direction cs w).chip.playback 0
  unfolding urbs_done urb_done
  playback_done-IsHalted [] w i = i
  playback_done-IsHalted (c ∷ cs) w i =
      let sent =
        playback_callback host.transmit host.variant host.codec host.core w.chip.disconnected c
          w.midi w.chip.playback in
      playback_done-IsHalted cs (urb_done host playback_direction c w) (
        handled-IsHalted sent.done (length cs)
          (PlaybackCallback.callback-IsHandled host.transmit host.variant host.codec host.core
            w.chip.disconnected c w.midi w.chip.playback)
          i)

  capture_done-IsHalted :
      (cs : List Completion) (w : World Env Src)
      → IsHalted w.chip.capture (length cs)
      → IsHalted (urbs_done host capture_direction cs w).chip.capture 0
  unfolding urbs_done urb_done
  capture_done-IsHalted [] w i = i
  capture_done-IsHalted (c ∷ cs) w i =
      let done =
        capture_callback host.variant host.codec host.core w.chip.disconnected c w.chip.capture in
      capture_done-IsHalted cs (urb_done host capture_direction c w) (
        handled-IsHalted done (length cs)
          (CaptureCallback.callback-IsHandled host.variant host.codec host.core w.chip.disconnected
            c w.chip.capture)
          i)

  midi_in_done-rest :
      (u : Option MidiUrb) (w : World Env Src) → rest (midi_in_done host u w) ≡ rest w
  unfolding midi_in_done
  midi_in_done-rest none w = refl
  midi_in_done-rest (some u) w = refl

  midi_in_done-streams :
      (u : Option MidiUrb) (w : World Env Src)
      → ((midi_in_done host u w).chip.playback ≡ w.chip.playback)
        × ((midi_in_done host u w).chip.capture ≡ w.chip.capture)
  unfolding midi_in_done
  midi_in_done-streams none w = (refl, refl)
  midi_in_done-streams (some u) w = (refl, refl)

  -- `usb_kill_anchored_urbs` hands back every URB that is out.
  abbrev pub IsKilling : World Env Src → Type 0
  IsKilling w =
      let (env, killed) = host.kill w.usb.device in
      (length killed.of_playback ≡ w.chip.playback.urbs_in_flight)
      × (length killed.of_capture ≡ w.chip.capture.urbs_in_flight)

  kill_urbs-rest : (w : World Env Src) → rest (kill_urbs host w) ≡ rest w
  unfolding kill_urbs
  kill_urbs-rest w =
      let (env, killed) = host.kill w.usb.device in
      let heard = midi_in_done host killed.midi_in (set_env w env) in
      let played = urbs_done host playback_direction killed.of_playback heard in
      urbs_done-rest capture_direction killed.of_capture played
      ∙ urbs_done-rest playback_direction killed.of_playback heard
      ∙ midi_in_done-rest killed.midi_in (set_env w env)

  kill_urbs-IsHalted :
      (w : World Env Src)
      → IsKilling w
      → w.chip.playback.stopping ≡ true
      → w.chip.capture.stopping ≡ true
      → IsHalted (kill_urbs host w).chip.playback 0 × IsHalted (kill_urbs host w).chip.capture 0
  unfolding kill_urbs
  kill_urbs-IsHalted w (p, c) e f =
      let (env, killed) = host.kill w.usb.device in
      let heard = midi_in_done host killed.midi_in (set_env w env) in
      let played = urbs_done host playback_direction killed.of_playback heard in
      let (hp, hc) = midi_in_done-streams killed.midi_in (set_env w env) in
      let kept_p = capture_done-playback killed.of_capture played in
      let kept_c = playback_done-capture killed.of_playback heard in
      (
        rw kept_p (
            playback_done-IsHalted killed.of_playback heard
              (rw hp (record { halted = e; out = sym p }))),
        capture_done-IsHalted killed.of_capture played
            (rw (kept_c, hc) (record { halted = f; out = sym c })),
      )

  -- Where the usb core hands back every URB of both rings, stop_urbs leaves none in flight, both
  -- directions and MIDI IN behind closed fences, no run of the watchdog queued, and no clock by
  -- which a stopped stream would count as alive; it marks the device neither as gone nor as
  -- suspended.
  pub stop_urbs-quiet :
      (now : ℕ) (w : World Env Src)
      → IsKilling w
      → let v = stop_urbs host w in
        IsHalted v.chip.playback 0
        × IsHalted v.chip.capture 0
        × (rest v ≡ record (rest w) { midi_halted = true; due = none })
        × (check_urb_stream_alive now v.chip.playback ≡ false)
        × (check_urb_stream_alive now v.chip.capture ≡ false)
  unfolding stop_urbs drop_liveness fence watchdog_disarm check_urb_stream_alive
  stop_urbs-quiet now w k =
      let (p, c) = kill_urbs-IsHalted (fence (watchdog_disarm w)) k refl refl in
      (
        record { halted = p.halted; out = p.out },
        record { halted = c.halted; out = c.out },
        kill_urbs-rest (fence (watchdog_disarm w)),
        refl,
        refl,
      )
