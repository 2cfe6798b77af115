-- ===== src/Driver/Ladder/Resets.antt =====
-- How many USB resets the recovery ladder (`jockey3_recover_urb_stream`, jockey3.c) asks for.
use alsa_jockey.Prelude.{
  ℕ, ◌+◌, ◌*◌, ◌^◌, ◌≤◌, ◌<◌, ◌≡◌, refl, sym, ap, subst, ◌∙◌, arith, true, false, ltb, ◌==◌, ◌||◌,
  if◌then◌else◌, Option, [], ◌∷◌, Bool-cases, inl, inr,
}
use alsa_jockey.Errno.{Errno}
use alsa_jockey.Stream.State.{Direction, nsec_per_msec}
use alsa_jockey.Recovery.Clock.{sub64}
use alsa_jockey.Recovery.Budget.{recovery_budget_take, recovery_max_attempts, recovery_window_ms}
use alsa_jockey.Driver.World.{reset_asked, Host, World}
use alsa_jockey.Driver.Reset.{queue_reset, wait_reset_done}
use alsa_jockey.Driver.Ladder.{
  is_alive, wait_urb_stream_started, report_xruns, restart, reset_and_look, escalate, climb,
  run_recovery_ladder, set_in_progress, recover_urb_stream,
}
use alsa_jockey.Driver.Frames.{
  resets, resets-append, Ledger, ledger, if_both, if_cases, unless_failed_both,
}
use alsa_jockey.Driver.Frames.Recovery.{
  wait_reset_done-ledger, wait_urb_stream_started-ledger, restart-ledger, report_xruns-ledger,
}

-- What a ladder does to the budget and to the number of resets: nothing; a fresh window is opened
-- with its first attempt; or one more attempt is counted, with a reset while they are at most 3.
pub data IsSpent (a b : Ledger) : Type 0 where
  unspent : b.window ≡ a.window → b.attempts ≡ a.attempts → b.asked ≡ a.asked → IsSpent a b
  fresh :
      (b.window ≡ a.window → a.window ≡ 0) → b.attempts ≡ 1 → b.asked ≤ a.asked + 1 → IsSpent a b
  counted :
      b.window ≡ a.window
      → b.attempts ≡ a.attempts + 1
      → b.asked ≤ a.asked + (if ltb a.attempts recovery_max_attempts then 1 else 0)
      → IsSpent a b

pub record IsLadder (a b : Ledger) : Type 0 where
  pub claims : b.claims ≡ a.claims
  pub in_progress : b.in_progress ≡ a.in_progress
  pub spent : IsSpent a b

-- The same of a call, whatever the count of attempts is.
pub record IsClimbed (a b : Ledger) : Type 0 where
  pub claims : b.claims ≡ a.claims
  pub in_progress : b.in_progress ≡ a.in_progress
  pub spent : a.attempts + 1 < 2 ^ 31 → IsSpent a b

-- The flag is raised around the ladder.
lowered :
    {a b : Ledger}
    → a.in_progress ≡ false
    → IsClimbed (record a { in_progress = true }) b
    → IsClimbed a (record b { in_progress = false })
lowered e l = record {
  claims = l.claims;
  in_progress = sym e;
  spent = λ h. by_spending (l.spent h);
}
  where
    by_spending :
        {a b : Ledger}
        → IsSpent (record a { in_progress = true }) b
        → IsSpent a (record b { in_progress = false })
    by_spending (unspent x y z) = unspent x y z
    by_spending (fresh x y z) = fresh x y z
    by_spending (counted x y z) = counted x y z

-- A ledger that is kept.
kept : {a b : Ledger} → b ≡ a → IsClimbed a b
kept e = record {
  claims = ap (λ (l : Ledger). l.claims) e;
  in_progress = ap (λ (l : Ledger). l.in_progress) e;
  spent = λ _.
      unspent (ap (λ (l : Ledger). l.window) e) (ap (λ (l : Ledger). l.attempts) e)
        (ap (λ (l : Ledger). l.asked) e);
}

module _ {Env Src : Type 0} where
  take-IsClimbed :
      (now : ℕ) (w : World Env Src) (asked : ℕ)
      → asked ≤ resets w.notes + (if (recovery_budget_take now w.chip).1 then 1 else 0)
      → IsClimbed
          (ledger w)
          (record (ledger (record w { chip = (recovery_budget_take now w.chip).0 })) {
            asked = asked;
          })
  unfolding recovery_budget_take
  take-IsClimbed now w asked le =
      let window_start = w.chip.recovery_window_start in
      let expired =
        (window_start == 0) || ltb (recovery_window_ms * nsec_per_msec) (sub64 now window_start) in
      elim (Bool-cases expired) [
        | inl it ↦ rw it (record {
          claims = refl;
          in_progress = refl;
          spent = λ h. fresh (λ e. ground (arith, it, e)) refl (ground (arith, le, it));
        })
        | inr it ↦ rw it (record {
          claims = refl;
          in_progress = refl;
          spent = λ h. counted refl (omega arith) (ground (arith, le, it));
        })
      ]

  queue_reset-ledger :
      (w : World Env Src)
      → ledger (queue_reset w) ≡ record (ledger w) { asked = resets (queue_reset w).notes }
  unfolding queue_reset
  queue_reset-ledger w =
      if_both (λ (v : World Env Src). ledger v ≡ record (ledger w) { asked = resets v.notes })
        w.chip.resetting refl refl

  queue_reset-asked : (w : World Env Src) → resets (queue_reset w).notes ≤ resets w.notes + 1
  unfolding queue_reset
  queue_reset-asked w =
      if_both (λ (v : World Env Src). resets v.notes ≤ resets w.notes + 1) w.chip.resetting
        (omega arith) (unfold resets in omega (arith, resets-append w.notes (reset_asked ∷ [])))

module _ {Env Src : Type 0} (host : Host Env Src) where
  reset_and_look-ledger :
      (d : Direction) (w : World Env Src)
      → ledger (reset_and_look host d w).0 ≡ ledger (queue_reset w)
  unfolding reset_and_look
  reset_and_look-ledger d w =
      let same : World Env Src → Type 0 = λ v. ledger v ≡ ledger (queue_reset w) in
      let (w1, failed) = wait_reset_done host (queue_reset w) in
      let waited = wait_reset_done-ledger host (queue_reset w) in
      unless_failed_both (λ (r : World Env Src × Option Errno). same r.0) failed (λ _. waited)
        (unless_failed_both same w1.chip.reset_rc (λ _. waited)
          (wait_urb_stream_started-ledger host d (host.grace_ms w1.usb.device) false w1 ∙ waited))

  escalate-IsClimbed :
      (d : Direction) (w : World Env Src) → IsClimbed (ledger w) (ledger (escalate host d w).0)
  unfolding escalate
  escalate-IsClimbed d w =
      let (chip, granted) = recovery_budget_take (host.clock w.usb.device) w.chip in
      let counted = record w { chip = chip } in
      let done : World Env Src × Option Errno → Type 0 = λ r. IsClimbed (ledger w) (ledger r.0) in
      if_both done (w.chip.disconnected || w.chip.suspended) (kept refl) (
        if_cases done granted
          (λ it.
            subst (λ (l : Ledger). IsClimbed (ledger w) l)
              (sym (reset_and_look-ledger d counted ∙ queue_reset-ledger counted))
              (take-IsClimbed (host.clock w.usb.device) w (resets (queue_reset counted).notes)
                (ground (arith, queue_reset-asked counted, it))))
          (λ _. take-IsClimbed (host.clock w.usb.device) w (resets w.notes) (omega arith)))

  climb-IsClimbed :
      (d : Direction) (w : World Env Src) → IsClimbed (ledger w) (ledger (climb host d w).0)
  unfolding climb
  climb-IsClimbed d w =
      let done : World Env Src × Option Errno → Type 0 = λ r. IsClimbed (ledger w) (ledger r.0) in
      let restarted = restart host w in
      let (w1, up) =
        wait_urb_stream_started host d (host.grace_ms restarted.usb.device) true restarted in
      let same : ledger w1 ≡ ledger w =
        wait_urb_stream_started-ledger host d (host.grace_ms restarted.usb.device) true restarted
        ∙ restart-ledger host w in
      if_both done up (kept same) (
        subst (λ (l : Ledger). IsClimbed l (ledger (escalate host d w1).0)) same
          (escalate-IsClimbed d w1))

  ladder-IsClimbed :
      (d : Direction) (w : World Env Src)
      → IsClimbed (ledger w) (ledger (run_recovery_ladder host d w).0)
  unfolding run_recovery_ladder
  ladder-IsClimbed d w =
      let done : World Env Src × Option Errno → Type 0 = λ r. IsClimbed (ledger w) (ledger r.0) in
      let told = report_xruns host w in
      let same = report_xruns-ledger host w in
      if_both done (is_alive host d told) (kept same) (
        if_both done (told.chip.disconnected || told.chip.suspended || told.chip.resetting)
          (kept same)
          (subst (λ (l : Ledger). IsClimbed l (ledger (climb host d told).0)) same
            (climb-IsClimbed d told)))

  pub recover_urb_stream-IsClimbed :
      (d : Direction) (w : World Env Src)
      → IsClimbed (ledger w) (ledger (recover_urb_stream host d w).0)
  unfolding recover_urb_stream set_in_progress
  recover_urb_stream-IsClimbed d w =
      let done : World Env Src × Option Errno → Type 0 = λ r. IsClimbed (ledger w) (ledger r.0) in
      let climbed = ladder-IsClimbed d (set_in_progress true w) in
      if_both done w.chip.disconnected (kept refl) (
        if_both done (is_alive host d w) (kept refl) (
          if_cases done w.chip.recovery_in_progress (λ _. kept refl)
            (λ idle. lowered idle climbed)))

  -- Whatever the device, the usb core and the URBs do meanwhile, a call of recover_urb_stream leaves
  -- the sample rate, both directions' claims on it and the flag of a running ladder as it found
  -- them; it asks for one reset at most; and the budget is charged for it: the attempts are counted
  -- up by one, or a window is opened with this as its first, and in a window that has had its 3
  -- attempts no reset is asked for, where the count of attempts fits its int. It does nothing at all
  -- where the device is gone, the stream is alive or another ladder is running.
  pub recover_urb_stream-IsLadder :
      (d : Direction) (w : World Env Src)
      → w.chip.recovery_attempts + 1 < 2 ^ 31
      → IsLadder (ledger w) (ledger (recover_urb_stream host d w).0)
        × ((w.chip.disconnected || is_alive host d w || w.chip.recovery_in_progress) ≡ true
            → (recover_urb_stream host d w).0 ≡ w)
  unfolding recover_urb_stream
  recover_urb_stream-IsLadder d w h =
      let c = recover_urb_stream-IsClimbed d w in
      (
        record { claims = c.claims; in_progress = c.in_progress; spent = c.spent h },
        λ e. ground (arith, e),
      )
