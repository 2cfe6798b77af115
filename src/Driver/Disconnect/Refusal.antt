-- ===== src/Driver/Disconnect/Refusal.antt =====
-- What is left of the driver behind `jockey3_disconnect` (jockey3.c): every entry point refuses.
use alsa_jockey.Prelude.{
  ℕ, ◌≡◌, refl, ap, arith, Bool, true, false, ◌||◌, if◌then◌else◌, none, some,
}
use alsa_jockey.Errno.{enodev}
use alsa_jockey.Proto.Session.{err}
use alsa_jockey.Stream.State.{Substream, Direction}
use alsa_jockey.Driver.World.{Host, World}
use alsa_jockey.Driver.Ring.{stop_urbs, start_urbs}
use alsa_jockey.Driver.Ladder.{recover_urb_stream}
use alsa_jockey.Driver.Tick.{watchdog_work}
use alsa_jockey.Driver.Pcm.{start_command, pcm_open, pcm_hw_params, pcm_prepare, pcm_trigger}
use alsa_jockey.Driver.Disconnect.{latch, disconnect}
use alsa_jockey.Driver.Frames.{if_cases}
use alsa_jockey.Driver.Ring.Quiet.{Rest, IsHalted, IsKilling, stop_urbs-quiet}

-- Every operation that would start something returns -ENODEV and leaves the driver as it is.
pub record IsRefusing {Env Src : Type 0} (host : Host Env Src) (v : World Env Src) : Type 0 where
  pub starts : (warm : Bool) → start_urbs host warm v ≡ (v, some enodev)
  pub recovers : (d : Direction) → recover_urb_stream host d v ≡ (v, some enodev)
  pub opens : (d : Direction) (sub : Substream) → pcm_open host d sub v ≡ (v, err enodev)
  pub asks :
      (d : Direction) (rate period_bytes : ℕ)
      → pcm_hw_params host d rate period_bytes v ≡ (v, some enodev)
  pub prepares : (d : Direction) → pcm_prepare host d v ≡ (v, some enodev)
  pub plays : (d : Direction) → pcm_trigger d start_command v ≡ (v, some enodev)
  pub ticks : watchdog_work host v ≡ record v { watchdog_due = none }
  pub leaves : disconnect host v ≡ v

-- The branch that is taken.
taken : {A : Type 0} {b : Bool} (x y : A) → b ≡ true → (if b then x else y) ≡ x
taken {b = b} x y e = rw e refl

module _ {Env Src : Type 0} (host : Host Env Src) where
  gone-IsRefusing : (v : World Env Src) → v.chip.disconnected ≡ true → IsRefusing host v
  unfolding start_urbs recover_urb_stream pcm_open pcm_hw_params pcm_prepare pcm_trigger
      watchdog_work disconnect
  gone-IsRefusing v e = record {
    starts = λ warm. taken _ _ e;
    recovers = λ d. taken _ _ e;
    opens = λ d sub. taken _ _ e;
    asks = λ d rate period_bytes. taken _ _ e;
    prepares = λ d. taken _ _ e;
    plays = λ d. taken _ _ e;
    ticks = taken {b = v.chip.disconnected || v.chip.suspended} _ _ (ground (arith, e));
    leaves = taken _ _ e;
  }

  -- Where the usb core hands back every URB, the first disconnect leaves none in flight, behind
  -- closed fences, no reset scheduled and no run of the watchdog queued; and from then on the
  -- starts of the rings, the recovery, open, hw_params, .prepare and the start of a stream return
  -- -ENODEV and change nothing, the watchdog does not queue itself again, and the other
  -- interface's disconnect does nothing.
  pub disconnect-IsRefusing :
      (w : World Env Src)
      → w.chip.disconnected ≡ false
      → IsKilling host w
      → let v = disconnect host w in
        IsHalted v.chip.playback 0
        × IsHalted v.chip.capture 0
        × (v.reset_scheduled ≡ false)
        × (v.watchdog_due ≡ none)
        × IsRefusing host v
  unfolding disconnect latch
  disconnect-IsRefusing w here k =
      let (p, c, others, _, _) = stop_urbs-quiet host 0 (latch w) k in
      let v = record (stop_urbs host (latch w)) { reset_scheduled = false } in
      let gone : v.chip.disconnected ≡ true = ap (λ (x : Rest). x.gone) others in
      let due : v.watchdog_due ≡ none = ap (λ (x : Rest). x.due) others in
      let left : World Env Src → Type 0 = λ v.
        IsHalted v.chip.playback 0
        × IsHalted v.chip.capture 0
        × (v.reset_scheduled ≡ false)
        × (v.watchdog_due ≡ none)
        × IsRefusing host v in
      if_cases left w.chip.disconnected (λ e. grind (arith, here, e))
        λ _. (p, c, refl, due, gone-IsRefusing v gone)
