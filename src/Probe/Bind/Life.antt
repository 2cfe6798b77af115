-- ===== src/Probe/Bind/Life.antt =====
-- The life of a binding, from `jockey3_probe` to the last close of its card (jockey3.c).
use alsa_jockey.Prelude.{ℕ, ◌≡◌, refl, arith, Bool, true, false, not, ◌||◌, none, some}
use alsa_jockey.Errno.{Errno}
use alsa_jockey.Driver.World.{Host, World}
use alsa_jockey.Driver.Frames.{if_cases}
use alsa_jockey.Driver.Disconnect.{disconnect}
use alsa_jockey.Probe.State.{Binding, Kernel}
use alsa_jockey.Probe.Endpoints.{Device}
use alsa_jockey.Probe.Bind.{last_close, probe, unbind}
use alsa_jockey.Probe.Bind.Undone.{IsIdle, IsBound, let_go-IsIdle, probe-Outcome}

not_gone :
    {A : Type 0} {intfdata gone : Bool}
    → (not intfdata || gone) ≡ true
    → intfdata ≡ true
    → gone ≡ false
    → A
not_gone h e f = absurd (ground (arith, h, e, f))

module _ {Env Src : Type 0} (host : Host Env Src) (kernel : Kernel Env) (cards : ℕ)
    (enable : ℕ → Bool) where
  -- A probe that fails, at whichever step, leaves nothing behind once the card, if there was one, is
  -- closed for the last time: every block, URB, reference and card that was taken has been given back
  -- as often, the card slots are as they were, and neither interface is bound.
  pub probe-IsIdle :
      (dev : Device) (st : Binding Env Src) (e : Errno)
      → IsIdle st
      → (probe host kernel cards enable dev st).1 ≡ some e
      → let v = last_close (probe host kernel cards enable dev st).0 in
        IsIdle v × (v.used ≡ st.used)
  probe-IsIdle dev st e idle fails = (probe-Outcome host kernel cards enable dev st idle).0 e fails

  -- A probe that returns 0 has taken the first card slot that was enabled and free; the chip has its 8
  -- slots in each direction, each with its own buffer and a URB filled for the direction's endpoint,
  -- interface 1 is bound, the card is registered, and the rings run full and watched, with
  -- `current_rate` 44100 and the vendor's burst of writes of that rate among the calls made to the
  -- device; what was taken and not given back is what the chip's pointers own, the card, and the
  -- references.
  pub probe-IsBound :
      (dev : Device) (st : Binding Env Src)
      → IsIdle st
      → (probe host kernel cards enable dev st).1 ≡ none
      → IsBound cards enable st (probe host kernel cards enable dev st).0
  probe-IsBound dev st idle well = (probe-Outcome host kernel cards enable dev st idle).1 well

  -- A device that was bound and is unbound, with any state of the driver's world in between as long
  -- as it had not been unbound before, leaves nothing behind the last close of its card: all is given
  -- back as often as it was taken since before the probe, and the card slots are as they were.
  pub unbind-IsIdle :
      (dev : Device) (st : Binding Env Src) (w : World Env Src)
      → IsIdle st
      → (probe host kernel cards enable dev st).1 ≡ none
      → w.chip.disconnected ≡ false
      → let v =
          last_close
            (unbind host (record (probe host kernel cards enable dev st).0 { world = w })) in
        IsIdle v × (v.used ≡ st.used)
  unfolding unbind
  unbind-IsIdle dev st w idle well here =
      let b = probe-IsBound dev st idle well in
      let v = (probe host kernel cards enable dev st).0 in
      let running = b.bound.0 in
      let left : Binding Env Src → Type 0 =
        λ x. IsIdle (last_close x) × ((last_close x).used ≡ st.used) in
      if_cases left (not v.intfdata || w.chip.disconnected) (λ gone. not_gone gone running.3 here)
        λ there.
          let_go-IsIdle b.i v.used st.used
            (record v { world = disconnect host w; intfdata = false }) running.0 b.restores refl
