-- ===== src/Probe/Bind/Built.antt =====
-- The steps of `jockey3_probe` (jockey3.c) behind its release function, as a whole.
use alsa_jockey.Prelude.{ℕ, ◌≡◌, refl, sym, subst, Bool, true, Option, none, length}
use alsa_jockey.Errno.{Errno}
use alsa_jockey.Stream.State.{playback_direction, capture_direction, Chip}
use alsa_jockey.Driver.World.{Host}
use alsa_jockey.Probe.State.{Parts, Binding, Kernel}
use alsa_jockey.Probe.Parts.{init_xfer_buf, init_midi_urb, init_urbs}
use alsa_jockey.Probe.Parts.Taken.{IsEmpty, IsFilled, All}
use alsa_jockey.Probe.Boot.Up.{IsNew, IsUp, IsUp-set_env, initialize-IsUp}
use alsa_jockey.Probe.Bind.{init_pcm, init_midi, initialize_chip, build}
use alsa_jockey.Probe.Bind.Triples.{Triple, >>-Triple, ask-Triple}
use alsa_jockey.Probe.Bind.Steps.{
  Owns, NoMidi, Empty, Filled, Plain, init_xfer_buf-Ends, init_midi_urb-Ends, init_urbs-Ends,
}

-- A chip that is whole: 8 slots in each direction, all filled.
pub record IsWhole (p : Parts) : Type 0 where
  pub playback_slots : Filled playback_direction p
  pub capture_slots : Filled capture_direction p
  pub eight : length p.rings ≡ 8

module _ {Env Src : Type 0} (i : ℕ) (used : ℕ → Bool) where
  -- Behind the initialization of the device.
  abbrev Running : Binding Env Src → Type 0
  Running st =
      Owns i used st × IsWhole st.parts × (st.bound_1 ≡ true) × (st.intfdata ≡ true) × IsUp st.world

  abbrev pub Bound : Binding Env Src → Type 0
  Bound st = Running st × (st.card.registered ≡ true)

module _ {Env Src : Type 0} (i : ℕ) (used : ℕ → Bool) (chip : Chip) where
  -- Behind the allocations, and behind the claim of interface 1.
  abbrev Whole : Binding Env Src → Type 0
  Whole st = Owns i used st × (st.world.chip ≡ chip) × IsWhole st.parts

  abbrev Claimed : Binding Env Src → Type 0
  Claimed st = Whole st × (st.bound_1 ≡ true)

  -- Ahead of the allocations.
  abbrev pub Bare : Binding Env Src → Type 0
  Bare st =
      Plain i used chip st
      × (st.parts.xfer_buf ≡ none)
      × NoMidi st.parts
      × Empty playback_direction st.parts
      × Empty capture_direction st.parts

  abbrev HasBuf : Binding Env Src → Type 0
  HasBuf st =
      Plain i used chip st
      × NoMidi st.parts
      × Empty playback_direction st.parts
      × Empty capture_direction st.parts

  abbrev HasMidi : Binding Env Src → Type 0
  HasMidi st =
      Plain i used chip st × Empty playback_direction st.parts × Empty capture_direction st.parts

  abbrev HasPlayback : Binding Env Src → Type 0
  HasPlayback st =
      Plain i used chip st × Empty capture_direction st.parts × Filled playback_direction st.parts

module _ {Env Src : Type 0} (host : Host Env Src) (kernel : Kernel Env) (i : ℕ) (used : ℕ → Bool)
    (chip : Chip) where
  xfer_buf-Triple :
      Triple {Src = Src}
        (Bare i used chip)
        (HasBuf i used chip)
        (Owns i used)
        (init_xfer_buf kernel)
  xfer_buf-Triple = record { ends = init_xfer_buf-Ends kernel i used chip }

  midi_urb-Triple :
      Triple {Src = Src}
        (HasBuf i used chip)
        (HasMidi i used chip)
        (Owns i used)
        (init_midi_urb kernel)
  midi_urb-Triple = record { ends = init_midi_urb-Ends kernel i used chip }

  playback-Triple :
      Triple {Src = Src}
        (HasMidi i used chip)
        (HasPlayback i used chip)
        (Owns i used)
        (init_urbs kernel playback_direction)
  playback-Triple = record {
    ends = λ st p.
        let r = init_urbs-Ends kernel i used chip playback_direction (All IsEmpty) st p in
        (λ none_is. let (a, b, c) = r.0 none_is in (a, c, b), r.1);
  }

  capture-Triple :
      Triple {Src = Src}
        (HasPlayback i used chip)
        (Whole i used chip)
        (Owns i used)
        (init_urbs kernel capture_direction)
  capture-Triple = record {
    ends = λ st p.
        let all = All (IsFilled playback_direction) in
        let r = init_urbs-Ends kernel i used chip capture_direction all st p in
        (
          λ none_is.
              let ((o, fresh, eight), c, b) = r.0 none_is in
              (o, fresh, record { playback_slots = b; capture_slots = c; eight = eight }),
          r.1,
        );
  }

  initialize_chip-Triple :
      IsNew chip
      → Triple {Src = Src}
          (Claimed i used chip)
          (Running i used)
          (Owns i used)
          (initialize_chip host kernel)
  unfolding initialize_chip
  initialize_chip-Triple new = record {
    ends = λ st p.
        let ((o, fresh, whole), bound) = p in
        (
          λ none_is. (
            o,
            whole,
            bound,
            refl,
            initialize-IsUp host kernel.boot_delay st.world (subst IsNew (sym fresh) new) none_is,
          ),
          λ e is. o,
        );
  }

  -- Every step of probe that fails leaves what was taken to the chip's pointers and to what the card
  -- holds; where none fails, the chip is whole, bound, registered and running.
  pub build-Triple :
      IsNew chip
      → Triple {Src = Src} (Bare i used chip) (Bound i used) (Owns i used) (build host kernel)
  unfolding build init_pcm init_midi
  build-Triple new =
      let kept = λ (service : Env → Env × Option Errno).
        ask-Triple {P = (Claimed i used chip)} {Q = (Claimed i used chip)} {F = Owns i used} service
          (λ st. st) (λ st env p. p.0.0) (λ st env p. p) in
      let registers =
        ask-Triple {P = (Running i used)} {Q = (Bound i used)} {F = Owns i used}
          kernel.card_register (λ st. record st { card = record (st.card) { registered = true } })
          (λ st env p. p.0) (λ st env p. ((p.0, p.1, p.2, p.3, IsUp-set_env env p.4), refl)) in
      let claims =
        ask-Triple {P = (Whole i used chip)} {Q = (Claimed i used chip)} {F = Owns i used}
          kernel.claim_interface (λ st. record st { bound_1 = true }) (λ st env p. p.0)
          (λ st env p. (p, refl)) in
      let pcm =
        >>-Triple (kept kernel.pcm_new)
          (>>-Triple (kept kernel.add_playback_chmap) (kept kernel.add_capture_chmap)) in
      let started = >>-Triple (initialize_chip-Triple new) registers in
      let card = >>-Triple claims (>>-Triple pcm (>>-Triple (kept kernel.rawmidi_new) started)) in
      let rings = >>-Triple playback-Triple (>>-Triple capture-Triple card) in
      >>-Triple xfer_buf-Triple (>>-Triple midi_urb-Triple rings)
