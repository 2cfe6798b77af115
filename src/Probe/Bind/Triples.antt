-- ===== src/Probe/Bind/Triples.antt =====
-- What a chain of steps of `jockey3_probe` (jockey3.c) establishes, step by step.
use alsa_jockey.Prelude.{◌≡◌, Option, none, some}
use alsa_jockey.Errno.{Errno}
use alsa_jockey.Driver.Frames.{unless_failed_cases}
use alsa_jockey.Probe.State.{Binding, Step, put_env}
use alsa_jockey.Probe.Bind.{◌>>◌, ask}

-- Where a step starts in `P`, it ends in `Q` if it succeeds, and in `F` if it fails.
abbrev pub Ends :
    {Env Src : Type 0}
    → (Binding Env Src → Type 0)
    → (Binding Env Src → Type 0)
    → (Binding Env Src → Type 0)
    → Step Env Src
    → Type 0
Ends {Env} {Src} P Q F m =
    (st : Binding Env Src)
    → P st
    → ((m st).1 ≡ none → Q (m st).0) × ((e : Errno) → (m st).1 ≡ some e → F (m st).0)

-- The same, as a fact about the step.
pub record Triple {Env Src : Type 0} (P Q F : Binding Env Src → Type 0) (m : Step Env Src)
    : Type 0 where
  pub ends : Ends P Q F m

module _ {Env Src : Type 0} {P Q F : Binding Env Src → Type 0} where
  pub >>-Triple :
      {R : Binding Env Src → Type 0} {m k : Step Env Src}
      → Triple P Q F m
      → Triple Q R F k
      → Triple P R F (m >> k)
  >>-Triple {R} {m} {k} f g = record {
    ends = λ st p.
        unless_failed_cases
          (λ (res : Binding Env Src × Option Errno).
            (res.1 ≡ none → R res.0) × ((e : Errno) → res.1 ≡ some e → F res.0))
          (m st).1 (λ e is. (λ none_is. cc, λ e' is'. (f.ends st p).1 e is))
          (λ is. g.ends (m st).0 ((f.ends st p).0 is));
  }

  pub ask-Triple :
      (service : Env → Env × Option Errno) (done : Binding Env Src → Binding Env Src)
      → ((st : Binding Env Src) (env : Env) → P st → F (put_env st env))
      → ((st : Binding Env Src) (env : Env) → P st → Q (done (put_env st env)))
      → Triple P Q F (ask service done)
  unfolding ask
  ask-Triple service done f g = record {
    ends = λ st p.
        let (env, failed) = service st.world.usb.device in
        unless_failed_cases
          (λ (res : Binding Env Src × Option Errno).
            (res.1 ≡ none → Q res.0) × ((e : Errno) → res.1 ≡ some e → F res.0))
          failed (λ e is. (λ none_is. cc, λ e' is'. f st env p))
          (λ is. (λ none_is. g st env p, λ e is'. cc));
  }
