-- ===== src/Probe/Parts/Alloc.antt =====
-- What one allocation (jockey3.c) takes, and what it leaves alone.
use alsa_jockey.Prelude.{ℕ, ◌+◌, ◌≡◌, refl, arith, Option, none, some, List, Bool}
use alsa_jockey.Stream.State.{Chip}
use alsa_jockey.Probe.Calls.{Resource, block, urb, Call, taken, given}
use alsa_jockey.Probe.State.{Parts, Card, Binding, Kernel, put_env}
use alsa_jockey.Probe.Parts.{if_null, log_taken, alloc_block, alloc_urb}
use alsa_jockey.Probe.Parts.Owned.{owned}

-- `more` of a resource are taken between two logs, and none is given back.
pub record Takes (r : Resource) (more : ℕ) (cs cs' : List Call) : Type 0 where
  pub taken_more : taken r cs' ≡ more + taken r cs
  pub given_same : given r cs' ≡ given r cs

-- What an allocation leaves alone.
pub record Kept : Type 0 where
  pub parts : Parts
  pub dev_idx : ℕ
  pub used : ℕ → Bool
  pub card : Card
  pub intfdata : Bool
  pub bound_1 : Bool
  pub chip : Chip

abbrev pub kept : {Env Src : Type 0} → Binding Env Src → Kept
kept st = record {
  parts = st.parts;
  dev_idx = st.dev_idx;
  used = st.used;
  card = st.card;
  intfdata = st.intfdata;
  bound_1 = st.bound_1;
  chip = st.world.chip;
}

-- What holds of both ways on from an allocation.
pub if_null_cases :
    {A : Type 0} (P : A → Type 0) (o : Option ℕ) {null : A} {next : ℕ → A}
    → (o ≡ none → P null)
    → ((p : ℕ) → o ≡ some p → P (next p))
    → P (if_null o null next)
unfolding if_null
if_null_cases P none f g = f refl
if_null_cases P (some p) f g = g p refl

module _ {Env Src : Type 0} where
  log_taken-Takes :
      (r : Resource) (kind : ℕ → Resource) (p : Option ℕ) (st : Binding Env Src)
      → Takes r (owned r kind p) st.calls (log_taken kind p st).calls
  unfolding log_taken owned taken given
  log_taken-Takes r kind none st = record { taken_more = omega arith; given_same = refl }
  log_taken-Takes r kind (some p) st = record { taken_more = refl; given_same = refl }

  log_taken-kept :
      (kind : ℕ → Resource) (p : Option ℕ) (st : Binding Env Src)
      → kept (log_taken kind p st) ≡ kept st
  unfolding log_taken
  log_taken-kept kind none st = refl
  log_taken-kept kind (some p) st = refl

module _ {Env Src : Type 0} (kernel : Kernel Env) (r : Resource) where
  pub alloc_block-Takes :
      (st : Binding Env Src)
      → let (st1, p) = alloc_block kernel st in
        Takes r (owned r block p) st.calls st1.calls × (kept st1 ≡ kept st)
  unfolding alloc_block
  alloc_block-Takes st =
      let (env, p) = kernel.kmalloc st.world.usb.device in
      (log_taken-Takes r block p (put_env st env), log_taken-kept block p (put_env st env))

  pub alloc_urb-Takes :
      (st : Binding Env Src)
      → let (st1, p) = alloc_urb kernel st in
        Takes r (owned r urb p) st.calls st1.calls × (kept st1 ≡ kept st)
  unfolding alloc_urb
  alloc_urb-Takes st =
      let (env, p) = kernel.usb_alloc_urb st.world.usb.device in
      (log_taken-Takes r urb p (put_env st env), log_taken-kept urb p (put_env st env))
