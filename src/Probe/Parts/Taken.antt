-- ===== src/Probe/Parts/Taken.antt =====
-- What building the rings (jockey3.c) takes: every allocation ends up in the chip's pointers, on the
-- way that succeeds and on each that fails.
use alsa_jockey.Prelude.{
  ℕ, suc, ◌+◌, ◌≡◌, refl, ap, ap₂, sym, subst, ◌∙◌, arith, Option, none, some, List, [], ◌∷◌,
  length,
}
use alsa_jockey.Errno.{Errno, enomem}
use alsa_jockey.Stream.State.{Direction, playback_direction, capture_direction}
use alsa_jockey.Probe.Calls.{Resource, block, urb, taken, given}
use alsa_jockey.Probe.State.{Slot, Pair, get_slot, set_slot, Binding, Kernel}
use alsa_jockey.Probe.Parts.{fill_of, filled_slot, alloc_block, alloc_urb, init_slots}
use alsa_jockey.Probe.Parts.Alloc.{Takes, kept, if_null_cases, alloc_block-Takes, alloc_urb-Takes}
use alsa_jockey.Probe.Parts.Owned.{owned, owned_slot, owned_rings}

-- A slot as `kzalloc` leaves it in the chip, and all of one direction's.
abbrev pub IsEmpty : Slot → Type 0
IsEmpty s = (s.urb ≡ none) × (s.buf ≡ none)

-- A slot with its buffer and its URB, filled for the direction.
pub record IsFilled (d : Direction) (s : Slot) : Type 0 where
  pub has_urb : (u : ℕ) × (s.urb ≡ some u)
  pub has_buf : (b : ℕ) × (s.buf ≡ some b)
  pub fills : s.filled ≡ some (fill_of d)

abbrev pub All : (Slot → Type 0) → List Slot → Type 0
All P [] = Unit {0}
All P (s ∷ ss) = P s × All P ss

abbrev pub slots_of : Direction → List Pair → List Slot
slots_of d [] = []
slots_of d (p ∷ ps) = get_slot p d ∷ slots_of d ps

abbrev pub other : Direction → Direction
other playback_direction = capture_direction
other capture_direction = playback_direction

filled_slot-IsFilled : (d : Direction) (u b : ℕ) → IsFilled d (filled_slot d u b)
unfolding filled_slot
filled_slot-IsFilled playback_direction u b = record {
  has_urb = (u, refl);
  has_buf = (b, refl);
  fills = refl;
}
filled_slot-IsFilled capture_direction u b = record {
  has_urb = (u, refl);
  has_buf = (b, refl);
  fills = refl;
}

filled_slot-owned :
    (r : Resource) (d : Direction) (u b : ℕ)
    → owned_slot r (filled_slot d u b) ≡ owned r block (some b) + owned r urb (some u)
unfolding filled_slot
filled_slot-owned r playback_direction u b = refl
filled_slot-owned r capture_direction u b = refl

-- A slot put into a pair, for what the rings own and for either direction's slots.
set_slot-owned :
    (r : Resource) (d : Direction) (p : Pair) (ps : List Pair) (s : Slot)
    → owned_rings r (set_slot p d s ∷ ps) + owned_slot r (get_slot p d)
      ≡ owned_rings r (p ∷ ps) + owned_slot r s
unfolding owned_rings
set_slot-owned r playback_direction p ps s = omega arith
set_slot-owned r capture_direction p ps s = omega arith

get-set_slot : (d : Direction) (p : Pair) (s : Slot) → get_slot (set_slot p d s) d ≡ s
get-set_slot playback_direction p s = refl
get-set_slot capture_direction p s = refl

get-set_slot-other :
    (d : Direction) (p : Pair) (s : Slot)
    → get_slot (set_slot p d s) (other d) ≡ get_slot p (other d)
get-set_slot-other playback_direction p s = refl
get-set_slot-other capture_direction p s = refl

pub owned-none : (r : Resource) (kind : ℕ → Resource) {p : Option ℕ} → p ≡ none → owned r kind p ≡ 0
unfolding owned
owned-none r kind e = rw e refl

owned_rings-cons :
    (r : Resource) (p : Pair) (ps : List Pair)
    → owned_rings r (p ∷ ps) ≡ owned_slot r p.playback + owned_slot r p.capture + owned_rings r ps
unfolding owned_rings
owned_rings-cons r p ps = refl

-- One more slot is put in place of an empty one, with what the calls since took for it.
set_slot-Takes :
    (r : Resource) (d : Direction) (p : Pair) (ps : List Pair) (s : Slot)
    → IsEmpty (get_slot p d)
    → owned_rings r (set_slot p d s ∷ ps) ≡ owned_slot r s + owned_rings r (p ∷ ps)
set_slot-Takes r d p ps s (no_urb, no_buf) =
    omega (arith, set_slot-owned r d p ps s, owned-none r block no_buf, owned-none r urb no_urb)

-- What building one direction's slots leaves, where it starts from pairs `ps`.
pub record IsBuilt {Env Src : Type 0} (r : Resource) (d : Direction) (ps : List Pair)
    (st : Binding Env Src) (res : Binding Env Src × List Pair × Option Errno) : Type 0 where
  pub taken_more : taken r res.0.calls + owned_rings r ps ≡ taken r st.calls + owned_rings r res.1
  pub given_same : given r res.0.calls ≡ given r st.calls
  pub kept_same : kept res.0 ≡ kept st
  pub others : slots_of (other d) res.1 ≡ slots_of (other d) ps
  pub fills : res.2 ≡ none → All (IsFilled d) (slots_of d res.1)
  pub as_long : length res.1 ≡ length ps

module _ {Env Src : Type 0} (kernel : Kernel Env) (r : Resource) where
  -- A failure behind which the slot holds what it got.
  got-IsBuilt :
      (d : Direction) (p : Pair) (ps : List Pair) (st st1 : Binding Env Src) (s : Slot) (e : Errno)
      → IsEmpty (get_slot p d)
      → Takes r (owned_slot r s) st.calls st1.calls
      → kept st1 ≡ kept st
      → IsBuilt r d (p ∷ ps) st (st1, set_slot p d s ∷ ps, some e)
  got-IsBuilt d p ps st st1 s e empty t k = record {
    taken_more = omega (arith, t.taken_more, set_slot-Takes r d p ps s empty);
    given_same = t.given_same;
    kept_same = k;
    others = ap (λ (x : Slot). x ∷ slots_of (other d) ps) (get-set_slot-other d p s);
    fills = λ k. cc;
    as_long = refl;
  }

  pub init_slots-IsBuilt :
      (d : Direction) (ps : List Pair) (st : Binding Env Src)
      → All IsEmpty (slots_of d ps)
      → IsBuilt r d ps st (init_slots kernel d ps st)
  unfolding init_slots
  init_slots-IsBuilt d [] st e = record {
    taken_more = refl;
    given_same = refl;
    kept_same = refl;
    others = refl;
    fills = λ k. tt;
    as_long = refl;
  }
  init_slots-IsBuilt d (p ∷ ps) st (empty, e) =
      let (st1, b) = alloc_block kernel st in
      let (st2, u) = alloc_urb kernel st1 in
      let (block_taken, block_kept) = alloc_block-Takes kernel r st in
      let (urb_taken, urb_kept) = alloc_urb-Takes kernel r st1 in
      let half = record (get_slot p d) { buf = b } in
      let rest = init_slots-IsBuilt d ps st2 e in
      let no_urb = owned-none r urb empty.0 in
      if_null_cases (IsBuilt r d (p ∷ ps) st) b
        (λ null.
          got-IsBuilt d p ps st st1 half enomem empty
            (record {
              taken_more = omega (arith, block_taken.taken_more, no_urb);
              given_same = block_taken.given_same;
            })
            block_kept)
        λ new_buf is_buf.
          if_null_cases (IsBuilt r d (p ∷ ps) st) u
            (λ null.
              got-IsBuilt d p ps st st2 half enomem empty
                (record {
                  taken_more = omega (
                    arith,
                    block_taken.taken_more,
                    urb_taken.taken_more,
                    owned-none r urb null,
                    no_urb,
                  );
                  given_same = urb_taken.given_same ∙ block_taken.given_same;
                })
                (urb_kept ∙ block_kept))
            λ new_urb is_urb.
              let s = filled_slot d new_urb new_buf in
              let (st3, pairs, failed) = init_slots kernel d ps st2 in
              record {
                taken_more = omega (
                  arith,
                  block_taken.taken_more,
                  urb_taken.taken_more,
                  rest.taken_more,
                  ap (owned r block) is_buf,
                  ap (owned r urb) is_urb,
                  filled_slot-owned r d new_urb new_buf,
                  set_slot-Takes r d p pairs s empty,
                  owned_rings-cons r p ps,
                  owned_rings-cons r p pairs,
                );
                given_same = rest.given_same ∙ urb_taken.given_same ∙ block_taken.given_same;
                kept_same = rest.kept_same ∙ urb_kept ∙ block_kept;
                others =
                    ap₂ (λ (x : Slot) (xs : List Slot). x ∷ xs) (get-set_slot-other d p s)
                      rest.others;
                fills = λ k. (
                  subst (IsFilled d) (sym (get-set_slot d p s))
                      (filled_slot-IsFilled d new_urb new_buf),
                  rest.fills k,
                );
                as_long = ap (λ (n : ℕ). suc n) rest.as_long;
              }
