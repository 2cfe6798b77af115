-- ===== src/Probe/Parts/Owned.antt =====
-- What the chip's pointers (jockey3.c) own, against the log of what was taken and given back.
use alsa_jockey.Prelude.{ℕ, ◌+◌, ◌≡◌, refl, ◌∙◌, arith, Option, none, some, List, [], ◌∷◌}
use alsa_jockey.Probe.Calls.{Resource, block, urb, Call, is_it, taken, given}
use alsa_jockey.Probe.State.{Slot, Pair, Parts}
use alsa_jockey.Probe.Parts.{free, free_slot, free_rings, free_parts}

-- How often a resource is among what a pointer, a slot, the rings, the chip own.
unfoldable pub owned : Resource → (ℕ → Resource) → Option ℕ → ℕ
owned r kind none = 0
owned r kind (some p) = is_it r (kind p)

abbrev pub owned_slot : Resource → Slot → ℕ
owned_slot r s = owned r block s.buf + owned r urb s.urb

unfoldable pub owned_rings : Resource → List Pair → ℕ
owned_rings r [] = 0
owned_rings r (p ∷ ps) = owned_slot r p.playback + owned_slot r p.capture + owned_rings r ps

abbrev pub owned_parts : Resource → Parts → ℕ
owned_parts r p =
    owned r block p.xfer_buf
    + owned r block p.midi_in_buf
    + owned r urb p.midi_in_urb
    + owned_rings r p.rings

-- `more` of a resource are given back between two logs, and none is taken.
pub record Gives (r : Resource) (more : ℕ) (cs cs' : List Call) : Type 0 where
  pub given_more : given r cs' ≡ more + given r cs
  pub taken_same : taken r cs' ≡ taken r cs

module _ (r : Resource) where
  free-Gives :
      (kind : ℕ → Resource) (p : Option ℕ) (cs : List Call)
      → Gives r (owned r kind p) cs (free kind p cs)
  unfolding free owned given taken
  free-Gives kind none cs = record { given_more = omega arith; taken_same = refl }
  free-Gives kind (some p) cs = record { given_more = refl; taken_same = refl }

  Gives-trans : {n m : ℕ} {a b c : List Call} → Gives r n a b → Gives r m b c → Gives r (n + m) a c
  Gives-trans f g = record {
    given_more = omega (arith, f.given_more, g.given_more);
    taken_same = g.taken_same ∙ f.taken_same;
  }

  free_slot-Gives : (s : Slot) (cs : List Call) → Gives r (owned_slot r s) cs (free_slot s cs)
  unfolding free_slot
  free_slot-Gives s cs =
      let f = free-Gives urb s.urb cs in
      let g = free-Gives block s.buf (free urb s.urb cs) in
      record {
        given_more = omega (arith, f.given_more, g.given_more);
        taken_same = g.taken_same ∙ f.taken_same;
      }

  free_rings-Gives :
      (ps : List Pair) (cs : List Call) → Gives r (owned_rings r ps) cs (free_rings ps cs)
  unfolding free_rings owned_rings
  free_rings-Gives [] cs = record { given_more = omega arith; taken_same = refl }
  free_rings-Gives (p ∷ ps) cs =
      let played = free_slot p.playback cs in
      Gives-trans (Gives-trans (free_slot-Gives p.playback cs) (free_slot-Gives p.capture played))
        (free_rings-Gives ps (free_slot p.capture played))

  -- Freeing the parts gives back what they own.
  pub free_parts-Gives :
      (p : Parts) (cs : List Call) → Gives r (owned_parts r p) cs (free_parts p cs)
  unfolding free_parts
  free_parts-Gives p cs =
      let f = free_rings-Gives p.rings cs in
      let g = free-Gives urb p.midi_in_urb (free_rings p.rings cs) in
      let h = free-Gives block p.midi_in_buf _ in
      let k = free-Gives block p.xfer_buf _ in
      let all = Gives-trans (Gives-trans (Gives-trans f g) h) k in
      record { given_more = omega (arith, all.given_more); taken_same = all.taken_same }
