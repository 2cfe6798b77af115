-- ===== src/Probe/Calls.antt =====
-- What the binding takes from the kernel and gives back (jockey3.c), as a log of the calls.
use alsa_jockey.Prelude.{ℕ, ◌+◌, Bool, true, false, ◌==◌, List, [], ◌∷◌}

-- A block of `kmalloc` or `kzalloc` and a URB, by their addresses; the references on the device and
-- on the two interfaces; the card.
pub data Resource : Type 0 where
  block urb : ℕ → Resource
  device interface_0 interface_1 card : Resource

-- `take` is the call that gives the driver a resource, `give` the one that hands it back.
pub data Call : Type 0 where
  take give : Resource → Call

abbrev pub same : Resource → Resource → Bool
same (block p) (block q) = p == q
same (urb p) (urb q) = p == q
same device device = true
same interface_0 interface_0 = true
same interface_1 interface_1 = true
same card card = true
same _ _ = false

-- 1 for the resource itself.
unfoldable pub is_it : Resource → Resource → ℕ
is_it r s = elim (same r s) [ true ↦ 1 | false ↦ 0 ]

-- How often a resource was taken, and given back.
unfoldable pub taken : Resource → List Call → ℕ
taken r [] = 0
taken r (take s ∷ cs) = is_it r s + taken r cs
taken r (give s ∷ cs) = taken r cs

unfoldable pub given : Resource → List Call → ℕ
given r [] = 0
given r (take s ∷ cs) = given r cs
given r (give s ∷ cs) = is_it r s + given r cs
