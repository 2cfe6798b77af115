-- ===== src/Probe/Endpoints.antt =====
-- What a device must have for the driver to bind to it (jockey3.c): `jockey3_has_bulk_endpoint` and
-- `jockey3_validate_endpoints`.
use alsa_jockey.Prelude.{
  ℕ, Bool, true, false, not, ◌&&◌, ◌||◌, ◌==◌, if◌then◌else◌, Option, none, some, List, [], ◌∷◌,
}
use alsa_jockey.Errno.{Errno, enodev}
use alsa_jockey.Probe.Parts.{ep_pcm_out, ep_pcm_in, ep_midi_in}

-- What `usb_endpoint_is_bulk_out`, `usb_endpoint_is_bulk_in` and `usb_endpoint_num` say.
pub record Endpoint : Type 0 where
  pub is_bulk_out : Bool
  pub is_bulk_in : Bool
  pub num : ℕ

-- An interface by the endpoints of its altsetting 1, if it has that.
abbrev pub Interface : Type 0
Interface = Option (List Endpoint)

-- The interface that is probed, with its number, and interface 1 of the device.
pub record Device : Type 0 where
  pub interface_number : ℕ
  pub intf0 : Interface
  pub intf1 : Option Interface

unfoldable pub is_bulk : Bool → ℕ → Endpoint → Bool
is_bulk out num e = (if out then e.is_bulk_out else e.is_bulk_in) && e.num == num

unfoldable pub any_bulk : Bool → ℕ → List Endpoint → Bool
any_bulk out num [] = false
any_bulk out num (e ∷ es) = is_bulk out num e || any_bulk out num es

unfoldable pub has_bulk_endpoint : Interface → ℕ → Bool → Bool
has_bulk_endpoint none num out = false
has_bulk_endpoint (some alts) num out = any_bulk out num alts

unfoldable pub validate_endpoints : Interface → Interface → Option Errno
validate_endpoints intf0 intf1 =
    if not (has_bulk_endpoint intf0 ep_pcm_out true)
      || not (has_bulk_endpoint intf0 ep_midi_in false)
    then some enodev
    else if not (has_bulk_endpoint intf1 ep_pcm_in false)
    then some enodev
    else none

-- The guards ahead of the claim of a slot.
unfoldable pub validate_device : Device → Option Errno
validate_device dev =
    if not (dev.interface_number == 0)
    then some enodev
    else elim dev.intf1 [ none ↦ some enodev | some intf1 ↦ validate_endpoints dev.intf0 intf1 ]
