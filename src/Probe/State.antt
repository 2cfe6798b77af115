-- ===== src/Probe/State.antt =====
-- What a binding works on (jockey3.c): the chip with the pointers that probe fills, the module's card
-- slots, and the kernel's services.
use alsa_jockey.Prelude.{ℕ, Bool, Option, List, ◌∷◌}
use alsa_jockey.Errno.{Errno}
use alsa_jockey.Codec.Memory.{Buffer}
use alsa_jockey.Stream.State.{Direction, playback_direction, capture_direction}
use alsa_jockey.Driver.World.{World, set_env}
use alsa_jockey.Probe.Calls.{Call}

-- What a URB is filled with: endpoint number and whether it is an IN endpoint, and the length.
pub record Fill : Type 0 where
  pub ep_num : ℕ
  pub is_in : Bool
  pub length : ℕ

-- `urbs[i]` and `bufs[i]` of a direction, NULL as `none`; how the URB is filled, and what was written
-- into the buffer.
pub record Slot : Type 0 where
  pub urb : Option ℕ
  pub buf : Option ℕ
  pub filled : Option Fill
  pub contents : Buffer

-- Slot i of both rings.
pub record Pair : Type 0 where
  pub playback : Slot
  pub capture : Slot

abbrev pub get_slot : Pair → Direction → Slot
get_slot p playback_direction = p.playback
get_slot p capture_direction = p.capture

abbrev pub set_slot : Pair → Direction → Slot → Pair
set_slot p playback_direction s = record p { playback = s }
set_slot p capture_direction s = record p { capture = s }

-- The pointers of `struct jockey3_chip` to what the chip owns.
pub record Parts : Type 0 where
  pub xfer_buf : Option ℕ
  pub midi_in_buf : Option ℕ
  pub midi_in_urb : Option ℕ
  pub midi_filled : Option Fill
  pub rings : List Pair

-- The card: whether it has a release function, is registered, and is to be freed when it is closed.
pub record Card : Type 0 where
  pub private_free : Bool
  pub registered : Bool
  pub freed_when_closed : Bool

-- The calls are logged with the newest first. `intfdata` is whether interface 0 points to the chip,
-- `bound_1` whether interface 1 is bound to the driver.
pub record Binding (Env Src : Type 0) : Type 0 where
  pub world : World Env Src
  pub parts : Parts
  pub dev_idx : ℕ
  pub used : ℕ → Bool
  pub calls : List Call
  pub card : Card
  pub intfdata : Bool
  pub bound_1 : Bool

-- The kernel's services: allocations, with `none` for NULL; `msleep(250)`; the calls into the ALSA
-- and usb cores that build the card.
pub record Kernel (Env : Type 0) : Type 0 where
  pub kmalloc : Env → Env × Option ℕ
  pub usb_alloc_urb : Env → Env × Option ℕ
  pub boot_delay : Env → Env
  pub card_new : Env → Env × Option Errno
  pub claim_interface : Env → Env × Option Errno
  pub pcm_new : Env → Env × Option Errno
  pub add_playback_chmap : Env → Env × Option Errno
  pub add_capture_chmap : Env → Env × Option Errno
  pub rawmidi_new : Env → Env × Option Errno
  pub card_register : Env → Env × Option Errno

module _ {Env Src : Type 0} where
  abbrev pub put_env : Binding Env Src → Env → Binding Env Src
  put_env st env = record st { world = set_env st.world env }

  abbrev pub log_call : Call → Binding Env Src → Binding Env Src
  log_call c st = record st { calls = c ∷ st.calls }

-- A step that may fail, and the steps behind it where it does not.
abbrev pub Step : Type 0 → Type 0 → Type 0
Step Env Src = Binding Env Src → Binding Env Src × Option Errno
