-- ===== src/Proto/Session.antt =====
-- Transfers on endpoint 0 and the device that answers them, as ploytec_proto.c uses them.
use alsa_jockey.Prelude.{ℕ, List, [], ◌∷◌, ◌++◌, Bool, true, false}
use alsa_jockey.Errno.{Errno, etimedout, enodev, eshutdown, econnreset, eproto, eilseq, etime}

-- A call into the usb core: `usb_control_msg_recv` and `usb_control_msg_send` on endpoint 0 with
-- bRequest, bmRequestType, wValue, wIndex and the length or the bytes; `usb_set_interface`;
-- `usb_clear_halt` of an endpoint address; `usleep_range`.
pub data Transfer : Type 0 where
  control_recv : ℕ → ℕ → ℕ → ℕ → ℕ → Transfer
  control_send : ℕ → ℕ → ℕ → ℕ → List ℕ → Transfer
  set_interface : ℕ → ℕ → Transfer
  clear_halt : ℕ → Transfer
  usleep_range : ℕ → ℕ → Transfer

-- The error of a transfer, or what it gave: the bytes read, or none.
pub data Reply : Type 0 where
  failed : Errno → Reply
  answered : List ℕ → Reply

-- The device, and the calls made so far, the first one first.
pub record Session (Dev : Type 0) : Type 0 where
  pub device : Dev
  pub log : List Transfer

-- The result of a function that returns 0 or a negative error.
pub data Result (A : Type 0) : Type 0 where
  err : Errno → Result A
  ok : A → Result A

unfoldable pub ctrl_ep_unresponsive : Errno → Bool
ctrl_ep_unresponsive etimedout = true
ctrl_ep_unresponsive enodev = true
ctrl_ep_unresponsive eshutdown = true
ctrl_ep_unresponsive econnreset = true
ctrl_ep_unresponsive eproto = true
ctrl_ep_unresponsive eilseq = true
ctrl_ep_unresponsive etime = true
ctrl_ep_unresponsive _ = false

-- `answer` stands for the usb core and the device behind it.
module _ {Dev : Type 0} (answer : Dev → Transfer → Dev × Reply) where
  unfoldable pub transfer : Transfer → Session Dev → Session Dev × Reply
  transfer t s =
      let (device, reply) = answer s.device t in
      (record { device = device; log = s.log ++ (t ∷ []) }, reply)

  -- `usleep_range`, which returns nothing.
  unfoldable pub sleep : ℕ → ℕ → Session Dev → Session Dev
  sleep lo hi s = (transfer (usleep_range lo hi) s).0
