-- ===== src/Probe/Bind.antt =====
-- `jockey3_probe` with its unwinding, `jockey3_free_resources`, and `jockey3_disconnect` up to the
-- last close of the card (jockey3.c).
pub mod Triples
pub mod Steps
pub mod Built
pub mod Undone
pub mod Life
use alsa_jockey.Prelude.{
  ℕ, Bool, true, false, not, ◌||◌, if◌then◌else◌, Option, none, some, List, [], ◌∷◌,
}
use alsa_jockey.Errno.{Errno}
use alsa_jockey.Midi.RunningStatus.{fresh}
use alsa_jockey.Proto.Session.{Result, err, ok}
use alsa_jockey.Stream.State.{UrbStream, Chip, playback_direction, capture_direction}
use alsa_jockey.Recovery.Watchdog.{watchdog_retry_min_ms}
use alsa_jockey.Driver.World.{Host, World, unless_failed}
use alsa_jockey.Driver.Ring.{stop_urbs}
use alsa_jockey.Driver.Disconnect.{disconnect}
use alsa_jockey.Probe.Calls.{device, interface_0, interface_1, card, take, give}
use alsa_jockey.Probe.Slots.{claim_slot, release_slot}
use alsa_jockey.Probe.State.{Slot, Pair, Parts, Card, Binding, Kernel, put_env, log_call, Step}
use alsa_jockey.Probe.Parts.{most_pkts, free_parts, init_xfer_buf, init_midi_urb, init_urbs}
use alsa_jockey.Probe.Endpoints.{Device, validate_device}
use alsa_jockey.Probe.Boot.{initialize}

abbrev pub null_slot : Slot
null_slot = record { urb = none; buf = none; filled = none; contents = λ i. 0 }

abbrev pub null_pair : Pair
null_pair = record { playback = null_slot; capture = null_slot }

-- The pointers as `snd_card_new` zeroes them, 8 slots in each direction.
abbrev pub null_parts : Parts
null_parts = record {
  xfer_buf = none;
  midi_in_buf = none;
  midi_in_urb = none;
  midi_filled = none;
  rings =
      null_pair ∷ null_pair ∷ null_pair ∷ null_pair ∷ null_pair ∷ null_pair ∷ null_pair ∷ null_pair
      ∷ [];
}

-- A direction of a new chip, `shift` being ilog2 of the packets for which the buffers are allocated.
unfoldable pub new_stream : ℕ → UrbStream
new_stream shift = record {
  substream = none;
  urbs_in_flight = 0;
  last_callback_time = 0;
  first_callback_time = 0;
  completions_since_start = 0;
  urbs_started_time = 0;
  dma_off = 0;
  period_off = 0;
  running = false;
  rate_committed = false;
  callbacks_active = 0;
  stopping = false;
  consec_errors = 0;
  stall_reported = false;
  stall_since = 0;
  retry_at = 0;
  retry_backoff_ms = watchdog_retry_min_ms;
  steady_since = 0;
  n_shift = shift;
  n_pkts = most_pkts;
}

unfoldable pub new_chip : ℕ → Chip
new_chip shift = record {
  playback = new_stream shift;
  capture = new_stream shift;
  disconnected = false;
  resetting = false;
  suspended = false;
  current_rate = 0;
  recovery_attempts = 0;
  recovery_window_start = 0;
  recovery_in_progress = false;
  warm_start = false;
  reset_rc = none;
  reset_done = false;
  midi_stopping = false;
  midi_consec_errors = 0;
}

abbrev pub no_card : Card
no_card = record { private_free = false; registered = false; freed_when_closed = false }

infixl 5 ◌>>◌
-- The rest of the steps, where the first does not fail.
abbrev pub ◌>>◌ : {Env Src : Type 0} → Step Env Src → Step Env Src → Step Env Src
◌>>◌ m k st = let (st1, failed) = m st in unless_failed failed (λ e. (st1, some e)) (k st1)

module _ {Env Src : Type 0} where
  -- A call into the ALSA core or the usb core, and what it does to the binding where it succeeds.
  unfoldable pub ask :
      (Env → Env × Option Errno) → (Binding Env Src → Binding Env Src) → Step Env Src
  ask service done st =
      let (env, failed) = service st.world.usb.device in
      let asked = put_env st env in unless_failed failed (λ e. (asked, some e)) (done asked, none)

  -- The chip of a new card, its references and its release function.
  unfoldable pub init_chip : ℕ → ℕ → Binding Env Src → Binding Env Src
  init_chip shift dev_idx st = record st {
    world = record (st.world) {
      chip = new_chip shift;
      midi = record {
        current_rate = 0;
        midi_out_acc = 0;
        midi_rate_divisor = 0;
        midi_state = fresh;
        midi_out_substream = none;
      };
      watchdog_due = none;
      reset_scheduled = false;
    };
    parts = null_parts;
    dev_idx = dev_idx;
    calls = take interface_1 ∷ take interface_0 ∷ take device ∷ take card ∷ st.calls;
    card = record { private_free = true; registered = false; freed_when_closed = false };
  }

  -- `usb_driver_release_interface` of interface 1 and `snd_card_free_when_closed`.
  unfoldable pub let_go : Binding Env Src → Binding Env Src
  let_go st = record st {
    bound_1 = false;
    calls = give card ∷ st.calls;
    card = record (st.card) { freed_when_closed = true };
  }

  -- `jockey3_free_resources`.
  unfoldable pub free_resources : Binding Env Src → Binding Env Src
  free_resources st = record st {
    world = record (st.world) { watchdog_due = none; reset_scheduled = false };
    used = release_slot st.dev_idx st.used;
    calls = give device ∷ give interface_0 ∷ give interface_1 ∷ free_parts st.parts st.calls;
  }

  -- The last file descriptor of the card is closed.
  unfoldable pub last_close : Binding Env Src → Binding Env Src
  last_close st =
      let freed = if st.card.private_free then free_resources st else st in
      if st.card.freed_when_closed then record freed { card = no_card } else st

module _ {Env Src : Type 0} (kernel : Kernel Env) where
  -- `jockey3_init_pcm`.
  unfoldable pub init_pcm : Step Env Src
  init_pcm = do
    ask kernel.pcm_new (λ st. st)
    ask kernel.add_playback_chmap (λ st. st)
    ask kernel.add_capture_chmap (λ st. st)

  -- `jockey3_init_midi`.
  unfoldable pub init_midi : Step Env Src
  init_midi = ask kernel.rawmidi_new (λ st. st)

module _ {Env Src : Type 0} (host : Host Env Src) where
  -- The label `err_free_card`.
  unfoldable pub err_free_card : Binding Env Src → Binding Env Src
  err_free_card st =
      let latched = record (st.world) {
        chip = record (st.world.chip) { disconnected = true };
        watchdog_due = none;
        reset_scheduled = false;
      } in
      let_go (record st { world = stop_urbs host latched; intfdata = false })

  -- `jockey3_disconnect` of either interface: the first tears all down.
  unfoldable pub unbind : Binding Env Src → Binding Env Src
  unbind st =
      if not st.intfdata || st.world.chip.disconnected
      then record st { intfdata = false }
      else let_go (record st { world = disconnect host st.world; intfdata = false })

module _ {Env Src : Type 0} (host : Host Env Src) (kernel : Kernel Env) where
  unfoldable pub initialize_chip : Step Env Src
  initialize_chip st =
      let (w, failed) = initialize host kernel.boot_delay st.world in
      (record st { world = w; intfdata = true }, failed)

  -- From the release function on: what may fail with the card there.
  unfoldable pub build : Step Env Src
  build = do
    init_xfer_buf kernel
    init_midi_urb kernel
    init_urbs kernel playback_direction
    init_urbs kernel capture_direction
    ask kernel.claim_interface (λ st. record st { bound_1 = true })
    init_pcm kernel
    init_midi kernel
    initialize_chip
    ask kernel.card_register (λ st. record st { card = record (st.card) { registered = true } })

  -- Behind the claim of a slot.
  unfoldable pub probe_slot : ℕ → Step Env Src
  probe_slot dev_idx st =
      let (env, failed) = kernel.card_new st.world.usb.device in
      let asked = put_env st env in
      let (built, r) = build (init_chip (host.ilog2 most_pkts) dev_idx asked) in
      unless_failed failed (λ e. (record asked { used = release_slot dev_idx asked.used }, some e))
        (unless_failed r (λ e. (err_free_card host built, some e)) (built, none))

  unfoldable pub probe_claimed : Result ℕ → Step Env Src
  probe_claimed (err e) st = (st, some e)
  probe_claimed (ok dev_idx) st = probe_slot dev_idx st

  unfoldable pub probe : ℕ → (ℕ → Bool) → Device → Step Env Src
  probe cards enable dev st =
      let (used, claimed) = claim_slot cards enable st.used in
      unless_failed (validate_device dev) (λ e. (st, some e))
        (probe_claimed claimed (record st { used = used }))
