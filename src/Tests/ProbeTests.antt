-- ===== src/Tests/ProbeTests.antt =====
-- Card slots, probe and unbinding (jockey3.c) on a concrete kernel.
use alsa_jockey.Prelude.{ℕ, ◌+◌, ◌==◌, ◌≡◌, refl, Bool, true, false, none, some, List, [], ◌∷◌}
use alsa_jockey.Errno.{enomem}
use alsa_jockey.Tests.DriverTests.{host, world}
use alsa_jockey.Probe.Calls.{given, taken}
use alsa_jockey.Probe.Slots.{claim_slot, take_slot, first_unused}
use alsa_jockey.Probe.Slots.First.{IsClaim, claim_slot-IsClaim}
use alsa_jockey.Probe.Parts.{
  init_xfer_buf, init_midi_urb, init_midi_in, init_urbs, init_slots, alloc_block, alloc_urb,
  log_taken, if_null,
}
use alsa_jockey.Probe.Boot.{initialize, attempts, start_up, is_settled, retry_pause}
use alsa_jockey.Proto.Session.{transfer, sleep, ctrl_ep_unresponsive}
use alsa_jockey.Proto.Calls.{
  initialize_device, activate, bounce, get_firmware, get_status, clear_halts, start_streaming,
  get_rate, set_rate, burst_and_verify, rate_burst, buf_at, rate_bytes, rate_of,
}
use alsa_jockey.Driver.World.{unless_failed}
use alsa_jockey.Driver.Device.{
  jockey3_set_rate, program_rate, publish_rate, initialize_ploytec, program_start,
}
use alsa_jockey.Driver.Ring.{
  start_urbs, run_urbs, submit_urbs, submit_pcm_urb, submit_midi_in, open_fence, stamp_start,
  count_off, open_fences, stamp, watchdog_clear_stall, queue_watchdog,
}
use alsa_jockey.Probe.State.{Binding, Kernel}
use alsa_jockey.Probe.Endpoints.{
  Device, Endpoint, validate_device, validate_endpoints, has_bulk_endpoint, any_bulk, is_bulk,
}
use alsa_jockey.Probe.Bind.{
  null_parts, no_card, probe, unbind, last_close, probe_claimed, probe_slot, init_chip, new_chip,
  new_stream, build, ask, init_pcm, init_midi, initialize_chip,
}
use alsa_jockey.Probe.Bind.Undone.{IsIdle, IsBound}
use alsa_jockey.Probe.Bind.Life.{probe-IsIdle, probe-IsBound, unbind-IsIdle}

-- Addresses are counted up by the environment; every call succeeds.
abbrev kernel : Kernel ℕ
kernel = record {
  kmalloc = λ env. (env + 1, some env);
  usb_alloc_urb = λ env. (env + 1, some env);
  boot_delay = λ env. env + 250000000;
  card_new = λ env. (env, none);
  claim_interface = λ env. (env, none);
  pcm_new = λ env. (env, none);
  add_playback_chmap = λ env. (env, none);
  add_capture_chmap = λ env. (env, none);
  rawmidi_new = λ env. (env, none);
  card_register = λ env. (env, none);
}

-- One that cannot register the card.
abbrev full_kernel : Kernel ℕ
full_kernel = record kernel { card_register = λ env. (env, some enomem) }

abbrev out_5 : Endpoint
out_5 = record { is_bulk_out = true; is_bulk_in = false; num = 5 }

abbrev in_3 : Endpoint
in_3 = record { is_bulk_out = false; is_bulk_in = true; num = 3 }

abbrev in_6 : Endpoint
in_6 = record { is_bulk_out = false; is_bulk_in = true; num = 6 }

abbrev jockey : Device
jockey = record {
  interface_number = 0;
  intf0 = some (out_5 ∷ in_3 ∷ []);
  intf1 = some (some (in_6 ∷ []));
}

-- Slot 0 is in use.
abbrev unplugged : Binding ℕ (List ℕ)
unplugged = record {
  world = world;
  parts = null_parts;
  dev_idx = 0;
  used = λ i. i == 0;
  calls = [];
  card = no_card;
  intfdata = false;
  bound_1 = false;
}

unplugged-IsIdle : IsIdle unplugged
unfolding given taken
unplugged-IsIdle = record { balanced = λ r. refl; cardless = refl; unbound = refl; dataless = refl }

abbrev every : ℕ → Bool
every i = true

abbrev plugged : Binding ℕ (List ℕ)
plugged = (probe host kernel 32 every jockey unplugged).0

claim_slot_example :
    let (used, r) = claim_slot 32 every unplugged.used in IsClaim 32 every unplugged.used used r
claim_slot_example = claim_slot-IsClaim 32 every unplugged.used

plugged-well : (probe host kernel 32 every jockey unplugged).1 ≡ none
unfolding probe probe_claimed probe_slot validate_device validate_endpoints has_bulk_endpoint
    any_bulk is_bulk claim_slot take_slot first_unused init_chip new_chip new_stream build ask
    init_xfer_buf init_midi_urb init_midi_in init_urbs init_slots alloc_block alloc_urb log_taken
    if_null init_pcm init_midi initialize_chip initialize attempts start_up is_settled retry_pause
    initialize_ploytec program_start publish_rate jockey3_set_rate program_rate initialize_device
    activate bounce get_firmware get_status clear_halts start_streaming get_rate set_rate
    burst_and_verify rate_burst transfer sleep unless_failed start_urbs run_urbs submit_urbs
    submit_pcm_urb submit_midi_in open_fences open_fence stamp stamp_start watchdog_clear_stall
    queue_watchdog count_off buf_at rate_bytes rate_of ctrl_ep_unresponsive
plugged-well = refl

full-fails : (probe host full_kernel 32 every jockey unplugged).1 ≡ some enomem
unfolding probe probe_claimed probe_slot validate_device validate_endpoints has_bulk_endpoint
    any_bulk is_bulk claim_slot take_slot first_unused init_chip new_chip new_stream build ask
    init_xfer_buf init_midi_urb init_midi_in init_urbs init_slots alloc_block alloc_urb log_taken
    if_null init_pcm init_midi initialize_chip initialize attempts start_up is_settled retry_pause
    initialize_ploytec program_start publish_rate jockey3_set_rate program_rate initialize_device
    activate bounce get_firmware get_status clear_halts start_streaming get_rate set_rate
    burst_and_verify rate_burst transfer sleep unless_failed start_urbs run_urbs submit_urbs
    submit_pcm_urb submit_midi_in open_fences open_fence stamp stamp_start watchdog_clear_stall
    queue_watchdog count_off buf_at rate_bytes rate_of ctrl_ep_unresponsive
full-fails = refl

probe-IsIdle_example :
    let v = last_close (probe host full_kernel 32 every jockey unplugged).0 in
    IsIdle v × (v.used ≡ unplugged.used)
probe-IsIdle_example =
    probe-IsIdle host full_kernel 32 every jockey unplugged enomem unplugged-IsIdle full-fails

probe-IsBound_example : IsBound 32 every unplugged plugged
probe-IsBound_example =
    probe-IsBound host kernel 32 every jockey unplugged unplugged-IsIdle plugged-well

unbind-IsIdle_example :
    let v = last_close (unbind host (record plugged { world = world })) in
    IsIdle v × (v.used ≡ unplugged.used)
unbind-IsIdle_example =
    unbind-IsIdle host kernel 32 every jockey unplugged world unplugged-IsIdle plugged-well refl
