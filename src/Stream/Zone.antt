-- ===== src/Stream/Zone.antt =====
-- The safe zone (jockey3.c): threads between joining and leaving it hold a pointer to the substream,
-- while `jockey3_pcm_sync_stop` waits for them. The critical sections of one direction are taken one
-- after the other, in any order.
pub mod Joins
pub mod Keeps
pub mod Drained
use alsa_jockey.Prelude.{
  ℕ, zero, suc, ◌+◌, ◌-◌, ◌==◌, Bool, true, false, ◌&&◌, if◌then◌else◌, Option, none, some, List,
  [], ◌∷◌, u32,
}
use alsa_jockey.Errno.{Errno}
use alsa_jockey.Codec.Memory.{Buffer}
use alsa_jockey.Codec.Batch.{Variant, CodecState}
use alsa_jockey.Stream.State.{UrbStream, Substream, has_substream}
use alsa_jockey.Stream.Errors.{AlsaCore, note_completion}
use alsa_jockey.Stream.Capture.{Completion, join_and_take, finish}
use alsa_jockey.Stream.Playback.{join_and_give}

-- A direction, and how many threads are in its safe zone.
pub record Zone : Type 0 where
  pub stream : UrbStream
  pub inside : ℕ

-- What lets nobody in or out: a URB is counted off in a handler, an error in
-- `jockey3_urb_error_give_up`; `jockey3_pcm_open`; the end of `jockey3_pcm_prepare`;
-- `jockey3_pcm_set_n`; `jockey3_set_rate_committed`; the fences of `jockey3_stop_urbs`, and of
-- `jockey3_start_urbs`; `jockey3_note_completion`.
pub data Note : Type 0 where
  counts_off errs : Note
  opens : Substream → Note
  rewinds : Note
  resizes : ℕ → ℕ → Note
  commits : Bool → Note
  fences unfences : Note
  completes : ℕ → Note

-- What may come next. The two handlers' step 1, with whether their data are valid; the last section of
-- a handler that is in the zone, and of one that is not; the first and the last section of
-- `jockey3_report_xrun`; the start and the stop of the stream by .trigger; .close, with the packets of
-- an idle direction; a section of the others.
pub data Turn : Type 0 where
  captures : Bool → Completion → Turn
  plays : Bool → Buffer → Turn
  finishes : Bool → ℕ → Option Errno → Turn
  passes : Bool → ℕ → Option Errno → Turn
  reports : Turn
  reported : Turn
  starts stops : Turn
  closes : ℕ → ℕ → Turn
  notes : Note → Turn

unfoldable pub settle : Note → UrbStream → UrbStream
settle counts_off s = record s { urbs_in_flight = s.urbs_in_flight - 1 }
settle errs s = record s { consec_errors = u32 (s.consec_errors + 1) }
settle (opens sub) s = record s { substream = some sub }
settle rewinds s = record s { dma_off = 0; period_off = 0 }
settle (resizes shift n) s = record s { n_shift = shift; n_pkts = n }
settle (commits committed) s = record s { rate_committed = committed }
settle fences s = record s { stopping = true }
settle unfences s = record s { stopping = false; consec_errors = 0 }
settle (completes now) s = note_completion s now

-- The first section of `jockey3_report_xrun`, with whether the thread joined.
unfoldable pub join_report : UrbStream → UrbStream × Bool
join_report s =
    if s.running && has_substream s
    then (record s { callbacks_active = s.callbacks_active + 1 }, true)
    else (s, false)

-- Its last section.
unfoldable pub leave_report : UrbStream → UrbStream
leave_report s = record s { callbacks_active = s.callbacks_active - 1 }

unfoldable pub enter : Bool → UrbStream → ℕ → Zone
enter true s n = record { stream = s; inside = suc n }
enter false s n = record { stream = s; inside = n }

-- A thread that is inside leaves by its last section; where there is none, nothing happens.
unfoldable pub exit_by : (UrbStream → UrbStream) → ℕ → UrbStream → Zone
exit_by last zero s = record { stream = s; inside = zero }
exit_by last (suc n) s = record { stream = last s; inside = n }

module _ (v : Variant) (codec : CodecState) (core : AlsaCore) where
  unfoldable pub turn : Turn → Zone → Zone
  turn (captures valid c) z =
      let (s, moved, active, elapsed) = join_and_take v codec core valid c z.stream in
      enter active s z.inside
  turn (plays valid buf) z =
      let (s, out, moved, active, elapsed) = join_and_give v codec valid z.stream buf in
      enter active s z.inside
  turn (finishes gone len r) z = exit_by (λ s. (finish gone true len r s).stream) z.inside z.stream
  turn (passes gone len r) z = record z { stream = (finish gone false len r z.stream).stream }
  turn reports z = let (s, joined) = join_report z.stream in enter joined s z.inside
  turn reported z = exit_by leave_report z.inside z.stream
  turn starts z = record z { stream = record (z.stream) { running = true } }
  turn stops z = record z { stream = record (z.stream) { running = false } }
  turn (closes shift n) z = record z {
    stream = record (z.stream) {
      substream = none;
      running = false;
      rate_committed = false;
      n_shift = shift;
      n_pkts = n;
    };
  }
  turn (notes note) z = record z { stream = settle note z.stream }

  unfoldable pub turns : List Turn → Zone → Zone
  turns [] z = z
  turns (t ∷ ts) z = turns ts (turn t z)

  -- `jockey3_pcm_sync_stop`, given what happens within its second: the zone when it returns, and
  -- whether it saw `callbacks_active` at 0.
  unfoldable pub pcm_sync_stop : List Turn → Zone → Zone × Bool
  pcm_sync_stop [] z = (z, z.stream.callbacks_active == 0)
  pcm_sync_stop (t ∷ ts) z =
      let later = pcm_sync_stop ts (turn t z) in
      if z.stream.callbacks_active == 0 then (z, true) else later
