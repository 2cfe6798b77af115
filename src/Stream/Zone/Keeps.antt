-- ===== src/Stream/Zone/Keeps.antt =====
-- What one critical section does to the safe zone (jockey3.c).
use alsa_jockey.Prelude.{
  ℕ, zero, suc, ◌-◌, ◌≤◌, ◌≡◌, refl, sym, ◌∙◌, arith, Bool, true, false, Option,
}
use alsa_jockey.Errno.{Errno}
use alsa_jockey.Codec.Batch.{Variant, CodecState}
use alsa_jockey.Stream.State.{UrbStream}
use alsa_jockey.Stream.Errors.{AlsaCore, note_completion}
use alsa_jockey.Stream.Capture.{join_and_take, finish}
use alsa_jockey.Stream.Playback.{join_and_give}
use alsa_jockey.Stream.Handler.{finish-balance}
use alsa_jockey.Stream.Zone.{
  Zone, Turn, captures, plays, finishes, passes, reports, reported, starts, stops, closes, notes,
  Note, counts_off, errs, opens, rewinds, resizes, commits, fences, unfences, completes, settle,
  join_report, leave_report, enter, exit_by, turn,
}
use alsa_jockey.Stream.Zone.Joins.{Admits, join_and_take-Admits, join_and_give-Admits}

-- `callbacks_active` counts the threads inside.
abbrev pub IsCounted : Zone → Type 0
IsCounted z = z.stream.callbacks_active ≡ z.inside

-- A turn that starts the stream, and one that lets a thread out.
abbrev pub is_start : Turn → Bool
is_start starts = true
is_start _ = false

abbrev pub is_exit : Turn → Bool
is_exit (finishes gone len r) = true
is_exit reported = true
is_exit _ = false

-- One turn: the count stays right; and a stream that does not run stays so, and lets nobody in, unless
-- it is started.
pub record Keeps (started : Bool) (z z' : Zone) : Type 0 where
  pub counted : IsCounted z → IsCounted z'
  pub stopped : started ≡ false → z.stream.running ≡ false → z'.stream.running ≡ false
  pub shut : started ≡ false → z.stream.running ≡ false → z'.inside ≤ z.inside

join_report-Admits : (s : UrbStream) → let (t, joined) = join_report s in Admits s t joined
unfolding join_report
join_report-Admits s = record {
  counted = ground arith;
  ran = ground arith;
  live = λ e. ground (arith, e);
}

enter-Keeps :
    (active : Bool) (z : Zone) (t : UrbStream)
    → Admits z.stream t active
    → Keeps false z (enter active t z.inside)
unfolding enter
enter-Keeps true z t a = record {
  counted = λ c. omega (arith, a.counted, c);
  stopped = λ e f. a.ran ∙ f;
  shut = λ e f. absurd_live (sym (a.live refl) ∙ f);
}
  where
    absurd_live : true ≡ false → suc z.inside ≤ z.inside
    absurd_live h = cc
enter-Keeps false z t a = record {
  counted = λ c. a.counted ∙ c;
  stopped = λ e f. a.ran ∙ f;
  shut = λ e f. omega arith;
}

exit_by-Keeps :
    (last : UrbStream → UrbStream) (n : ℕ) (s : UrbStream)
    → ((last s).callbacks_active ≡ s.callbacks_active - 1)
    → ((last s).running ≡ s.running)
    → Keeps false (record { stream = s; inside = n }) (exit_by last n s)
unfolding exit_by
exit_by-Keeps last zero s e f = record {
  counted = λ c. c;
  stopped = λ _ k. k;
  shut = λ _ _. omega arith;
}
exit_by-Keeps last (suc n) s e f = record {
  counted = λ c. omega (arith, e, c);
  stopped = λ _ k. f ∙ k;
  shut = λ _ _. omega arith;
}

exit_by_lem :
    (last : UrbStream → UrbStream) (n : ℕ) (s : UrbStream) → (exit_by last n s).inside ≤ n - 1
unfolding exit_by
exit_by_lem last zero s = omega arith
exit_by_lem last (suc n) s = omega arith

finish-running :
    (gone active : Bool) (len : ℕ) (r : Option Errno) (s : UrbStream)
    → (finish gone active len r s).stream.running ≡ s.running
unfolding finish
finish-running gone active len r s = ground arith

settle_lem :
    (note : Note) (s : UrbStream)
    → ((settle note s).callbacks_active ≡ s.callbacks_active)
      × ((settle note s).running ≡ s.running)
unfolding settle note_completion
settle_lem counts_off s = (refl, refl)
settle_lem errs s = (refl, refl)
settle_lem (opens sub) s = (refl, refl)
settle_lem rewinds s = (refl, refl)
settle_lem (resizes shift n) s = (refl, refl)
settle_lem (commits committed) s = (refl, refl)
settle_lem fences s = (refl, refl)
settle_lem unfences s = (refl, refl)
settle_lem (completes now) s = (refl, refl)

module _ (v : Variant) (codec : CodecState) (core : AlsaCore) where
  pub turn-Keeps : (t : Turn) (z : Zone) → Keeps (is_start t) z (turn v codec core t z)
  unfolding turn leave_report
  turn-Keeps (captures valid c) z =
      enter-Keeps (join_and_take v codec core valid c z.stream).2 z _
        (join_and_take-Admits v codec core valid c z.stream)
  turn-Keeps (plays valid buf) z =
      enter-Keeps (join_and_give v codec valid z.stream buf).3 z _
        (join_and_give-Admits v codec core valid buf z.stream)
  turn-Keeps (finishes gone len r) z =
      exit_by-Keeps (λ s. (finish gone true len r s).stream) z.inside z.stream
        (finish-balance gone true len r z.stream).0 (finish-running gone true len r z.stream)
  turn-Keeps (passes gone len r) z = record {
    counted = λ c. (finish-balance gone false len r z.stream).0 ∙ c;
    stopped = λ _ k. finish-running gone false len r z.stream ∙ k;
    shut = λ _ _. omega arith;
  }
  turn-Keeps reports z = enter-Keeps (join_report z.stream).1 z _ (join_report-Admits z.stream)
  turn-Keeps reported z = exit_by-Keeps leave_report z.inside z.stream refl refl
  turn-Keeps starts z = record { counted = λ c. c; stopped = λ e k. cc; shut = λ _ _. omega arith }
  turn-Keeps stops z = record { counted = λ c. c; stopped = λ e k. refl; shut = λ _ _. omega arith }
  turn-Keeps (closes shift n) z = record {
    counted = λ c. c;
    stopped = λ e k. refl;
    shut = λ _ _. omega arith;
  }
  turn-Keeps (notes note) z =
      let (same_count, same_run) = settle_lem note z.stream in
      record {
        counted = λ c. same_count ∙ c;
        stopped = λ e k. same_run ∙ k;
        shut = λ _ _. omega arith;
      }

  pub turn-exit :
      (t : Turn) (z : Zone) → is_exit t ≡ true → (turn v codec core t z).inside ≤ z.inside - 1
  unfolding turn exit_by
  turn-exit (captures valid c) z e = cc
  turn-exit (plays valid buf) z e = cc
  turn-exit (finishes gone len r) z e =
      exit_by_lem (λ s. (finish gone true len r s).stream) z.inside z.stream
  turn-exit (passes gone len r) z e = cc
  turn-exit reports z e = cc
  turn-exit reported z e = exit_by_lem leave_report z.inside z.stream
  turn-exit starts z e = cc
  turn-exit stops z e = cc
  turn-exit (closes shift n) z e = cc
  turn-exit (notes note) z e = cc
