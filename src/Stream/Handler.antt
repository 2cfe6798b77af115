-- ===== src/Stream/Handler.antt =====
-- What both completion handlers of jockey3.c share behind their packet loops: the counters of a
-- stream, and the end of a handler.
pub mod Status
use alsa_jockey.Prelude.{
  ℕ, ◌+◌, ◌-◌, ◌^◌, ◌≤◌, ◌<◌, ◌≡◌, refl, ◌∙◌, arith, Bool, true, false, leb, ◌&&◌, ◌||◌,
  if◌then◌else◌, Option, none, some, Bool-cases, inl, inr, u32, ◌⊎◌,
}
use alsa_jockey.Errno.{Errno}
use alsa_jockey.Codec.Batch.{Variant, CodecState}
use alsa_jockey.Stream.State.{UrbStream, has_substream, max_urb_errors}
use alsa_jockey.Stream.Errors.{
  UrbState, urb_ok, urb_stopped, urb_error, AlsaCore, note_completion, report_xrun,
  urb_error_give_up,
}
use alsa_jockey.Stream.Capture.{Done, finish, period_elapsed}

-- The fields that moving a packet leaves alone.
pub record IsSameRun (s t : UrbStream) : Type 0 where
  pub in_flight : t.urbs_in_flight ≡ s.urbs_in_flight
  pub active : t.callbacks_active ≡ s.callbacks_active
  pub errors : t.consec_errors ≡ s.consec_errors
  pub halted : t.stopping ≡ s.stopping
  pub committed : t.rate_committed ≡ s.rate_committed

abbrev pub IsSameRun-refl : (s : UrbStream) → IsSameRun s s
IsSameRun-refl s = record {
  in_flight = refl;
  active = refl;
  errors = refl;
  halted = refl;
  committed = refl;
}

pub IsSameRun-trans : {s t u : UrbStream} → IsSameRun s t → IsSameRun t u → IsSameRun s u
IsSameRun-trans a b = record {
  in_flight = b.in_flight ∙ a.in_flight;
  active = b.active ∙ a.active;
  errors = b.errors ∙ a.errors;
  halted = b.halted ∙ a.halted;
  committed = b.committed ∙ a.committed;
}

pub report_xrun_lem : (core : AlsaCore) (s : UrbStream) → IsSameRun s (report_xrun core s)
unfolding report_xrun
report_xrun_lem core s = elim (Bool-cases (s.running && has_substream s)) [
  | inl e ↦ rw e (record {
    in_flight = refl;
    active = omega arith;
    errors = refl;
    halted = refl;
    committed = refl;
  })
  | inr e ↦ rw e (IsSameRun-refl s)
]

-- The counters that finish leaves: a taken URB is in flight again.
unfoldable pub one_if : Option ℕ → ℕ
one_if none = 0
one_if (some _) = 1

finish-in_flight :
    (gone active : Bool) (len : ℕ) (r : Option Errno) (s : UrbStream)
    → (finish gone active len r s).stream.urbs_in_flight
      ≡ s.urbs_in_flight + one_if (finish gone active len r s).submitted
unfolding finish one_if
finish-in_flight gone active len r s = ground arith

pub finish-balance :
    (gone active : Bool) (len : ℕ) (r : Option Errno) (s : UrbStream)
    → ((finish gone active len r s).stream.callbacks_active
        ≡ (if active then s.callbacks_active - 1 else s.callbacks_active))
      × ((finish gone active len r s).stream.consec_errors ≡ s.consec_errors)
      × ((finish gone active len r s).stream.rate_committed ≡ s.rate_committed)
      × ((finish gone active len r s).stream.stopping ≡ s.stopping)
unfolding finish
finish-balance gone active len r s = ground arith

-- What step 1 may do to the counters.
pub record IsJoined (valid : Bool) (s t : UrbStream) (moved active : Bool) : Type 0 where
  pub in_flight : t.urbs_in_flight ≡ s.urbs_in_flight
  pub joined : t.callbacks_active ≡ (if active then s.callbacks_active + 1 else s.callbacks_active)
  pub halted : t.stopping ≡ s.stopping
  pub errors : t.consec_errors ≡ (if moved then 0 else s.consec_errors)
  pub unusable : valid ≡ false → moved ≡ false
  pub given_up : max_urb_errors ≤ s.consec_errors → moved ≡ false
  pub committed : t.rate_committed ≡ s.rate_committed

note_if :
    (moved : Bool) (s : UrbStream) (now : ℕ)
    → IsSameRun s (if moved then note_completion s now else s)
unfolding note_completion
note_if moved s now = record {
  in_flight = ground arith;
  active = ground arith;
  errors = ground arith;
  halted = ground arith;
  committed = ground arith;
}

period_elapsed-IsSameRun :
    (v : Variant) (codec : CodecState) (core : AlsaCore) (e : Bool) (s : UrbStream)
    → IsSameRun s (period_elapsed v codec core e s)
unfolding period_elapsed
period_elapsed-IsSameRun v codec core e s = record {
  in_flight = ground arith;
  active = ground arith;
  errors = ground arith;
  halted = ground arith;
  committed = ground arith;
}

-- What the part behind the status check does, whatever it was given.
pub record IsCompleted (gone valid : Bool) (taken_back : Option Errno) (s : UrbStream) (d : Done)
    : Type 0 where
  pub in_flight : d.stream.urbs_in_flight ≡ s.urbs_in_flight + one_if d.submitted
  pub active : d.stream.callbacks_active ≡ s.callbacks_active
  pub spoilt : valid ≡ false → d.stream.consec_errors ≡ s.consec_errors
  pub given_up : max_urb_errors ≤ s.consec_errors → d.stream.consec_errors ≡ s.consec_errors
  pub committed : d.stream.rate_committed ≡ s.rate_committed
  pub halted : d.stream.stopping ≡ s.stopping
  pub gone_end : gone ≡ true → d.submitted ≡ none
  pub given_up_end : max_urb_errors ≤ s.consec_errors → d.submitted ≡ none
  pub stopping_end : s.stopping ≡ true → d.submitted ≡ none
  pub continues :
      gone ≡ false
      → s.stopping ≡ false
      → s.consec_errors < max_urb_errors
      → taken_back ≡ none
      → one_if d.submitted ≡ 1

finish-end :
    (gone active : Bool) (len : ℕ) (r : Option Errno) (s : UrbStream)
    → (gone ≡ true → (finish gone active len r s).submitted ≡ none)
      × (max_urb_errors ≤ s.consec_errors → (finish gone active len r s).submitted ≡ none)
      × (s.stopping ≡ true → (finish gone active len r s).submitted ≡ none)
unfolding finish
finish-end gone active len r s =
    (λ e. ground (arith, e), λ e. ground (arith, e), λ e. ground (arith, e))

finish-continues :
    (gone active : Bool) (len : ℕ) (r : Option Errno) (s : UrbStream)
    → gone ≡ false
    → s.stopping ≡ false
    → s.consec_errors < max_urb_errors
    → r ≡ none
    → one_if (finish gone active len r s).submitted ≡ 1
unfolding finish one_if
finish-continues gone active len r s a b c d = ground (arith, a, b, c, d)

-- Behind step 1 both handlers do the same, but for the length they submit.
pub handler_end-IsCompleted :
    (v : Variant) (codec : CodecState) (core : AlsaCore) (gone valid moved active elapsed : Bool)
    (now len : ℕ) (r : Option Errno) (s s1 : UrbStream)
    → IsJoined valid s s1 moved active
    → IsCompleted gone valid r s (
        finish gone active len r
          (period_elapsed v codec core elapsed (if moved then note_completion s1 now else s1)))
handler_end-IsCompleted v codec core gone valid moved active elapsed now len r s s1 joined =
    let s2 : UrbStream = if moved then note_completion s1 now else s1 in
    let s3 = period_elapsed v codec core elapsed s2 in
    let told =
      IsSameRun-trans (note_if moved s1 now) (period_elapsed-IsSameRun v codec core elapsed s2) in
    let ended = finish-end gone active len r s3 in
    let counted = finish-in_flight gone active len r s3 in
    let left = finish-balance gone active len r s3 in
    let errors : s3.consec_errors ≡ (if moved then 0 else s.consec_errors) =
      told.errors ∙ joined.errors in
    let same : s3.callbacks_active
        ≡ (if active then s.callbacks_active + 1 else s.callbacks_active) =
      told.active ∙ joined.joined in
    record {
      in_flight = omega (arith, counted, told.in_flight, joined.in_flight);
      active = ground (arith, left, same);
      spoilt = λ e. ground (arith, left, errors, joined.unusable e);
      given_up = λ e. ground (arith, left, errors, joined.given_up e);
      committed = left.2 ∙ told.committed ∙ joined.committed;
      halted = left.3 ∙ told.halted ∙ joined.halted;
      gone_end = ended.0;
      given_up_end = λ e. ended.1 (ground (arith, errors, joined.given_up e));
      continues = λ e k j t.
          finish-continues gone active len r s3 e (told.halted ∙ joined.halted ∙ k)
            (ground (arith, errors, j)) t;
      stopping_end = λ e. ended.2 (told.halted ∙ joined.halted ∙ e);
    }
