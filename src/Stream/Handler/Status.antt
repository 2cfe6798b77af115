-- ===== src/Stream/Handler/Status.antt =====
-- What both completion handlers of jockey3.c do with the classified status of a URB.
use alsa_jockey.Prelude.{
  ◌+◌, ◌-◌, ◌^◌, ◌≤◌, ◌<◌, ◌≡◌, refl, ◌∙◌, arith, Bool, true, false, leb, ◌||◌, if◌then◌else◌,
  Option, none, Bool-cases, inl, inr, u32, ◌⊎◌,
}
use alsa_jockey.Errno.{Errno}
use alsa_jockey.Stream.State.{UrbStream, max_urb_errors}
use alsa_jockey.Stream.Errors.{
  UrbState, urb_ok, urb_stopped, urb_error, AlsaCore, urb_error_give_up,
}
use alsa_jockey.Stream.Capture.{Done}
use alsa_jockey.Stream.Handler.{one_if, IsCompleted, report_xrun_lem}

-- What one error does to the stream's counters.
urb_error_give_up_lem :
    (core : AlsaCore) (s : UrbStream)
    → let (t, give_up) = urb_error_give_up core s in
      (t.urbs_in_flight ≡ s.urbs_in_flight)
      × (t.callbacks_active ≡ s.callbacks_active)
      × (t.stopping ≡ s.stopping)
      × (t.consec_errors ≡ u32 (s.consec_errors + 1))
      × (t.rate_committed ≡ s.rate_committed)
      × (give_up ≡ leb max_urb_errors (u32 (s.consec_errors + 1)))
unfolding urb_error_give_up
urb_error_give_up_lem core s =
    let told = report_xrun_lem core (record s { consec_errors = u32 (s.consec_errors + 1) }) in
    (
      ground (arith, told.in_flight),
      ground (arith, told.active),
      ground (arith, told.halted),
      ground (arith, told.errors),
      ground (arith, told.committed),
      ground arith,
    )

-- The handler once the status is classified; `completed` is the part behind the status check.
unfoldable pub handle : AlsaCore → UrbState → Bool → (Bool → UrbStream → Done) → UrbStream → Done
handle core urb_stopped gone completed s = record {
  stream = record s { urbs_in_flight = s.urbs_in_flight - 1 };
  submitted = none;
}
handle core urb_error gone completed s =
    let (blamed, give_up) =
      urb_error_give_up core (record s { urbs_in_flight = s.urbs_in_flight - 1 }) in
    if give_up || gone then record { stream = blamed; submitted = none } else completed false blamed
handle core urb_ok gone completed s =
    let s0 = record s { urbs_in_flight = s.urbs_in_flight - 1 } in
    if gone then record { stream = s0; submitted = none } else completed true s0

-- The handler with the status already classified.
pub record IsHandled (u : UrbState) (gone : Bool) (taken_back : Option Errno) (s : UrbStream)
    (d : Done) : Type 0 where
  pub in_flight : d.stream.urbs_in_flight ≡ s.urbs_in_flight - 1 + one_if d.submitted
  pub active : d.stream.callbacks_active ≡ s.callbacks_active
  pub given_up :
      max_urb_errors ≤ s.consec_errors
      → s.consec_errors + 1 < 2 ^ 32
      → max_urb_errors ≤ d.stream.consec_errors
  pub committed : d.stream.rate_committed ≡ s.rate_committed
  pub halted : d.stream.stopping ≡ s.stopping
  pub gone_end : gone ≡ true → d.submitted ≡ none
  pub given_up_end :
      max_urb_errors ≤ s.consec_errors → s.consec_errors + 1 < 2 ^ 32 → d.submitted ≡ none
  pub stopping_end : s.stopping ≡ true → d.submitted ≡ none
  pub after_error :
      u ≡ urb_error
      → gone ≡ false
      → s.consec_errors + 1 < max_urb_errors
      → d.stream.consec_errors ≡ s.consec_errors + 1
  pub continues :
      gone ≡ false
      → s.stopping ≡ false
      → (u ≡ urb_ok ⊎ u ≡ urb_error)
      → s.consec_errors + 1 < max_urb_errors
      → taken_back ≡ none
      → one_if d.submitted ≡ 1

pub handle-IsHandled :
    (core : AlsaCore) (u : UrbState) (gone : Bool) (r : Option Errno)
    (completed : Bool → UrbStream → Done) (s : UrbStream)
    → ((valid : Bool) (t : UrbStream) → IsCompleted gone valid r t (completed valid t))
    → IsHandled u gone r s (handle core u gone completed s)
unfolding one_if handle
handle-IsHandled core urb_stopped gone r completed s part = record {
  in_flight = omega arith;
  active = refl;
  given_up = λ a b. omega arith;
  committed = refl;
  halted = refl;
  gone_end = λ _. refl;
  given_up_end = λ _ _. refl;
  stopping_end = λ _. refl;
  after_error = λ e _ _. grind arith;
  continues = λ _ _ e. grind arith;
}
handle-IsHandled core urb_error gone r completed s part =
    let s0 : UrbStream = record s { urbs_in_flight = s.urbs_in_flight - 1 } in
    let (blamed, give_up) = urb_error_give_up core s0 in
    let blame = urb_error_give_up_lem core s0 in
    let rest = part false blamed in
    elim (Bool-cases (give_up || gone)) [
      | inl e ↦ rw e (record {
        in_flight = omega (arith, blame.0);
        active = blame.1;
        given_up = λ a b. omega (arith, blame.3);
        committed = blame.4;
        halted = blame.2;
        gone_end = λ _. refl;
        given_up_end = λ _ _. refl;
        stopping_end = λ _. refl;
        after_error = λ _ _ k. omega (arith, blame.3);
        continues = λ g _ _ k. ground (arith, blame.5, g, k, e);
      })
      | inr e ↦ rw e (record {
        in_flight = omega (arith, blame.0, rest.in_flight);
        active = rest.active ∙ blame.1;
        given_up = λ a b. omega (arith, blame.3, rest.spoilt refl);
        committed = rest.committed ∙ blame.4;
        halted = rest.halted ∙ blame.2;
        gone_end = rest.gone_end;
        given_up_end = λ a b. rest.given_up_end (omega (arith, blame.3));
        stopping_end = λ k. rest.stopping_end (blame.2 ∙ k);
        after_error = λ _ _ k. omega (arith, blame.3, rest.spoilt refl);
        continues = λ g st _ k. rest.continues g (blame.2 ∙ st) (omega (arith, blame.3));
      })
    ]
handle-IsHandled core urb_ok true r completed s part = record {
  in_flight = omega arith;
  active = refl;
  given_up = λ a b. omega arith;
  committed = refl;
  halted = refl;
  gone_end = λ _. refl;
  given_up_end = λ _ _. refl;
  stopping_end = λ _. refl;
  after_error = λ e _ _. grind arith;
  continues = λ g _ _ _. grind arith;
}
handle-IsHandled core urb_ok false r completed s part =
    let s0 : UrbStream = record s { urbs_in_flight = s.urbs_in_flight - 1 } in
    let rest = part true s0 in
    record {
      in_flight = rest.in_flight;
      active = rest.active;
      given_up = λ a b. omega (arith, rest.given_up a);
      committed = rest.committed;
      halted = rest.halted;
      gone_end = rest.gone_end;
      given_up_end = λ a b. rest.given_up_end a;
      stopping_end = rest.stopping_end;
      after_error = λ e _ _. grind arith;
      continues = λ g st _ k. rest.continues g st (omega arith);
    }
