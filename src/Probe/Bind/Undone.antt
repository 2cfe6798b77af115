-- ===== src/Probe/Bind/Undone.antt =====
-- What `jockey3_probe` leaves where it fails, and a bound device where it goes away (jockey3.c):
-- nothing.
use alsa_jockey.Prelude.{
  ℕ, ◌≡◌, refl, sym, ap, ◌∙◌, subst, arith, Bool, true, false, Option, none, some, ◌∷◌,
}
use alsa_jockey.Errno.{Errno}
use alsa_jockey.Proto.Session.{Result, err, ok}
use alsa_jockey.Stream.State.{Direction, playback_direction, capture_direction}
use alsa_jockey.Driver.World.{Host}
use alsa_jockey.Driver.Frames.{if_cases, unless_failed_both, unless_failed_cases}
use alsa_jockey.Driver.Ring.{stop_urbs}
use alsa_jockey.Probe.Calls.{Resource, card, give, taken, given}
use alsa_jockey.Probe.Slots.{claim_slot, release_slot}
use alsa_jockey.Probe.Slots.First.{IsFirst, IsClaim, claim_slot-IsClaim}
use alsa_jockey.Probe.State.{Card, Binding, Kernel, put_env}
use alsa_jockey.Probe.Parts.{most_pkts}
use alsa_jockey.Probe.Parts.Owned.{owned, owned_rings, owned_parts, free_parts-Gives}
use alsa_jockey.Probe.Parts.Taken.{IsEmpty}
use alsa_jockey.Probe.Endpoints.{Device, validate_device}
use alsa_jockey.Probe.Boot.Up.{IsNew}
use alsa_jockey.Probe.Bind.{
  null_slot, null_parts, new_stream, new_chip, no_card, init_chip, let_go, free_resources,
  last_close, build, err_free_card, probe_slot, probe_claimed, probe,
}
use alsa_jockey.Probe.Bind.Steps.{Empty, Owns}
use alsa_jockey.Probe.Bind.Built.{Bare, Bound, build-Triple}

-- No card, no binding, and all that was taken has been given back.
pub record IsIdle {Env Src : Type 0} (st : Binding Env Src) : Type 0 where
  pub balanced : (r : Resource) → taken r st.calls ≡ given r st.calls
  pub cardless : st.card ≡ no_card
  pub unbound : st.bound_1 ≡ false
  pub dataless : st.intfdata ≡ false

module _ {Env Src : Type 0} where
  -- The last close of a card that was let go.
  pub let_go-IsIdle :
      (i : ℕ) (used used0 : ℕ → Bool) (st : Binding Env Src)
      → Owns i used st
      → release_slot i used ≡ used0
      → st.intfdata ≡ false
      → IsIdle (last_close (let_go st)) × ((last_close (let_go st)).used ≡ used0)
  unfolding last_close let_go free_resources taken given
  let_go-IsIdle i used used0 st (balanced, idx, marks, frees) restores dataless =
      let gives = λ (r : Resource). free_parts-Gives r st.parts (give card ∷ st.calls) in
      let left : Binding Env Src → Type 0 = λ v. IsIdle v × (v.used ≡ used0) in
      rw frees (
        record {
          balanced = λ r. omega (arith, balanced r, (gives r).given_more, (gives r).taken_same);
          cardless = refl;
          unbound = refl;
          dataless = dataless;
        },
        rw (idx, marks) restores,
      )

  -- Where there is no card, none is freed.
  idle_close : (st : Binding Env Src) → st.card ≡ no_card → last_close st ≡ st
  unfolding last_close
  idle_close st e =
      if_cases (λ (v : Binding Env Src). v ≡ st) st.card.freed_when_closed
        (λ f. absurd_close (sym f ∙ ap (λ (c : Card). c.freed_when_closed) e)) (λ f. refl)
    where
      absurd_close : {A : Type 0} → true ≡ false → A
      absurd_close h = cc

  -- What a probe that fails leaves behind the last close of the card, if there was one.
  abbrev pub Undone : Binding Env Src → (ℕ → Bool) → Type 0
  Undone v used0 = IsIdle (last_close v) × ((last_close v).used ≡ used0)

  left_alone : (v : Binding Env Src) (used0 : ℕ → Bool) → IsIdle v → v.used ≡ used0 → Undone v used0
  left_alone v used0 idle kept =
      let same = idle_close v idle.cardless in
      subst (λ (x : Binding Env Src). IsIdle x × (x.used ≡ used0)) (sym same) (idle, kept)

null-owned : (r : Resource) → owned_parts r null_parts ≡ 0
unfolding owned owned_rings
null-owned r = omega arith

null-Empty : (d : Direction) → Empty d null_parts
null-Empty playback_direction =
    let s : IsEmpty null_slot = (refl, refl) in (s, (s, (s, (s, (s, (s, (s, (s, tt))))))))
null-Empty capture_direction =
    let s : IsEmpty null_slot = (refl, refl) in (s, (s, (s, (s, (s, (s, (s, (s, tt))))))))

new_chip-IsNew : (shift : ℕ) → IsNew (new_chip shift)
unfolding new_chip new_stream
new_chip-IsNew shift = record {
  here = refl;
  awake = refl;
  playback_out = refl;
  capture_out = refl;
  playback_claim = refl;
  capture_claim = refl;
}

-- A device that is bound: in the first slot that was free, whole, registered, and running.
pub record IsBound {Env Src : Type 0} (cards : ℕ) (enable : ℕ → Bool) (st v : Binding Env Src)
    : Type 0 where
  pub i : ℕ
  pub slot : IsFirst enable st.used 0 cards i
  pub marked : v.used i ≡ true
  pub restores : release_slot i v.used ≡ st.used
  pub bound : Bound i v.used v

module _ {Env Src : Type 0} (host : Host Env Src) (kernel : Kernel Env) (cards : ℕ)
    (enable : ℕ → Bool) where
  abbrev pub Outcome : Binding Env Src → Binding Env Src × Option Errno → Type 0
  Outcome st (v, r) =
      ((e : Errno) → r ≡ some e → Undone v st.used) × (r ≡ none → IsBound cards enable st v)

  probe_slot-Outcome :
      (i : ℕ) (st st1 : Binding Env Src)
      → IsIdle st1
      → IsClaim cards enable st.used st1.used (ok i)
      → Outcome st (probe_slot host kernel i st1)
  unfolding probe_slot err_free_card init_chip taken given
  probe_slot-Outcome i st st1 idle (first, mark, restores) =
      let (env, failed) = kernel.card_new st1.world.usb.device in
      let asked = put_env st1 env in
      let started = init_chip (host.ilog2 most_pkts) i asked in
      let (built, r) = build host kernel started in
      let shift = host.ilog2 most_pkts in
      let bare : Bare i st1.used (new_chip shift) started = (
        ((λ r. omega (arith, idle.balanced r, null-owned r), refl, refl, refl), refl, refl),
        refl,
        (refl, refl),
        null-Empty playback_direction,
        null-Empty capture_direction,
      ) in
      let ends =
        (build-Triple host kernel i st1.used (new_chip shift) (new_chip-IsNew shift)).ends started
          bare in
      unless_failed_cases (Outcome st) failed
        (λ e is. (
          λ e' is'.
              left_alone (record asked { used = release_slot i st1.used }) st.used
                (record {
                  balanced = idle.balanced;
                  cardless = idle.cardless;
                  unbound = idle.unbound;
                  dataless = idle.dataless;
                })
                restores,
          λ k. cc,
        ))
        λ here.
          unless_failed_cases (Outcome st) r
            (λ e is. (
              λ e' k.
                  let_go-IsIdle i st1.used st.used
                    (record built {
                      world = stop_urbs host (record (built.world) {
                        chip = record (built.world.chip) { disconnected = true };
                        watchdog_due = none;
                        reset_scheduled = false;
                      });
                      intfdata = false;
                    })
                    (ends.1 e is) restores refl,
              λ k. cc,
            ))
            (λ is. (
              λ e k. cc,
              λ k.
                  let whole = ends.0 is in
                  let marks = whole.0.0.2 in
                  record {
                    i = i;
                    slot = first;
                    marked = ap (λ (u : ℕ → Bool). u i) marks ∙ mark;
                    restores = ap (release_slot i) marks ∙ restores;
                    bound = subst (λ (u : ℕ → Bool). Bound i u built) (sym marks) whole;
                  },
            ))

  probe_claimed-Outcome :
      (st : Binding Env Src) (used : ℕ → Bool) (claimed : Result ℕ)
      → IsIdle st
      → IsClaim cards enable st.used used claimed
      → Outcome st (probe_claimed host kernel claimed (record st { used = used }))
  unfolding probe_claimed
  probe_claimed-Outcome st used (err e) idle (why, same, all_used) = (
    λ e' k.
        left_alone (record st { used = used }) st.used
          (record {
            balanced = idle.balanced;
            cardless = idle.cardless;
            unbound = idle.unbound;
            dataless = idle.dataless;
          })
          same,
    λ k. cc,
  )
  probe_claimed-Outcome st used (ok i) idle claim =
      probe_slot-Outcome i st (record st { used = used })
        (record {
          balanced = idle.balanced;
          cardless = idle.cardless;
          unbound = idle.unbound;
          dataless = idle.dataless;
        })
        claim

  pub probe-Outcome :
      (dev : Device) (st : Binding Env Src)
      → IsIdle st
      → Outcome st (probe host kernel cards enable dev st)
  unfolding probe
  probe-Outcome dev st idle =
      let (used, claimed) = claim_slot cards enable st.used in
      unless_failed_both (Outcome st) (validate_device dev)
        (λ e. (λ e' k. left_alone st st.used idle refl, λ k. cc))
        (probe_claimed-Outcome st used claimed idle (claim_slot-IsClaim cards enable st.used))
