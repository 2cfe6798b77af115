-- ===== src/Driver/Pcm/Interlock.antt =====
-- The rate interlock (jockey3.c): what `jockey3_pcm_change_rate` does to the rate and the directions'
-- claims on it.
use alsa_jockey.Prelude.{
  ℕ, ◌+◌, ◌≡◌, refl, ap, sym, subst, ◌∙◌, arith, Bool, true, false, ltb, ◌==◌, Option, none, some,
}
use alsa_jockey.Errno.{Errno, enodev, ebusy}
use alsa_jockey.Stream.State.{Direction, playback_direction, capture_direction}
use alsa_jockey.Driver.World.{Host, World}
use alsa_jockey.Driver.Ring.{stop_urbs}
use alsa_jockey.Driver.Device.{jockey3_set_rate, publish_rate}
use alsa_jockey.Driver.Pcm.{
  one_if_true, set_rate_committed, rate_committed_streams, reprogram, pcm_change_rate,
}
use alsa_jockey.Driver.Frames.{
  Claims, Ledger, claims, if_cases, unless_failed_both, stop_urbs-ledger, start_urbs-ledger,
}
use alsa_jockey.Driver.Frames.Recovery.{jockey3_set_rate-ledger}

abbrev pub claim_of : Direction → Claims → Bool
claim_of playback_direction c = c.of_playback
claim_of capture_direction c = c.of_capture

abbrev pub other : Direction → Direction
other playback_direction = capture_direction
other capture_direction = playback_direction

abbrev pub claim : Direction → Bool → Claims → Claims
claim playback_direction b c = record c { of_playback = b }
claim capture_direction b c = record c { of_capture = b }

-- What a call that asks for the rate does to the claims: the other direction keeps its claim, and the
-- rate with it; and where it succeeds this direction holds the rate that it asked for.
pub record IsGranted (d : Direction) (rate : ℕ) (a b : Claims) (failed : Option Errno)
    : Type 0 where
  pub other_kept : claim_of (other d) b ≡ claim_of (other d) a
  pub rate_kept : claim_of (other d) a ≡ true → b.rate ≡ a.rate
  pub claimed : failed ≡ none → claim_of d b ≡ true
  pub rate_given : failed ≡ none → b.rate ≡ rate

pub of_ledger : {a b : Ledger} → b ≡ a → b.claims ≡ a.claims
of_ledger e = ap (λ (l : Ledger). l.claims) e

-- A call that fails, with this direction's claim kept or dropped.
pub untouched : (d : Direction) (rate : ℕ) (a : Claims) (e : Errno) → IsGranted d rate a a (some e)
untouched d rate a e = record {
  other_kept = refl;
  rate_kept = λ _. refl;
  claimed = λ k. grind arith;
  rate_given = λ k. grind arith;
}

dropped-IsGranted :
    (d : Direction) (rate : ℕ) (a : Claims) (e : Errno)
    → IsGranted d rate a (claim d false a) (some e)
dropped-IsGranted playback_direction rate a e = record {
  other_kept = refl;
  rate_kept = λ _. refl;
  claimed = λ k. grind arith;
  rate_given = λ k. grind arith;
}
dropped-IsGranted capture_direction rate a e = record {
  other_kept = refl;
  rate_kept = λ _. refl;
  claimed = λ k. grind arith;
  rate_given = λ k. grind arith;
}

-- A call that succeeds at the rate there is, and one that sets a new one.
same_rate-IsGranted :
    (d : Direction) (rate : ℕ) (a : Claims)
    → a.rate ≡ rate
    → IsGranted d rate a (claim d true a) none
same_rate-IsGranted playback_direction rate a e = record {
  other_kept = refl;
  rate_kept = λ _. refl;
  claimed = λ _. refl;
  rate_given = λ _. e;
}
same_rate-IsGranted capture_direction rate a e = record {
  other_kept = refl;
  rate_kept = λ _. refl;
  claimed = λ _. refl;
  rate_given = λ _. e;
}

new_rate-IsGranted :
    (d : Direction) (rate : ℕ) (a : Claims)
    → claim_of (other d) a ≡ false
    → IsGranted d rate a (record (claim d true a) { rate = rate }) none
new_rate-IsGranted playback_direction rate a e = record {
  other_kept = refl;
  rate_kept = λ k. ground (arith, e, k);
  claimed = λ _. refl;
  rate_given = λ _. refl;
}
new_rate-IsGranted capture_direction rate a e = record {
  other_kept = refl;
  rate_kept = λ k. ground (arith, e, k);
  claimed = λ _. refl;
  rate_given = λ _. refl;
}

claim-twice : (d : Direction) (a : Claims) → claim d true (claim d false a) ≡ claim d true a
claim-twice playback_direction a = refl
claim-twice capture_direction a = refl

module _ {Env Src : Type 0} where
  set_rate_committed-claims :
      (d : Direction) (b : Bool) (w : World Env Src)
      → claims (set_rate_committed d b w) ≡ claim d b (claims w)
  unfolding set_rate_committed
  set_rate_committed-claims playback_direction b w = refl
  set_rate_committed-claims capture_direction b w = refl

  none_committed :
      (d : Direction) (w : World Env Src)
      → ltb 0 (rate_committed_streams (set_rate_committed d false w)) ≡ false
      → claim_of (other d) (claims w) ≡ false
  unfolding rate_committed_streams set_rate_committed
  none_committed playback_direction w h = by_count w.chip.capture.rate_committed h
    where
      by_count : (b : Bool) → ltb 0 (one_if_true b + 0) ≡ false → b ≡ false
      by_count true e = ground (arith, e)
      by_count false e = refl
  none_committed capture_direction w h = by_count w.chip.playback.rate_committed h
    where
      by_count : (b : Bool) → ltb 0 (0 + one_if_true b) ≡ false → b ≡ false
      by_count true e = ground (arith, e)
      by_count false e = refl

  -- The rate as it is published, with the claim.
  published-claims :
      (d : Direction) (rate : ℕ) (w : World Env Src)
      → claims (set_rate_committed d true (publish_rate rate w))
        ≡ record (claim d true (claims w)) { rate = rate }
  unfolding set_rate_committed publish_rate
  published-claims playback_direction rate w = refl
  published-claims capture_direction rate w = refl

module _ {Env Src : Type 0} (host : Host Env Src) where
  reprogram-IsGranted :
      (d : Direction) (rate : ℕ) (a : Claims) (w : World Env Src)
      → claims w ≡ claim d false a
      → claim_of (other d) a ≡ false
      → IsGranted d rate a (claims (reprogram host d rate w).0) (reprogram host d rate w).1
  unfolding reprogram
  reprogram-IsGranted d rate a w e free =
      let (w1, failed) = jockey3_set_rate host rate false (stop_urbs host w) in
      let before : claims w1 ≡ claim d false a =
        of_ledger (jockey3_set_rate-ledger host rate false (stop_urbs host w))
        ∙ of_ledger (stop_urbs-ledger host w)
        ∙ e in
      let committed = set_rate_committed d true (publish_rate rate w1) in
      let granted : World Env Src × Option Errno → Type 0 =
        λ r. IsGranted d rate a (claims r.0) r.1 in
      unless_failed_both granted failed
        (λ x.
          subst (λ (c : Claims). IsGranted d rate a c (some x))
            (sym (of_ledger (start_urbs-ledger host false w1) ∙ before))
            (dropped-IsGranted d rate a x))
        (subst (λ (c : Claims). IsGranted d rate a c none)
          (sym (
            of_ledger (start_urbs-ledger host false committed)
            ∙ published-claims d rate w1
            ∙ ap (λ (c : Claims). record (claim d true c) { rate = rate }) before
            ∙ ap (λ (c : Claims). record c { rate = rate }) (claim-twice d a)))
          (new_rate-IsGranted d rate a free))

  pub change_rate-IsGranted :
      (d : Direction) (rate : ℕ) (w : World Env Src)
      → let (v, failed, changed) = pcm_change_rate host d rate w in
        IsGranted d rate (claims w) (claims v) failed
  unfolding pcm_change_rate
  change_rate-IsGranted d rate w =
      let dropped = set_rate_committed d false w in
      let drop = set_rate_committed-claims d false w in
      let granted : World Env Src × Option Errno × Bool → Type 0 =
        λ r. IsGranted d rate (claims w) (claims r.0) r.1 in
      if_cases granted w.chip.disconnected (λ _. untouched d rate (claims w) enodev)
        λ _.
          if_cases granted (w.chip.current_rate == rate)
            (λ e.
              rw
                (set_rate_committed-claims d true dropped
                  ∙ ap (λ (c : Claims). claim d true c) drop
                  ∙ claim-twice d (claims w))
                (same_rate-IsGranted d rate (claims w) (ground (arith, e))))
            λ _.
              if_cases granted (ltb 0 (rate_committed_streams dropped))
                (λ _. rw drop (dropped-IsGranted d rate (claims w) ebusy))
                λ free. reprogram-IsGranted d rate (claims w) dropped drop (none_committed d w free)
