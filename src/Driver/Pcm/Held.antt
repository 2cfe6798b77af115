-- ===== src/Driver/Pcm/Held.antt =====
-- The rates that the directions were granted, over any sequence of calls (jockey3.c).
use alsa_jockey.Prelude.{
  ℕ, ◌≡◌, refl, sym, subst, ◌∙◌, arith, Bool, true, false, Option, none, some, List, [], ◌∷◌,
}
use alsa_jockey.Errno.{Errno}
use alsa_jockey.Stream.State.{Direction, playback_direction, capture_direction}
use alsa_jockey.Driver.World.{Event, Host, World, happens}
use alsa_jockey.Driver.Power.{pre_reset, post_reset, suspend, restore_device}
use alsa_jockey.Driver.Tick.{watchdog_work}
use alsa_jockey.Driver.Pcm.{pcm_hw_params, set_rate_committed, pcm_hw_free, pcm_close, pcm_prepare}
use alsa_jockey.Driver.Frames.{Claims, claims, happens-ledger}
use alsa_jockey.Driver.Frames.Recovery.{
  pre_reset-ledger, post_reset-ledger, suspend-ledger, restore_device-ledger,
}
use alsa_jockey.Driver.Tick.Claims.{watchdog_work-claims}
use alsa_jockey.Driver.Pcm.Interlock.{IsGranted, claim_of, of_ledger}
use alsa_jockey.Driver.Pcm.Granted.{pcm_hw_params-IsGranted, pcm_prepare-claims}

-- What enters the driver.
pub data Call : Type 0 where
  hw_params : Direction → ℕ → ℕ → Call
  hw_free : Direction → Call
  close : Direction → Call
  prepare : Direction → Call
  tick : Call
  resets : Call
  suspends : Call
  resumes : Bool → Call
  occurs : Event → Call

-- The rate that each direction was last granted and has not given back.
pub record Held : Type 0 where
  pub of_playback : Option ℕ
  pub of_capture : Option ℕ

abbrev pub hold : Direction → Option ℕ → Held → Held
hold playback_direction r h = record h { of_playback = r }
hold capture_direction r h = record h { of_capture = r }

-- The rate that a call of hw_params was granted.
abbrev pub granted : Option Errno → ℕ → Option ℕ
granted none rate = some rate
granted (some e) rate = none

module _ {Env Src : Type 0} (host : Host Env Src) where
  -- The call, and what is held behind it.
  abbrev pub serve : Call → World Env Src → Held → World Env Src × Held
  serve (hw_params d rate period_bytes) w h =
      let (v, failed) = pcm_hw_params host d rate period_bytes w in
      (v, hold d (granted failed rate) h)
  serve (hw_free d) w h = (pcm_hw_free d w, hold d none h)
  serve (close d) w h = (pcm_close host d w, hold d none h)
  serve (prepare d) w h = ((pcm_prepare host d w).0, h)
  serve tick w h = (watchdog_work host w, h)
  serve resets w h = (post_reset host false (pre_reset host w), h)
  serve suspends w h = (suspend host w, h)
  serve (resumes reset) w h = ((restore_device host reset w).0, h)
  serve (occurs e) w h = (happens host e w, h)

  unfoldable pub serve_all : List Call → World Env Src → Held → World Env Src × Held
  serve_all [] w h = (w, h)
  serve_all (c ∷ cs) w h = let (v, k) = serve c w h in serve_all cs v k

-- Who holds a rate has a claim on it, and it is `current_rate`.
pub data IsBacked (claimed : Bool) (rate : ℕ) : Option ℕ → Type 0 where
  unheld : IsBacked claimed rate none
  held : {r : ℕ} → claimed ≡ true → rate ≡ r → IsBacked claimed rate (some r)

pub record IsHonoured (c : Claims) (h : Held) : Type 0 where
  pub by_playback : IsBacked c.of_playback c.rate h.of_playback
  pub by_capture : IsBacked c.of_capture c.rate h.of_capture

-- A direction whose claim is left alone, and the rate with it.
kept-IsBacked :
    {b c : Bool} {r q : ℕ} {o : Option ℕ}
    → c ≡ b
    → (b ≡ true → q ≡ r)
    → IsBacked b r o
    → IsBacked c q o
kept-IsBacked e k unheld = unheld
kept-IsBacked e k (held x y) = held (e ∙ x) (k x ∙ y)

granted-IsBacked :
    {d : Direction} {rate : ℕ} {a b : Claims} (failed : Option Errno)
    → IsGranted d rate a b failed
    → IsBacked (claim_of d b) b.rate (granted failed rate)
granted-IsBacked none g = held (g.claimed refl) (g.rate_given refl)
granted-IsBacked (some e) g = unheld

params-IsHonoured :
    (d : Direction) (rate : ℕ) (a b : Claims) (failed : Option Errno) (h : Held)
    → IsGranted d rate a b failed
    → IsHonoured a h
    → IsHonoured b (hold d (granted failed rate) h)
params-IsHonoured playback_direction rate a b failed h g i = record {
  by_playback = granted-IsBacked failed g;
  by_capture = kept-IsBacked g.other_kept g.rate_kept i.by_capture;
}
params-IsHonoured capture_direction rate a b failed h g i = record {
  by_playback = kept-IsBacked g.other_kept g.rate_kept i.by_playback;
  by_capture = granted-IsBacked failed g;
}

same_claims : {a b : Claims} {h : Held} → b ≡ a → IsHonoured a h → IsHonoured b h
same_claims {h = h} e i = subst (λ (c : Claims). IsHonoured c h) (sym e) i

module _ {Env Src : Type 0} (host : Host Env Src) where
  hw_free-IsHonoured :
      (d : Direction) (w : World Env Src) (h : Held)
      → IsHonoured (claims w) h
      → IsHonoured (claims (pcm_hw_free d w)) (hold d none h)
  unfolding pcm_hw_free set_rate_committed
  hw_free-IsHonoured playback_direction w h i = record {
    by_playback = unheld;
    by_capture = i.by_capture;
  }
  hw_free-IsHonoured capture_direction w h i = record {
    by_playback = i.by_playback;
    by_capture = unheld;
  }

  close-IsHonoured :
      (d : Direction) (w : World Env Src) (h : Held)
      → IsHonoured (claims w) h
      → IsHonoured (claims (pcm_close host d w)) (hold d none h)
  unfolding pcm_close
  close-IsHonoured playback_direction w h i = record {
    by_playback = unheld;
    by_capture = i.by_capture;
  }
  close-IsHonoured capture_direction w h i = record {
    by_playback = i.by_playback;
    by_capture = unheld;
  }

  serve-IsHonoured :
      (c : Call) (w : World Env Src) (h : Held)
      → IsHonoured (claims w) h
      → let (v, k) = serve host c w h in IsHonoured (claims v) k
  serve-IsHonoured (hw_params d rate period_bytes) w h i =
      let (v, failed) = pcm_hw_params host d rate period_bytes w in
      params-IsHonoured d rate (claims w) (claims v) failed h
        (pcm_hw_params-IsGranted host d rate period_bytes w) i
  serve-IsHonoured (hw_free d) w h i = hw_free-IsHonoured d w h i
  serve-IsHonoured (close d) w h i = close-IsHonoured d w h i
  serve-IsHonoured (prepare d) w h i = same_claims (pcm_prepare-claims host d w) i
  serve-IsHonoured tick w h i = same_claims (watchdog_work-claims host w) i
  serve-IsHonoured resets w h i =
      same_claims
        (of_ledger (post_reset-ledger host false (pre_reset host w))
          ∙ of_ledger (pre_reset-ledger host w))
        i
  serve-IsHonoured suspends w h i = same_claims (suspend-ledger host w) i
  serve-IsHonoured (resumes reset) w h i =
      same_claims (of_ledger (restore_device-ledger host reset w)) i
  serve-IsHonoured (occurs e) w h i = same_claims (of_ledger (happens-ledger host e w)) i

  serve_all-IsHonoured :
      (cs : List Call) (w : World Env Src) (h : Held)
      → IsHonoured (claims w) h
      → let (v, k) = serve_all host cs w h in IsHonoured (claims v) k
  unfolding serve_all
  serve_all-IsHonoured [] w h i = i
  serve_all-IsHonoured (c ∷ cs) w h i =
      let (v, k) = serve host c w h in serve_all-IsHonoured cs v k (serve-IsHonoured c w h i)

  -- From a driver that has granted no rate, over any sequence of calls of the PCM operations, runs of
  -- the watchdog, resets, suspends, resumes and URB completions: `current_rate` is the rate that a
  -- direction was granted and has not given back, and the direction is marked as holding it. So both
  -- directions, where both hold a rate, hold the same one.
  pub serve_all-rates :
      (cs : List Call) (w : World Env Src)
      → let (v, k) = serve_all host cs w (record { of_playback = none; of_capture = none }) in
        IsHonoured (claims v) k
        × ((r q : ℕ) → k.of_playback ≡ some r → k.of_capture ≡ some q → r ≡ q)
  serve_all-rates cs w =
      let i =
        serve_all-IsHonoured cs w (record { of_playback = none; of_capture = none })
          (record { by_playback = unheld; by_capture = unheld }) in
      (i, λ r q e f. agree i.by_playback i.by_capture e f)
    where
      agree :
          {b c : Bool} {rate r q : ℕ} {o p : Option ℕ}
          → IsBacked b rate o
          → IsBacked c rate p
          → o ≡ some r
          → p ≡ some q
          → r ≡ q
      agree unheld y e f = grind arith
      agree (held x k) unheld e f = grind arith
      agree (held x k) (held y l) e f = grind arith
