-- ===== src/Driver/Tick/Pairing.antt =====
-- The lines that the watchdog and a restart log about stalls (jockey3.c): their order.
use alsa_jockey.Prelude.{
  ℕ, ◌*◌, ◌≡◌, refl, ap, sym, subst, Bool, true, false, ltb, ◌==◌, Option, none, some, List, [],
  ◌∷◌, ◌++◌,
}
use alsa_jockey.Recovery.Clock.{sub64}
use alsa_jockey.Stream.State.{
  UrbStream, Direction, playback_direction, capture_direction, get_pcm_urb_stream, nsec_per_msec,
}
use alsa_jockey.Driver.World.{World, Note, stall_onset, stall_recovered, stall_restarted}
use alsa_jockey.Driver.Ring.{note_restart, watchdog_clear_stall}
use alsa_jockey.Driver.Tick.{Look, baseline, judge, look}
use alsa_jockey.Driver.Frames.{if_cases}

-- A line at most, by whether a stall was and is reported. A look during a stop drops it silently.
data IsEdge (d : Direction) : Bool → Option Note → Bool → Type 0 where
  onset : IsEdge d false (some (stall_onset d)) true
  recovery : IsEdge d true (some (stall_recovered d)) false
  unchanged : {b : Bool} → IsEdge d b none b
  dropped : {b : Bool} → IsEdge d b none false

judge-IsEdge :
    (d : Direction) (stalled : Bool) (last : ℕ) (s : UrbStream)
    → let (t, logged) = judge d stalled last s in IsEdge d s.stall_reported logged t.stall_reported
unfolding judge
judge-IsEdge d stalled last s =
    let edge : UrbStream × Option Note → Type 0 =
      λ r. IsEdge d s.stall_reported r.1 r.0.stall_reported in
    if_cases edge stalled
      (λ _.
        if_cases edge s.stall_reported (λ _. unchanged)
          (λ e. subst (λ (b : Bool). IsEdge d b (some (stall_onset d)) true) (sym e) onset))
      λ _.
        if_cases edge s.stall_reported
          (λ e. subst (λ (b : Bool). IsEdge d b (some (stall_recovered d)) false) (sym e) recovery)
          λ _. unchanged

look-IsEdge :
    (now grace_ms : ℕ) (d : Direction) (s : UrbStream)
    → let seen = look now grace_ms d s in
      IsEdge d s.stall_reported seen.logged seen.stream.stall_reported
unfolding look
look-IsEdge now grace_ms d s =
    let (last, threshold_ms) = baseline now grace_ms s in
    let stalled = ltb (threshold_ms * nsec_per_msec) (sub64 now last) in
    let edge : Look → Type 0 = λ r. IsEdge d s.stall_reported r.logged r.stream.stall_reported in
    if_cases edge s.stopping (λ _. dropped)
      λ _.
        if_cases edge (s.urbs_started_time == 0) (λ _. unchanged) λ _. judge-IsEdge d stalled last s

abbrev pub lines : Option Note → List Note → List Note
lines none later = later
lines (some n) later = n ∷ later

-- `watchdog_clear_stall`, whose lines are the notes that it leaves.
abbrev pub cleared : {Env Src : Type 0} → Direction → World Env Src → World Env Src
cleared d w = watchdog_clear_stall d (record w { notes = [] })

-- What happens to a direction between two states of it, with the lines about its stalls: looks of
-- the watchdog, the clearing of a stall, and anything that leaves the report of a stall as it is.
pub data Watch (Env Src : Type 0) (d : Direction) : UrbStream → UrbStream → List Note → Type 0 where
  ended : {s : UrbStream} → Watch Env Src d s s []
  looks :
      {s t : UrbStream} {ns : List Note} (now grace_ms : ℕ)
      → Watch Env Src d (look now grace_ms d s).stream t ns
      → Watch Env Src d s t (lines (look now grace_ms d s).logged ns)
  clears :
      {s t : UrbStream} {ns : List Note} (w : World Env Src)
      → get_pcm_urb_stream w.chip d ≡ s
      → Watch Env Src d (get_pcm_urb_stream (cleared d w).chip d) t ns
      → Watch Env Src d s t ((cleared d w).notes ++ ns)
  otherwise :
      {s u t : UrbStream} {ns : List Note}
      → u.stall_reported ≡ s.stall_reported
      → Watch Env Src d u t ns
      → Watch Env Src d s t ns

-- Every end of a stall closes an onset before it, and no onset is closed twice; `ongoing` is whether one
-- is open.
pub data IsPaired (d : Direction) : Bool → List Note → Type 0 where
  done : {ongoing : Bool} → IsPaired d ongoing []
  opens :
      {ongoing : Bool} {ns : List Note}
      → IsPaired d true ns
      → IsPaired d ongoing (stall_onset d ∷ ns)
  recovers : {ns : List Note} → IsPaired d false ns → IsPaired d true (stall_recovered d ∷ ns)
  restarted : {ns : List Note} → IsPaired d false ns → IsPaired d true (stall_restarted d ∷ ns)

-- A list that is paired with nothing open is so with an onset open.
with_open :
    {d : Direction} {ns : List Note} (ongoing : Bool) → IsPaired d false ns → IsPaired d ongoing ns
with_open ongoing done = done
with_open ongoing (opens p) = opens p

edge-IsPaired :
    {d : Direction} {a b : Bool} {n : Option Note} {ns : List Note}
    → IsEdge d a n b
    → IsPaired d b ns
    → IsPaired d a (lines n ns)
edge-IsPaired onset p = opens p
edge-IsPaired recovery p = recovers p
edge-IsPaired unchanged p = p
edge-IsPaired {a = a} dropped p = with_open a p

restart-IsPaired :
    {d : Direction} {ns : List Note} (reported : Bool)
    → IsPaired d false ns
    → IsPaired d reported (note_restart d reported [] ++ ns)
unfolding note_restart
restart-IsPaired true p = restarted p
restart-IsPaired false p = p

same_report :
    {d : Direction} {a b : Bool} {ns : List Note} → a ≡ b → IsPaired d a ns → IsPaired d b ns
same_report {d = d} {ns = ns} e p = subst (λ (x : Bool). IsPaired d x ns) e p

cleared-unreported :
    {Env Src : Type 0} (d : Direction) (w : World Env Src)
    → (get_pcm_urb_stream (cleared d w).chip d).stall_reported ≡ false
unfolding watchdog_clear_stall
cleared-unreported playback_direction w = refl
cleared-unreported capture_direction w = refl

cleared-notes :
    {Env Src : Type 0} (d : Direction) (w : World Env Src)
    → (cleared d w).notes ≡ note_restart d (get_pcm_urb_stream w.chip d).stall_reported []
unfolding watchdog_clear_stall
cleared-notes playback_direction w = refl
cleared-notes capture_direction w = refl

clear-IsPaired :
    {Env Src : Type 0} {d : Direction} {ns : List Note} (w : World Env Src)
    → IsPaired d (get_pcm_urb_stream (cleared d w).chip d).stall_reported ns
    → IsPaired d (get_pcm_urb_stream w.chip d).stall_reported ((cleared d w).notes ++ ns)
clear-IsPaired {d = d} w p = rw (cleared-notes d w) (
    restart-IsPaired (get_pcm_urb_stream w.chip d).stall_reported
      (same_report (cleared-unreported d w) p))

-- Over any looks of the watchdog and clearings of a stall by `watchdog_clear_stall`, which a start of
-- the rings makes for both directions, whatever the stream does between them that leaves the report of
-- a stall as it is: a line that a stall has ended, by a recovery or by a restart, follows a line that
-- it began, with no other end of it between them; the first such line may end a stall that was
-- reported before.
pub Watch-IsPaired :
    {Env Src : Type 0} {d : Direction} {s t : UrbStream} {ns : List Note}
    → Watch Env Src d s t ns
    → IsPaired d s.stall_reported ns
Watch-IsPaired ended = done
Watch-IsPaired {d = d} {s = s} (looks now grace_ms w) =
    edge-IsPaired (look-IsEdge now grace_ms d s) (Watch-IsPaired w)
Watch-IsPaired {d = d} (clears {ns = ns} w e later) =
    same_report (ap (λ (x : UrbStream). x.stall_reported) e)
      (clear-IsPaired w (Watch-IsPaired later))
Watch-IsPaired (otherwise e w) = same_report e (Watch-IsPaired w)
