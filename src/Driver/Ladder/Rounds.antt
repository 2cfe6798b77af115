-- ===== src/Driver/Ladder/Rounds.antt =====
-- The wait for a stream (`jockey3_wait_urb_stream_started`, jockey3.c) ends in the rounds it is given.
use alsa_jockey.Prelude.{
  ℕ, zero, suc, ◌+◌, ◌*◌, ◌≤◌, ◌<◌, ◌≡◌, refl, ◌∙◌, arith, Bool, true, false, ltb, not, ◌||◌,
  Option, some, List, [], ◌∷◌, ◌⊎◌, inl, inr,
}
use alsa_jockey.Stream.State.{Direction, playback_direction, capture_direction}
use alsa_jockey.Driver.World.{
  Event, urb_completes, goes_away, goes_to_sleep, Host, World, set_env, urb_done, happens,
  all_happen,
}
use alsa_jockey.Driver.Ladder.{is_up, nap, poll, confirmed, wait_urb_stream_started}
use alsa_jockey.Driver.Frames.{if_cases}

-- `usleep_range(500, 2000)` takes at least 500 microseconds.
abbrev pub IsNapping : {Env Src : Type 0} → Host Env Src → Type 0
IsNapping {Env} host = (env : Env) → host.clock env + 500000 ≤ host.clock (host.nap env).0

-- HZ is 100 at least and 1000 at most: a jiffy takes at most 10 milliseconds, so that there are as many
-- between two readings of the clock that lie so far apart; and a timeout is of no more jiffies than
-- milliseconds.
abbrev pub IsTicking : {Env Src : Type 0} → Host Env Src → Type 0
IsTicking {Env} host =
    ((env later : Env) (n : ℕ)
      → host.clock env + n * 10000000 ≤ host.clock later
      → host.jiffies env + n ≤ host.jiffies later)
    × ((ms : ℕ) → host.msecs_to_jiffies ms ≤ ms)

module _ {Env Src : Type 0} (host : Host Env Src) where
  -- How the wait may end.
  pub data IsSeen (d : Direction) (deadline : ℕ) (healthy : Bool)
      : World Env Src × Option Bool → Type 0 where
    found :
        {v : World Env Src}
        → is_up host healthy d v ≡ true
        → IsSeen d deadline healthy (v, some true)
    late :
        {v : World Env Src}
        → deadline ≤ host.jiffies v.usb.device
        → IsSeen d deadline healthy (v, some false)
    down :
        {v : World Env Src}
        → (v.chip.disconnected || v.chip.suspended) ≡ true
        → IsSeen d deadline healthy (v, some false)

  happens-usb : (e : Event) (w : World Env Src) → (happens host e w).usb ≡ w.usb
  unfolding happens urb_done
  happens-usb (urb_completes playback_direction c) w = refl
  happens-usb (urb_completes capture_direction c) w = refl
  happens-usb goes_away w = refl
  happens-usb goes_to_sleep w = refl

  all_happen-usb : (es : List Event) (w : World Env Src) → (all_happen host es w).usb ≡ w.usb
  unfolding all_happen
  all_happen-usb [] w = refl
  all_happen-usb (e ∷ es) w = all_happen-usb es (happens host e w) ∙ happens-usb e w

  nap-clock :
      (w : World Env Src)
      → IsNapping host
      → host.clock w.usb.device + 500000 ≤ host.clock (nap host w).usb.device
  unfolding nap
  nap-clock w h =
      let (env, events) = host.nap w.usb.device in
      rw (all_happen-usb events (set_env w env)) (h w.usb.device)

  -- One round, given what the next ones see.
  round-IsSeen :
      (n : ℕ) (d : Direction) (deadline : ℕ) (healthy : Bool) (w : World Env Src)
      → (host.jiffies w.usb.device < deadline
          → IsSeen d deadline healthy (poll host n d deadline healthy (nap host w)))
      → IsSeen d deadline healthy (poll host (suc n) d deadline healthy w)
  unfolding poll
  round-IsSeen n d deadline healthy w later =
      let seen = IsSeen d deadline healthy in
      if_cases seen (not (ltb (host.jiffies w.usb.device) deadline)) (λ e. late (ground (arith, e)))
        λ early.
          if_cases seen (w.chip.disconnected || w.chip.suspended) (λ e. down e)
            λ _.
              if_cases seen (is_up host healthy d w) (λ e. found e)
                λ _. later (ground (arith, early))

  -- `n` naps are enough to get from here to the deadline, which is `ms` jiffies at most behind `start`.
  poll-IsSeen :
      (n ms : ℕ) (start : Env) (d : Direction) (deadline : ℕ) (healthy : Bool) (w : World Env Src)
      → IsNapping host
      → IsTicking host
      → deadline ≤ host.jiffies start + ms
      → host.clock start + ms * 10000000 ≤ host.clock w.usb.device + n * 500000
      → IsSeen d deadline healthy (poll host (suc n) d deadline healthy w)
  poll-IsSeen zero ms start d deadline healthy w naps ticks near h =
      let there = ticks.0 start w.usb.device ms (omega (arith, h)) in
      round-IsSeen zero d deadline healthy w λ early. ground (arith, there, near, early)
  poll-IsSeen (suc n) ms start d deadline healthy w naps ticks near h =
      round-IsSeen (suc n) d deadline healthy w λ _.
        poll-IsSeen n ms start d deadline healthy (nap host w) naps ticks near
          (omega (arith, h, nap-clock w naps))

  -- The wait for a stream ends before its rounds are used up: if it says that the stream is up, the
  -- stream passes the test that was asked for (alive, or streaming steadily) as it returns; if it says
  -- that it is not, the timeout has passed in jiffies, or the device is disconnected or suspended. A
  -- nap lasts 500 microseconds at least, a jiffy 10 milliseconds at most, and a timeout is of no more
  -- jiffies than milliseconds.
  pub wait_urb_stream_started_lem :
      (d : Direction) (timeout_ms : ℕ) (healthy : Bool) (w : World Env Src)
      → IsNapping host
      → IsTicking host
      → let (v, up) = wait_urb_stream_started host d timeout_ms healthy w in
        (up ≡ true → is_up host healthy d v ≡ true)
        × (up ≡ false
            → (host.jiffies w.usb.device + host.msecs_to_jiffies timeout_ms
                ≤ host.jiffies v.usb.device)
              ⊎ ((v.chip.disconnected || v.chip.suspended) ≡ true))
  unfolding wait_urb_stream_started
  wait_urb_stream_started_lem d timeout_ms healthy w naps ticks =
      let deadline = host.jiffies w.usb.device + host.msecs_to_jiffies timeout_ms in
      by_end deadline (
        poll-IsSeen (20 * timeout_ms) timeout_ms w.usb.device d deadline healthy w naps ticks
          (omega (arith, ticks.1 timeout_ms)) (omega arith))
    where
      by_end :
          (deadline : ℕ) {r : World Env Src × Option Bool}
          → IsSeen d deadline healthy r
          → (confirmed r.1 ≡ true → is_up host healthy d r.0 ≡ true)
            × (confirmed r.1 ≡ false
                → (deadline ≤ host.jiffies r.0.usb.device)
                  ⊎ ((r.0.chip.disconnected || r.0.chip.suspended) ≡ true))
      by_end deadline (found e) = (λ _. e, λ k. ground (arith, k))
      by_end deadline (late e) = (λ k. ground (arith, k), λ _. inl e)
      by_end deadline (down e) = (λ k. ground (arith, k), λ _. inr e)
