-- ===== src/Stream/Zone/Drained.antt =====
-- What `jockey3_pcm_sync_stop` (jockey3.c) waits for, and what holds behind it.
use alsa_jockey.Prelude.{
  ℕ, suc, ◌≤◌, ◌≡◌, refl, arith, ◌==◌, Bool, true, false, if◌then◌else◌, List, [], ◌∷◌, Bool-cases,
  inl, inr,
}
use alsa_jockey.Codec.Batch.{Variant, CodecState}
use alsa_jockey.Stream.Errors.{AlsaCore}
use alsa_jockey.Stream.Zone.{Zone, Turn, turn, turns, pcm_sync_stop}
use alsa_jockey.Stream.Zone.Keeps.{IsCounted, is_start, is_exit, turn-Keeps, turn-exit}

abbrev pub NoStart : List Turn → Type 0
NoStart [] = Unit {0}
NoStart (t ∷ ts) = (is_start t ≡ false) × NoStart ts

abbrev pub exits : List Turn → ℕ
exits [] = 0
exits (t ∷ ts) = if is_exit t then suc (exits ts) else exits ts

second :
    {A : Type 0}
    → (b : Bool) (p q : A × Bool) → b ≡ false
    → (if b then p else q).1 ≡ true
    → q.1 ≡ true
second true p q f e = cc
second false p q f e = e

module _ (v : Variant) (codec : CodecState) (core : AlsaCore) where
  -- A stopped zone, with the threads that are left in it.
  turns-stopped :
      (ts : List Turn) (z : Zone)
      → NoStart ts
      → z.stream.running ≡ false
      → (turns v codec core ts z).inside ≤ z.inside
  unfolding turns
  turns-stopped [] z no_start still = omega arith
  turns-stopped (t ∷ ts) z (now, later) still =
      let k = turn-Keeps v codec core t z in
      omega (
        arith,
        k.shut now still,
        turns-stopped ts (turn v codec core t z) later (k.stopped now still),
      )

  -- What `pcm_sync_stop` returns on having seen the count at 0: a stopped and empty zone.
  pcm_sync_stop-empty :
      (ts : List Turn) (z : Zone)
      → IsCounted z
      → NoStart ts
      → z.stream.running ≡ false
      → (pcm_sync_stop v codec core ts z).1 ≡ true
      → let after = (pcm_sync_stop v codec core ts z).0 in
        (after.stream.running ≡ false) × (after.inside ≡ 0)
  unfolding pcm_sync_stop
  pcm_sync_stop-empty [] z c no_start still e = (still, ground (arith, c, e))
  pcm_sync_stop-empty (t ∷ ts) z c (now, later) still e =
      elim (Bool-cases (z.stream.callbacks_active == 0)) [
        | inl f ↦ rw f (still, ground (arith, c, f))
        | inr f ↦
            let k = turn-Keeps v codec core t z in
            let e' =
              second (z.stream.callbacks_active == 0) (z, true)
                (pcm_sync_stop v codec core ts (turn v codec core t z)) f e in
            rw f (
              pcm_sync_stop-empty ts (turn v codec core t z) (k.counted c) later
                (k.stopped now still) e')
      ]

  -- If `callbacks_active` counts the threads in the safe zone of a stream that has been stopped, and
  -- `pcm_sync_stop` sees it at 0 within its second, then nobody is in the zone when it returns, and
  -- until the stream is started again nobody enters: whatever turns follow, no thread holds the
  -- substream.
  pub pcm_sync_stop-safe :
      (ts us : List Turn) (z : Zone)
      → IsCounted z
      → NoStart ts
      → NoStart us
      → z.stream.running ≡ false
      → (pcm_sync_stop v codec core ts z).1 ≡ true
      → (turns v codec core us (pcm_sync_stop v codec core ts z).0).inside ≡ 0
  pcm_sync_stop-safe ts us z c before after still e =
      let (stopped, empty) = pcm_sync_stop-empty ts z c before still e in
      omega (arith, turns-stopped us (pcm_sync_stop v codec core ts z).0 after stopped, empty)

  -- If `callbacks_active` counts the threads in the safe zone of a stream that has been stopped and is
  -- not started again, and as many threads leave within the second of `pcm_sync_stop` as were inside,
  -- whatever else happens between, then it sees the count at 0.
  pub pcm_sync_stop-drains :
      (ts : List Turn) (z : Zone)
      → IsCounted z
      → NoStart ts
      → z.stream.running ≡ false
      → z.inside ≤ exits ts
      → (pcm_sync_stop v codec core ts z).1 ≡ true
  unfolding pcm_sync_stop
  pcm_sync_stop-drains [] z c no_start still h = ground (arith, c, h)
  pcm_sync_stop-drains (t ∷ ts) z c (now, later) still h =
      elim (Bool-cases (z.stream.callbacks_active == 0)) [
        | inl f ↦ rw f refl
        | inr f ↦
            let k = turn-Keeps v codec core t z in
            rw f (
              pcm_sync_stop-drains ts (turn v codec core t z) (k.counted c) later
                (k.stopped now still) (fewer t z (exits ts) (k.shut now still) h))
      ]
    where
      fewer :
          (t : Turn) (z : Zone) (n : ℕ)
          → (turn v codec core t z).inside ≤ z.inside
          → z.inside ≤ (if is_exit t then suc n else n)
          → (turn v codec core t z).inside ≤ n
      fewer t z n shut h = elim (Bool-cases (is_exit t)) [
        | inl f ↦ ground (arith, f, h, turn-exit v codec core t z f)
        | inr f ↦ ground (arith, f, h, shut)
      ]
