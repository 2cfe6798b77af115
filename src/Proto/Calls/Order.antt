-- ===== src/Proto/Calls/Order.antt =====
-- What ploytec_proto.c puts on the wire, in which order.
use alsa_jockey.Prelude.{
  ℕ, ◌/◌, ◌%◌, ◌^◌, ◌≡◌, refl, ap, sym, ◌∙◌, arith, List, [], ◌∷◌, ◌++◌, map, append_assoc,
  append-nil, Bool, true, false,
}
use alsa_jockey.Errno.{Errno}
use alsa_jockey.Proto.Session.{
  Transfer, control_send, control_recv, usleep_range, Reply, failed, answered, Session, Result, err,
  ok, transfer, sleep,
}
use alsa_jockey.Proto.Calls.{
  buf_at, rate_bytes, rate_of, burst_index, rate_write, rate_read, rate_idx_pcm_in, set_rate,
  get_rate, checked, rate_burst, burst_and_verify,
}

-- A rate that is written is read back cut to 24 bits, the width on the wire.
pub rate_of-rate_bytes : (rate : ℕ) → rate_of (rate_bytes rate) ≡ rate % 2 ^ 24
unfolding rate_of rate_bytes buf_at
rate_of-rate_bytes rate = omega arith

module _ {Dev : Type 0} (answer : Dev → Transfer → Dev × Reply) where
  checked-failed :
      {A : Type 0} (t : Transfer) (next : List ℕ → Session Dev → Session Dev × Result A)
      (s : Session Dev) (e : Errno)
      → (answer s.device t).1 ≡ failed e
      → checked answer t next s ≡ ((transfer answer t s).0, err e)
  unfolding transfer
  checked-failed t next s e h = rw (h, checked) refl

  checked-answered :
      {A : Type 0} (t : Transfer) (next : List ℕ → Session Dev → Session Dev × Result A)
      (s : Session Dev) (bs : List ℕ)
      → (answer s.device t).1 ≡ answered bs
      → checked answer t next s ≡ next bs (transfer answer t s).0
  unfolding transfer
  checked-answered t next s bs h = rw (h, checked) refl

-- On a device that answers every transfer.
abbrev pub IsCooperative : {Dev : Type 0} → (Dev → Transfer → Dev × Reply) → Type 0
IsCooperative {Dev = Dev} answer =
    (d : Dev) (t : Transfer) → (bs : List ℕ) × ((answer d t).1 ≡ answered bs)

-- The calls that a function adds to the log, at the end of which it returns 0.
abbrev Does : {Dev : Type 0} → (Session Dev → Session Dev × Result ℕ) → List Transfer → Type 0
Does {Dev = Dev} m ts = (s : Session Dev) → ((m s).0.log ≡ s.log ++ ts) × ((m s).1 ≡ ok 0)

-- The transfers of the burst and the verification.
abbrev pub burst_script : ℕ → List Transfer
burst_script rate =
    map (rate_write rate) burst_index ++ (rate_read rate_idx_pcm_in ∷ usleep_range 50000 51000 ∷ [])

-- The vendor's transfers as its captures show them: a SET_CUR of the rate in three bytes, the lowest
-- first, to an endpoint; the writes of a burst, with the read of the rate that follows them.
abbrev pub vendor_write : ℕ → ℕ → Transfer
vendor_write rate endpoint =
    control_send 0x01 0x22 0x0100 endpoint (rate % 256 ∷ rate / 256 % 256 ∷ rate / 65536 % 256 ∷ [])

abbrev pub vendor_burst : ℕ → List Transfer
vendor_burst rate =
    vendor_write rate 0x86
    ∷ vendor_write rate 0x05
    ∷ vendor_write rate 0x86
    ∷ vendor_write rate 0x05
    ∷ vendor_write rate 0x86
    ∷ control_recv 0x81 0xa2 0x0100 0x86 3
    ∷ usleep_range 50000 51000
    ∷ []

module _ {Dev : Type 0} (answer : Dev → Transfer → Dev × Reply) (coop : IsCooperative answer) where
  checked-Does :
      (t : Transfer) (ts : List Transfer) (next : List ℕ → Session Dev → Session Dev × Result ℕ)
      → ((bs : List ℕ) → Does (next bs) ts)
      → Does (checked answer t next) (t ∷ ts)
  unfolding transfer
  checked-Does t ts next h s =
      let (bs, e) = coop s.device t in
      let (logged, r) = h bs (record { device = (answer s.device t).0; log = s.log ++ (t ∷ []) }) in
      rw (checked-answered answer t next s bs e) (logged ∙ append_assoc s.log (t ∷ []) ts, r)

  sleep-Does :
      (lo hi : ℕ) (ts : List Transfer) (m : Session Dev → Session Dev × Result ℕ)
      → Does m ts
      → Does (λ s. m (sleep answer lo hi s)) (usleep_range lo hi ∷ ts)
  unfolding sleep transfer
  sleep-Does lo hi ts m h s =
      let t = usleep_range lo hi in
      let (logged, r) = h (sleep answer lo hi s) in (logged ∙ append_assoc s.log (t ∷ []) ts, r)

  rate_burst-Does :
      (indexes : List ℕ) (rate : ℕ)
      → Does (rate_burst answer indexes rate) (map (rate_write rate) indexes)
  unfolding rate_burst
  rate_burst-Does [] rate s = (sym (append-nil s.log), refl)
  rate_burst-Does (index ∷ later) rate s =
      checked-Does (rate_write rate index) (map (rate_write rate) later)
        (λ _ s1. rate_burst answer later rate s1) (λ _. rate_burst-Does later rate) s

  verify-Does :
      (rate index : ℕ)
      → Does
          (λ s. (sleep answer 50000 51000 (get_rate answer index s).0, ok 0))
          (rate_read index ∷ usleep_range 50000 51000 ∷ [])
  unfolding get_rate sleep transfer
  verify-Does rate index s =
      let (bs, e) = coop s.device (rate_read index) in
      rw (checked-answered answer (rate_read index) (λ buf s1. (s1, ok (rate_of buf))) s bs e)
        (append_assoc s.log (rate_read index ∷ []) (usleep_range 50000 51000 ∷ []), refl)

  burst_and_verify-Does : (rate : ℕ) → Does (burst_and_verify answer rate) (burst_script rate)
  unfolding burst_and_verify
  burst_and_verify-Does rate s =
      let verification = rate_read rate_idx_pcm_in ∷ usleep_range 50000 51000 ∷ [] in
      let (logged, done) = rate_burst-Does burst_index rate s in
      let (later, end) =
        verify-Does rate rate_idx_pcm_in (rate_burst answer burst_index rate s).0 in
      rw (done, burst_and_verify)
        (
          later
              ∙ ap (λ (l : List Transfer). l ++ verification) logged
              ∙ append_assoc s.log (map (rate_write rate) burst_index) verification,
          end,
        )

  warm-Does :
      (rate : ℕ)
      → Does (set_rate answer rate false) (
          usleep_range 50000 51000
          ∷ rate_write rate rate_idx_pcm_in
          ∷ usleep_range 10000 11000
          ∷ burst_script rate)
  unfolding set_rate
  warm-Does rate =
      let write = rate_write rate rate_idx_pcm_in in
      let pause = usleep_range 10000 11000 in
      let rest : List ℕ → Session Dev → Session Dev × Result ℕ =
        λ _ s1. burst_and_verify answer rate (sleep answer 10000 11000 s1) in
      sleep-Does 50000 51000 (write ∷ pause ∷ burst_script rate) (checked answer write rest) (
        checked-Does write (pause ∷ burst_script rate) rest (λ _.
          sleep-Does 10000 11000 (burst_script rate) (burst_and_verify answer rate)
            (burst_and_verify-Does rate)))

  -- On a device that answers, setting the rate makes exactly the vendor's sequence of calls, in this
  -- order, and returns 0. On a cold start: a gap of 14 ms, five writes of the rate, to PCM in and
  -- PCM out in turn, a read, and a gap of 50 ms. On a rate change: a gap of 50 ms, one write to PCM
  -- in and a gap of 10 ms, in place of the 14 ms.
  pub set_rate-order :
      (rate : ℕ) (s : Session Dev)
      → ((set_rate answer rate true s).0.log
          ≡ s.log ++ (usleep_range 14000 15000 ∷ vendor_burst rate))
        × ((set_rate answer rate false s).0.log
            ≡ s.log
              ++ (usleep_range 50000 51000
                  ∷ vendor_write rate 0x86
                  ∷ usleep_range 10000 11000
                  ∷ vendor_burst rate))
        × ((cold_init : Bool) → (set_rate answer rate cold_init s).1 ≡ ok 0)
  unfolding set_rate rate_bytes
  set_rate-order rate s =
      let cold =
        sleep-Does 14000 15000 (burst_script rate) (burst_and_verify answer rate)
          (burst_and_verify-Does rate) s in
      let warm = warm-Does rate s in
      (
        cold.0,
        warm.0,
        λ cold_init. elim cold_init as (λ b. (set_rate answer rate b s).1 ≡ ok 0) [
          | true ↦ cold.1
          | false ↦ warm.1
        ],
      )
