-- ===== src/Proto/Calls/Written.antt =====
-- The calls that `jockey3_set_rate` (jockey3.c, ploytec_proto.c) has made where it returns 0.
use alsa_jockey.Prelude.{
  ℕ, ◌≡◌, refl, ap, sym, ◌∙◌, List, [], ◌∷◌, ◌++◌, map, append_assoc, append-nil, bit_or, true,
}
use alsa_jockey.Proto.Session.{
  Transfer, control_send, usleep_range, Reply, failed, answered, Session, Result, err, ok, transfer,
  sleep,
}
use alsa_jockey.Proto.Calls.{
  buf_at, rate_of, rate_bytes, burst_index, rate_write, rate_read, status_read, rate_idx_pcm_in,
  get_rate, get_status, checked, rate_burst, burst_and_verify, set_rate, start_streaming,
}
use alsa_jockey.Proto.Calls.Order.{vendor_burst}

-- Calls that stand in a log, one behind the other.
abbrev pub IsWritten : List Transfer → List Transfer → Type 0
IsWritten ts log =
    (before : List Transfer) × (after : List Transfer) × (log ≡ before ++ (ts ++ after))

-- A log that goes on from another.
abbrev pub Extends : List Transfer → List Transfer → Type 0
Extends old log = (after : List Transfer) × (log ≡ old ++ after)

module _ {Dev : Type 0} (answer : Dev → Transfer → Dev × Reply) where
  -- A transfer is logged whether it is answered or not, and behind it at least what `next` logs.
  checked-Extends :
      {A : Type 0} (t : Transfer) (next : List ℕ → Session Dev → Session Dev × Result A)
      (s : Session Dev)
      → ((bs : List ℕ) (s1 : Session Dev) → Extends s1.log (next bs s1).0.log)
      → Extends (s.log ++ (t ∷ [])) (checked answer t next s).0.log
  unfolding transfer
  checked-Extends {A = A} t next s later = by_reply (answer s.device t).1
    where
      by_reply :
          (r : Reply)
          → Extends
              (s.log ++ (t ∷ []))
              (elim r as (λ _. Session Dev × Result A) [
                | failed e ↦ ((transfer answer t s).0, err e)
                | answered bs ↦ next bs (transfer answer t s).0
              ]).0.log
      by_reply (failed e) = ([], sym (append-nil (s.log ++ (t ∷ []))))
      by_reply (answered bs) = later bs (transfer answer t s).0

  -- A result that is no error was answered.
  checked-ok :
      {A : Type 0} (t : Transfer) (next : List ℕ → Session Dev → Session Dev × Result A)
      (s : Session Dev) (x : A)
      → (checked answer t next s).1 ≡ ok x
      → (bs : List ℕ) × (checked answer t next s ≡ next bs (transfer answer t s).0)
  unfolding transfer
  checked-ok {A = A} t next s x k = by_reply (answer s.device t).1 k
    where
      by_reply :
          (r : Reply)
          → (elim r as (λ _. Session Dev × Result A) [
            | failed e ↦ ((transfer answer t s).0, err e)
            | answered bs ↦ next bs (transfer answer t s).0
          ]).1
            ≡ ok x
          → (bs : List ℕ) × ((elim r as (λ _. Session Dev × Result A) [
            | failed e ↦ ((transfer answer t s).0, err e)
            | answered bs ↦ next bs (transfer answer t s).0
          ])
              ≡ next bs (transfer answer t s).0)
      by_reply (failed e) k = cc
      by_reply (answered bs) k = (bs, refl)

  checked-log :
      {A : Type 0} (t : Transfer) (next : List ℕ → Session Dev → Session Dev × Result A)
      (s : Session Dev)
      → ((bs : List ℕ) (s1 : Session Dev) → (next bs s1).0.log ≡ s1.log)
      → (checked answer t next s).0.log ≡ s.log ++ (t ∷ [])
  unfolding transfer
  checked-log {A = A} t next s later = by_reply (answer s.device t).1
    where
      by_reply :
          (r : Reply)
          → (elim r as (λ _. Session Dev × Result A) [
            | failed e ↦ ((transfer answer t s).0, err e)
            | answered bs ↦ next bs (transfer answer t s).0
          ]).0.log
            ≡ s.log ++ (t ∷ [])
      by_reply (failed e) = refl
      by_reply (answered bs) = later bs (transfer answer t s).0

  rate_burst-log :
      (indexes : List ℕ) (rate : ℕ) (s : Session Dev) (x : ℕ)
      → (rate_burst answer indexes rate s).1 ≡ ok x
      → (rate_burst answer indexes rate s).0.log ≡ s.log ++ map (rate_write rate) indexes
  unfolding rate_burst transfer
  rate_burst-log [] rate s x k = sym (append-nil s.log)
  rate_burst-log (index ∷ later) rate s x k =
      let t = rate_write rate index in
      let s1 = (transfer answer t s).0 in
      let (bs, e) = checked-ok t (λ _ s2. rate_burst answer later rate s2) s x k in
      ap (λ (r : Session Dev × Result ℕ). r.0.log) e
      ∙ rate_burst-log later rate s1 x (sym (ap (λ (r : Session Dev × Result ℕ). r.1) e) ∙ k)
      ∙ append_assoc s.log (t ∷ []) (map (rate_write rate) later)

  burst_and_verify-log :
      (rate : ℕ) (s : Session Dev) (x : ℕ)
      → (burst_and_verify answer rate s).1 ≡ ok x
      → (burst_and_verify answer rate s).0.log ≡ s.log ++ vendor_burst rate
  unfolding burst_and_verify get_rate sleep transfer rate_bytes
  burst_and_verify-log rate s x k = by_burst (rate_burst answer burst_index rate s).1 refl k
    where
      s1 : Session Dev
      s1 = (rate_burst answer burst_index rate s).0

      by_burst :
          (r : Result ℕ)
          → (rate_burst answer burst_index rate s).1 ≡ r
          → (elim r as (λ _. Session Dev × Result ℕ) [
            | err e ↦ (s1, err e)
            | ok _ ↦ (sleep answer 50000 51000 (get_rate answer rate_idx_pcm_in s1).0, ok 0)
          ]).1
            ≡ ok x
          → (elim r as (λ _. Session Dev × Result ℕ) [
            | err e ↦ (s1, err e)
            | ok _ ↦ (sleep answer 50000 51000 (get_rate answer rate_idx_pcm_in s1).0, ok 0)
          ]).0.log
            ≡ s.log ++ vendor_burst rate
      by_burst (err e) b k = cc
      by_burst (ok y) b k =
          let gap = usleep_range 50000 51000 ∷ [] in
          let read = rate_read rate_idx_pcm_in ∷ [] in
          ap (λ (l : List Transfer). l ++ gap)
            (checked-log (rate_read rate_idx_pcm_in) (λ buf s2. (s2, ok (rate_of buf))) s1
              (λ _ _. refl))
          ∙ append_assoc s1.log read gap
          ∙ ap (λ (l : List Transfer). l ++ (read ++ gap)) (rate_burst-log burst_index rate s y b)
          ∙ append_assoc s.log (map (rate_write rate) burst_index) (read ++ gap)

  Extends-trans :
      (a : List Transfer) {b c : List Transfer} → Extends a b → Extends b c → Extends a c
  Extends-trans a (x, e) (y, f) =
      (x ++ y, f ∙ ap (λ (l : List Transfer). l ++ y) e ∙ append_assoc a x y)

  pub start_streaming-Extends : (s : Session Dev) → Extends s.log (start_streaming answer s).0.log
  unfolding start_streaming get_status
  start_streaming-Extends s = by_status (get_status answer s).1
    where
      s1 : Session Dev
      s1 = (get_status answer s).0

      first : Extends s.log s1.log
      first = (
        status_read ∷ [],
        checked-log status_read (λ buf s2. (s2, ok (buf_at buf 0))) s (λ _ _. refl),
      )

      by_status :
          (r : Result ℕ)
          → Extends s.log
              (elim r as (λ _. Session Dev × Result ℕ) [
                | err e ↦ (s1, err e)
                | ok b ↦
                    checked answer
                      (control_send 0x49 0x40 (bit_or b 0x20) 0 [])
                      (λ _ s2. (s2, ok 0))
                      s1
              ]).0.log
      by_status (err e) = first
      by_status (ok b) =
          let t = control_send 0x49 0x40 (bit_or b 0x20) 0 [] in
          Extends-trans s.log first (t ∷ [], checked-log t (λ _ s2. (s2, ok 0)) s1 (λ _ _. refl))

  -- A cold start of the rate that returns 0 has made the vendor's burst.
  pub set_rate-IsWritten :
      (rate : ℕ) (s : Session Dev) (x : ℕ)
      → (set_rate answer rate true s).1 ≡ ok x
      → IsWritten (vendor_burst rate) (set_rate answer rate true s).0.log
  unfolding set_rate sleep transfer
  set_rate-IsWritten rate s x k = (
    s.log ++ (usleep_range 14000 15000 ∷ []),
    [],
    burst_and_verify-log rate (sleep answer 14000 15000 s) x k
        ∙ ap (λ (l : List Transfer). s.log ++ (usleep_range 14000 15000 ∷ []) ++ l)
            (sym (append-nil (vendor_burst rate))),
  )

-- What was written stays written.
pub Extends-IsWritten :
    (ts : List Transfer) {a b : List Transfer} → IsWritten ts a → Extends a b → IsWritten ts b
Extends-IsWritten ts (before, after, e) (more, f) = (
  before,
  after ++ more,
  f
      ∙ ap (λ (l : List Transfer). l ++ more) e
      ∙ append_assoc before (ts ++ after) more
      ∙ ap (λ (l : List Transfer). before ++ l) (append_assoc ts after more),
)
