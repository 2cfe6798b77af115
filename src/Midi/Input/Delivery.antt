-- ===== src/Midi/Input/Delivery.antt =====
-- What `jockey3_midi_in_callback` (jockey3.c) delivers, and when it goes on.
use native.Mathlib.Decide.{dec_le}
use alsa_jockey.Prelude.{
  ℕ, zero, suc, ◌+◌, ◌^◌, ◌≤◌, ◌<◌, ◌≡◌, refl, ap, sym, ◌∙◌, arith, Bool, true, false, ltb, leb,
  ◌==◌, ◌&&◌, not, if◌then◌else◌, u32, Option, none, some, List, [], ◌∷◌, ◌++◌, append_assoc,
  append-nil, Bool-cases, inl, inr,
}
use alsa_jockey.Codec.Memory.{Buffer, IsBytes, store}
use alsa_jockey.Midi.Ports.{Ports}
use alsa_jockey.Stream.State.{max_urb_errors}
use alsa_jockey.Stream.Errors.{urb_check, urb_ok, urb_error}
use alsa_jockey.Midi.Input.{
  MidiUrb, bytes_from, compact, receive, is_taken, midi_in_completed, midi_in_callback,
}

-- The bytes that carry MIDI: those below 0xf0.
unfoldable pub message_bytes : List ℕ → List ℕ
message_bytes [] = []
message_bytes (b ∷ bs) = if ltb b 0xf0 then b ∷ message_bytes bs else message_bytes bs

bytes_from-snoc :
    (buf : Buffer) (i n : ℕ) → bytes_from buf i (suc n) ≡ bytes_from buf i n ++ (buf (i + n) ∷ [])
unfolding bytes_from
bytes_from-snoc buf i zero = ap (λ (k : ℕ). buf k ∷ []) (omega arith)
bytes_from-snoc buf i (suc n) =
    ap (λ (l : List ℕ). buf i ∷ l)
      (bytes_from-snoc buf (i + 1) n
        ∙ ap (λ (k : ℕ). bytes_from buf (i + 1) n ++ (buf k ∷ [])) (omega arith))

bytes_from-last :
    (buf : Buffer) (n b : ℕ) → buf n ≡ b → bytes_from buf 0 (n + 1) ≡ bytes_from buf 0 n ++ (b ∷ [])
bytes_from-last buf n b e =
    ap (bytes_from buf 0) (omega arith)
    ∙ bytes_from-snoc buf 0 n
    ∙ ap (λ (x : ℕ). bytes_from buf 0 n ++ (x ∷ [])) (ap buf (omega arith) ∙ e)

-- A store below a stretch, and one behind it.
bytes_from-store_below :
    (buf : Buffer) (a v i n : ℕ) → a < i → bytes_from (store buf a v) i n ≡ bytes_from buf i n
unfolding bytes_from
bytes_from-store_below buf a v i zero h = refl
bytes_from-store_below buf a v i (suc n) h =
    let here : store buf a v i ≡ buf i = ground (arith, h) in
    rw (here, bytes_from-store_below buf a v (i + 1) n (omega arith)) refl

bytes_from-store_above :
    (buf : Buffer) (a v i n : ℕ) → i + n ≤ a → bytes_from (store buf a v) i n ≡ bytes_from buf i n
unfolding bytes_from
bytes_from-store_above buf a v i zero h = refl
bytes_from-store_above buf a v i (suc n) h =
    let here : store buf a v i ≡ buf i = ground (arith, h) in
    rw (here, bytes_from-store_above buf a v (i + 1) n (omega arith)) refl

store-IsBytes : (buf : Buffer) (a v : ℕ) → IsBytes buf → IsBytes (store buf a v)
store-IsBytes buf a v h x = ground (arith, h x)

-- One byte kept, and one dropped.
compact-kept :
    (left i n : ℕ) (buf : Buffer)
    → ltb (buf i) 0xf0 ≡ true
    → compact (suc left) i n buf ≡ compact left (i + 1) (n + 1) (store buf n (buf i))
unfolding compact
compact-kept left i n buf e =
    ap
      (λ (k : Bool).
        compact left (i + 1) (if k then n + 1 else n) (if k then store buf n (buf i) else buf))
      e

compact-dropped :
    (left i n : ℕ) (buf : Buffer)
    → ltb (buf i) 0xf0 ≡ false
    → compact (suc left) i n buf ≡ compact left (i + 1) n buf
unfolding compact
compact-dropped left i n buf e =
    ap
      (λ (k : Bool).
        compact left (i + 1) (if k then n + 1 else n) (if k then store buf n (buf i) else buf))
      e

-- Compacting in place keeps what is below `n` and appends the message bytes of what is left.
compact_lem :
    (left i n : ℕ) (buf : Buffer)
    → IsBytes buf
    → n ≤ i
    → bytes_from (compact left i n buf).1 0 (compact left i n buf).0
      ≡ bytes_from buf 0 n ++ message_bytes (bytes_from buf i left)
unfolding message_bytes bytes_from
compact_lem zero i n buf h le = unfold compact in (sym (append-nil (bytes_from buf 0 n)))
compact_lem (suc left) i n buf h le = elim (Bool-cases (ltb (buf i) 0xf0)) [
  | inl e ↦
      let d = store buf n (buf i) in
      let byte : d n ≡ buf i = ground (arith, h i) in
      let more = compact_lem left (i + 1) (n + 1) d (store-IsBytes buf n (buf i) h) (omega arith) in
      rw (compact-kept left i n buf e, e)
        (more
          ∙ ap (λ (l : List ℕ). l ++ message_bytes (bytes_from d (i + 1) left))
              (bytes_from-last d n (buf i) byte)
          ∙ append_assoc (bytes_from d 0 n) (buf i ∷ []) (message_bytes (bytes_from d (i + 1) left))
          ∙ ap (λ (l : List ℕ). l ++ (buf i ∷ message_bytes (bytes_from d (i + 1) left)))
              (bytes_from-store_above buf n (buf i) 0 n (omega arith))
          ∙ ap (λ (l : List ℕ). bytes_from buf 0 n ++ (buf i ∷ message_bytes l))
              (bytes_from-store_below buf n (buf i) (i + 1) left (omega arith)))
  | inr e ↦ rw (compact-dropped left i n buf e, e) (compact_lem left (i + 1) n buf h (omega arith))
]

-- What reaches the application: the bytes, if there are any, on an open substream that is not being
-- stopped.
unfoldable pub deliverable : Bool → Option ℕ → List ℕ → Option (ℕ × List ℕ)
deliverable true sub bs = none
deliverable false none bs = none
deliverable false (some sub) [] = none
deliverable false (some sub) (b ∷ bs) = some (sub, b ∷ bs)

receive_lem :
    (p : Ports) (n : ℕ) (buf : Buffer)
    → receive p n buf ≡ deliverable p.midi_stopping p.midi_in_substream (bytes_from buf 0 n)
unfolding receive deliverable bytes_from
receive_lem p n buf = by_case p.midi_stopping p.midi_in_substream n
  where
    by_case :
        (stop : Bool) (open_sub : Option ℕ) (n : ℕ)
        → (if not (n == 0) && not stop
            then elim open_sub as (λ _. Option (ℕ × List ℕ)) [
              | none ↦ none
              | some sub ↦ some (sub, bytes_from buf 0 n)
            ]
            else none)
          ≡ deliverable stop open_sub (bytes_from buf 0 n)
    by_case true o zero = refl
    by_case true o (suc n) = ground arith
    by_case false none zero = refl
    by_case false none (suc n) = ground arith
    by_case false (some sub) zero = refl
    by_case false (some sub) (suc n) = ground arith

completed_lem :
    (len : ℕ) (u : MidiUrb) (p : Ports)
    → IsBytes u.transfer_buffer
    → p.disconnected ≡ false
    → let heard = midi_in_completed len u p in
      (heard.ports ≡ p)
      × (heard.delivered
          ≡ deliverable p.midi_stopping p.midi_in_substream
              (message_bytes (bytes_from u.transfer_buffer 0 len)))
      × (heard.submitted ≡ (not p.midi_stopping && is_taken u.submit_result))
unfolding midi_in_completed receive
completed_lem len u p bytes here =
    let (n, buf) = compact len 0 0 u.transfer_buffer in
    let kept = compact_lem len 0 0 u.transfer_buffer bytes (omega arith) in
    rw here (
      refl,
      receive_lem p n buf ∙ ap (deliverable p.midi_stopping p.midi_in_substream) (kept ∙ no_prefix),
      refl,
    )
  where
    no_prefix : {bs : List ℕ} → bytes_from u.transfer_buffer 0 0 ++ bs ≡ bs
    no_prefix = unfold bytes_from in refl

-- A MIDI IN URB of bytes that completes well on a connected device hands the open substream, if
-- there is one and the URBs are not being stopped, its bytes below 0xf0 in their order, and makes no
-- call where there is none; it starts the error count afresh, and is resubmitted unless stopping, if the
-- usb core takes it.
pub midi_in_callback-delivers :
    (u : MidiUrb) (p : Ports)
    → IsBytes u.transfer_buffer
    → urb_check u.status ≡ urb_ok
    → p.disconnected ≡ false
    → let heard = midi_in_callback u p in
      (heard.ports ≡ record p { midi_consec_errors = 0 })
      × (heard.delivered
          ≡ deliverable p.midi_stopping p.midi_in_substream
              (message_bytes (bytes_from u.transfer_buffer 0 u.actual_length)))
      × (heard.submitted ≡ (not p.midi_stopping && is_taken u.submit_result))
unfolding midi_in_callback
midi_in_callback-delivers u p bytes e here =
    rw (e, midi_in_callback)
      (completed_lem u.actual_length u (record p { midi_consec_errors = 0 }) bytes here)

-- A MIDI IN URB that fails on a connected device delivers nothing and is counted. It is resubmitted,
-- unless stopping, while that leaves fewer than 8 errors in a row; from the eighth on it is not, as
-- long as the count does not wrap; and the usb core has to take it.
pub midi_in_callback-fails :
    (u : MidiUrb) (p : Ports)
    → IsBytes u.transfer_buffer
    → urb_check u.status ≡ urb_error
    → p.disconnected ≡ false
    → p.midi_consec_errors + 1 < 2 ^ 32
    → let heard = midi_in_callback u p in
      (heard.ports ≡ record p { midi_consec_errors = p.midi_consec_errors + 1 })
      × (heard.delivered ≡ none)
      × (heard.submitted ≡ (
          ltb (p.midi_consec_errors + 1) max_urb_errors
          && not p.midi_stopping
          && is_taken u.submit_result))
unfolding midi_in_callback
midi_in_callback-fails u p bytes e here fits =
    let count : u32 (p.midi_consec_errors + 1) ≡ p.midi_consec_errors + 1 = omega arith in
    let rest =
      completed_lem 0 u (record p { midi_consec_errors = p.midi_consec_errors + 1 }) bytes here in
    elim (dec_le max_urb_errors (p.midi_consec_errors + 1)) [
      | yes many ↦
          let t : leb max_urb_errors (p.midi_consec_errors + 1) ≡ true = ground arith in
          let f : ltb (p.midi_consec_errors + 1) max_urb_errors ≡ false = ground arith in
          rw (e, midi_in_callback) (rw (count, t, f) (refl, refl, refl))
      | no few ↦
          let t : leb max_urb_errors (p.midi_consec_errors + 1) ≡ false = ground arith in
          let f : ltb (p.midi_consec_errors + 1) max_urb_errors ≡ true = ground arith in
          rw (e, midi_in_callback)
            (rw (count, t, f)
              (rest.0, rest.1 ∙ nothing p.midi_stopping p.midi_in_substream, rest.2))
    ]
  where
    nothing :
        (stop : Bool) (o : Option ℕ)
        → deliverable stop o (message_bytes (bytes_from u.transfer_buffer 0 0)) ≡ none
    nothing true o = unfold deliverable in refl
    nothing false none = unfold deliverable in refl
    nothing false (some sub) = unfold deliverable message_bytes bytes_from in refl
