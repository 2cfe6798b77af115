-- ===== src/Midi/Receiver.antt =====
-- What a MIDI receiver makes of a byte stream: an independent description of MIDI 1.0 framing, with
-- or without Running Status, against which the expander (ploytec_midi.c) is judged. The
-- device is a receiver without Running Status.
use alsa_jockey.Prelude.{
  ℕ, ◌-◌, ◌≤◌, ◌<◌, ◌≡◌, refl, Bool, true, false, arith, ltb, leb, ◌==◌, ◌&&◌, ◌||◌, if◌then◌else◌,
  List, [], ◌∷◌, ◌++◌, passes_below, passes_below_sound, append_assoc,
}
use alsa_jockey.Midi.RunningStatus.{
  RunningStatus, IsConsistent, data_bytes, expand, feed, expand_all, take_queued, fresh,
  fresh-IsConsistent,
}

pub data Event : Type 0 where
  channel : ℕ → List ℕ → Event
  system stray : ℕ → Event

-- The status that data bytes belong to (0 for none), how many are still due, and those that came.
pub record Receiver : Type 0 where
  pub status : ℕ
  pub due : ℕ
  pub got : List ℕ

abbrev pub listening : Receiver
listening = record { status = 0; due = 0; got = [] }

-- 0xC0 to 0xDF take one data byte.
abbrev pub message_data : ℕ → ℕ
message_data status = if leb 0xc0 status && ltb status 0xe0 then 1 else 2

-- A data byte while `due` are awaited: the last one completes the message.
abbrev pub take_data : Receiver → ℕ → Receiver × List Event
take_data r b =
    if r.due == 1
    then (record r { due = 0; got = [] }, channel r.status (r.got ++ b ∷ []) ∷ [])
    else (record r { due = r.due - 1; got = r.got ++ b ∷ [] }, [])

-- One byte; `running` tells whether a data byte may open a message under the last status.
unfoldable pub hear : Bool → Receiver → ℕ → Receiver × List Event
hear running r b =
    if leb 0xf8 b
    then (r, system b ∷ [])
    else if leb 0xf0 b
    then (record { status = 0; due = 0; got = [] }, system b ∷ [])
    else if leb 0x80 b
    then (record { status = b; due = message_data b; got = [] }, [])
    else if ltb 0 r.due
    then take_data r b
    else if running && leb 0x80 r.status
    then take_data (record r { due = message_data r.status; got = [] }) b
    else (r, stray b ∷ [])

unfoldable pub hear_all : Bool → Receiver → List ℕ → Receiver × List Event
hear_all running r [] = (r, [])
hear_all running r (b ∷ bs) =
    let (r1, now) = hear running r b in
    let (r2, later) = hear_all running r1 bs in (r2, now ++ later)

hear_all-append :
    (running : Bool) (r : Receiver) (xs ys : List ℕ)
    → hear_all running r (xs ++ ys) ≡ (
        let (r1, now) = hear_all running r xs in
        let (r2, later) = hear_all running r1 ys in (r2, now ++ later))
unfolding hear_all
hear_all-append running r [] ys = refl
hear_all-append running r (x ∷ xs) ys =
    let (r1, now) = hear running r x in rw (hear_all-append running r1 xs ys, append_assoc)

-- The receiver and the expander agree on the open message.
pub record Agree (s : RunningStatus) (r : Receiver) : Type 0 where
  pub consistent : IsConsistent s
  pub same_status : r.status ≡ s.running_status
  pub same_count : r.due ≡ s.data_count
  pub nothing_queued : s.has_queued_byte ≡ false

message_data_table :
    passes_below 256 (λ b. ltb b 0x80 || leb 0xf0 b || (data_bytes b == message_data b)) ≡ true
unfolding passes_below
message_data_table = refl

message_data_lem : (b : ℕ) → 0x80 ≤ b → b < 0xf0 → data_bytes b ≡ message_data b
message_data_lem b lo hi =
    ground (arith, passes_below_sound _ 256 b (omega arith) message_data_table)

feed-Agree :
    (s : RunningStatus) (r : Receiver) (b : ℕ) → Agree s r → Agree (feed s b).0 (hear true r b).0
unfolding feed expand take_queued hear
feed-Agree s r b h = ground (arith, message_data_lem b, message_data_lem s.running_status)

feed-hear :
    (s : RunningStatus) (r : Receiver) (b : ℕ)
    → Agree s r
    → hear_all false r (feed s b).1 ≡ hear true r b
unfolding feed expand take_queued hear hear_all
feed-hear s r b h = ground (arith, message_data_lem b, message_data_lem s.running_status)

hear_all-expand_all :
    (s : RunningStatus) (r : Receiver) (bs : List ℕ)
    → Agree s r
    → hear_all false r (expand_all s bs) ≡ hear_all true r bs
unfolding expand_all hear_all
hear_all-expand_all s r [] h = refl
hear_all-expand_all s r (b ∷ bs) h = rw (
  hear_all-append false r (feed s b).1 (expand_all (feed s b).0 bs),
  feed-hear s r b h,
  hear_all-expand_all (feed s b).0 (hear true r b).0 bs (feed-Agree s r b h),
)

-- For every byte stream, a receiver without Running Status makes of the expanded stream exactly the
-- events that a receiver with Running Status makes of the original, and ends in the same state.
pub hear-expanded :
    (bs : List ℕ) → hear_all false listening (expand_all fresh bs) ≡ hear_all true listening bs
hear-expanded bs = hear_all-expand_all fresh listening bs (record {
  consistent = fresh-IsConsistent;
  same_status = refl;
  same_count = refl;
  nothing_queued = refl;
})
