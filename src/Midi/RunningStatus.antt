-- ===== src/Midi/RunningStatus.antt =====
-- The MIDI 1.0 Running Status expander (ploytec_midi.c, ploytec_midi.h).
use alsa_jockey.Prelude.{
  ℕ, ◌-◌, ◌≤◌, ◌<◌, ◌≡◌, Bool, true, false, arith, ltb, leb, ◌==◌, ◌||◌, if◌then◌else◌, bit_and,
  List, [], ◌∷◌, ◌++◌,
}

-- `struct ploytec_midi_running_status`. The counts are `int`s that stay at 0, 1 or 2 (see
-- `IsConsistent`), so that `- 1` never meets 0.
pub record RunningStatus : Type 0 where
  pub expected_data : ℕ
  pub data_count : ℕ
  pub running_status : ℕ
  pub queued_byte : ℕ
  pub has_queued_byte : Bool

-- Zero-initialised.
abbrev pub fresh : RunningStatus
fresh = record {
  expected_data = 0;
  data_count = 0;
  running_status = 0;
  queued_byte = 0;
  has_queued_byte = false;
}

-- Program Change and Channel Pressure carry one data byte, the other channel messages two.
abbrev pub data_bytes : ℕ → ℕ
data_bytes b = if bit_and b 0xf0 == 0xc0 || bit_and b 0xf0 == 0xd0 then 1 else 2

-- The two branches for a status byte below 0xf8 end in the same assignment of `data_count`.
status_byte : RunningStatus → ℕ → RunningStatus
status_byte s b =
    if ltb b 0xf0
    then record s { running_status = b; expected_data = data_bytes b; data_count = data_bytes b }
    else record s { running_status = 0; expected_data = 0; data_count = 0 }

-- `ploytec_midi_running_status_expand`: the new state and the byte to send.
unfoldable pub expand : RunningStatus → ℕ → RunningStatus × ℕ
unfolding status_byte
expand s b =
    if leb 0x80 b
    then (if ltb b 0xf8 then (status_byte s b, b) else (s, b))
    else if ltb 0 s.data_count
    then (record s { data_count = s.data_count - 1 }, b)
    else if leb 0x80 s.running_status
    then (
      record s { queued_byte = b; has_queued_byte = true; data_count = s.expected_data - 1 },
      s.running_status,
    )
    else (s, b)

-- What the output side does before it takes another byte: send the queued byte, if there is one.
unfoldable pub take_queued : RunningStatus → RunningStatus × List ℕ
take_queued s =
    if s.has_queued_byte
    then (record s { has_queued_byte = false }, s.queued_byte ∷ [])
    else (s, [])

-- The bytes sent for one byte of the source.
unfoldable pub feed : RunningStatus → ℕ → RunningStatus × List ℕ
feed s b = let (s1, first) = expand s b in let (s2, rest) = take_queued s1 in (s2, first ∷ rest)

unfoldable pub expand_all : RunningStatus → List ℕ → List ℕ
expand_all s [] = []
expand_all s (b ∷ bs) = let (s', sent) = feed s b in sent ++ expand_all s' bs

-- What holds of the state between two output opportunities.
pub record IsConsistent (s : RunningStatus) : Type 0 where
  pub counted : s.data_count ≤ s.expected_data
  pub at_most_two : s.expected_data ≤ 2
  pub armed : 0x80 ≤ s.running_status → s.running_status < 0xf0
  pub expects : 0x80 ≤ s.running_status → s.expected_data ≡ data_bytes s.running_status
  pub idle : s.running_status < 0x80 → s.expected_data ≡ 0

pub fresh-IsConsistent : IsConsistent fresh
fresh-IsConsistent = ground arith

-- Each byte keeps the state consistent.
expand-IsConsistent : (s : RunningStatus) (b : ℕ) → IsConsistent s → IsConsistent (expand s b).0
unfolding expand
expand-IsConsistent s b h = ground arith
