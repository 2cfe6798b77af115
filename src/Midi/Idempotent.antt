-- ===== src/Midi/Idempotent.antt =====
-- Expanding an expanded stream changes nothing: no Running Status is left in it.
use alsa_jockey.Prelude.{ℕ, ◌≡◌, refl, false, arith, List, [], ◌∷◌, ◌++◌, append_assoc}
use alsa_jockey.Midi.RunningStatus.{
  RunningStatus, IsConsistent, expand, take_queued, feed, expand_all, fresh, fresh-IsConsistent,
}

-- Two states that differ at most in the byte of an empty queue.
record Same (s t : RunningStatus) : Type 0 where
  consistent : IsConsistent s
  expected : s.expected_data ≡ t.expected_data
  count : s.data_count ≡ t.data_count
  status : s.running_status ≡ t.running_status
  left_empty : s.has_queued_byte ≡ false
  right_empty : t.has_queued_byte ≡ false

feed_all : RunningStatus → List ℕ → RunningStatus × List ℕ
feed_all s [] = (s, [])
feed_all s (b ∷ bs) =
    let (s1, now) = feed s b in let (s2, later) = feed_all s1 bs in (s2, now ++ later)

expand_all-append :
    (s : RunningStatus) (xs ys : List ℕ)
    → expand_all s (xs ++ ys) ≡ (feed_all s xs).1 ++ expand_all (feed_all s xs).0 ys
unfolding expand_all feed_all
expand_all-append s [] ys = refl
expand_all-append s (x ∷ xs) ys = rw (expand_all-append (feed s x).0 xs ys, append_assoc)

feed_sent : (s t : RunningStatus) (b : ℕ) → Same s t → (feed_all t (feed s b).1).1 ≡ (feed s b).1
unfolding feed expand take_queued feed_all
feed_sent s t b h = ground arith

feed_sent-Same :
    (s t : RunningStatus) (b : ℕ) → Same s t → Same (feed s b).0 (feed_all t (feed s b).1).0
unfolding feed expand take_queued feed_all
feed_sent-Same s t b h = ground arith

expand_all_again :
    (s t : RunningStatus) (bs : List ℕ)
    → Same s t
    → expand_all t (expand_all s bs) ≡ expand_all s bs
unfolding expand_all
expand_all_again s t [] h = refl
expand_all_again s t (b ∷ bs) h = rw (
  expand_all-append t (feed s b).1 (expand_all (feed s b).0 bs),
  feed_sent s t b h,
  expand_all_again (feed s b).0 (feed_all t (feed s b).1).0 bs (feed_sent-Same s t b h),
)

-- Expanding twice gives what expanding once gives, for every byte stream.
expand_all_idempotent : (bs : List ℕ) → expand_all fresh (expand_all fresh bs) ≡ expand_all fresh bs
expand_all_idempotent bs = expand_all_again fresh fresh bs (record {
  consistent = fresh-IsConsistent;
  expected = refl;
  count = refl;
  status = refl;
  left_empty = refl;
  right_empty = refl;
})
