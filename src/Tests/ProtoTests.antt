-- ===== src/Tests/ProtoTests.antt =====
-- The control protocol (ploytec_proto.c) with concrete devices.
use alsa_jockey.Prelude.{ℕ, ◌+◌, ◌%◌, ◌^◌, ◌≡◌, refl, Bool, true, false, [], ◌∷◌, ◌++◌}
use alsa_jockey.Proto.Session.{Transfer, usleep_range, Reply, answered, Session, ok}
use alsa_jockey.Proto.Calls.{rate_bytes, rate_of, set_rate}
use alsa_jockey.Proto.Calls.Order.{
  IsCooperative, vendor_write, vendor_burst, rate_of-rate_bytes, set_rate-order,
}

-- A device that counts its transfers and answers zeros.
abbrev answering : ℕ → Transfer → ℕ × Reply
answering d t = (d + 1, answered (0 ∷ 0 ∷ 0 ∷ []))

abbrev started : Session ℕ
started = record { device = 0; log = [] }

answering-IsCooperative : IsCooperative answering
answering-IsCooperative d t = (0 ∷ 0 ∷ 0 ∷ [], refl)

rate_of-rate_bytes_example : rate_of (rate_bytes 96000) ≡ 96000 % 2 ^ 24
rate_of-rate_bytes_example = rate_of-rate_bytes 96000

set_rate-order_example :
    ((set_rate answering 96000 true started).0.log
      ≡ [] ++ (usleep_range 14000 15000 ∷ vendor_burst 96000))
    × ((set_rate answering 96000 false started).0.log
        ≡ []
          ++ (usleep_range 50000 51000
              ∷ vendor_write 96000 0x86
              ∷ usleep_range 10000 11000
              ∷ vendor_burst 96000))
    × ((cold_init : Bool) → (set_rate answering 96000 cold_init started).1 ≡ ok 0)
set_rate-order_example = set_rate-order answering answering-IsCooperative 96000 started
