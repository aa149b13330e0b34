-- ===== src/RawPacket/Tests.antt =====
-- Packets of src/raw_packet.rs at concrete bytes. A dictionary is its own XML here.
use jit_streamer_eb.Prelude.{
  ℕ, ◌≤◌, ◌<◌, ◌≡◌, ◌↔◌, refl, Option, none, some, List, [], ◌∷◌, ◌++◌, length, take, ok, err,
  returns, panic, arith,
}
use jit_streamer_eb.Prelude.Bytes.{from_le_bytes}
use jit_streamer_eb.RawPacket.{RawPacket, try_from, new, to_bytes, encode}
use jit_streamer_eb.RawPacket.Decode.{size_field, answer, try_from-answer, try_from_panics_iff}
use jit_streamer_eb.RawPacket.RoundTrip.{try_from-to_bytes, try_from_truncated}

abbrev verbatim : List ℕ → Option (List ℕ)
verbatim d = some d

-- A `plist` that has no XML for anything.
abbrev unwritable : List ℕ → Option (List ℕ)
unwritable d = none

abbrev reads : List ℕ → Option (List ℕ)
reads bytes = some bytes

-- A header of 17 bytes with one byte of body, then one byte more.
abbrev sample : List ℕ
sample = 17 ∷ 0 ∷ 0 ∷ 0 ∷ 69 ∷ 0 ∷ 0 ∷ 0 ∷ 69 ∷ 0 ∷ 0 ∷ 0 ∷ 69 ∷ 0 ∷ 0 ∷ 0 ∷ 7 ∷ 8 ∷ []

-- A header whose size field is 3.
abbrev tiny : List ℕ
tiny = 3 ∷ 0 ∷ 0 ∷ 0 ∷ 0 ∷ 0 ∷ 0 ∷ 0 ∷ 0 ∷ 0 ∷ 0 ∷ 0 ∷ 0 ∷ 0 ∷ 0 ∷ 0 ∷ []

abbrev sample_packet : RawPacket (List ℕ)
sample_packet = record { size = 17; version = 69; message = 69; tag = 69; plist = 7 ∷ [] }

sample_parsed : try_from reads sample ≡ returns (ok sample_packet)
unfolding try_from from_le_bytes
sample_parsed = refl

sample_written : encode verbatim (7 ∷ []) 69 69 69 ≡ returns (take 17 sample)
unfolding to_bytes new
sample_written = refl

unwritable_panics : encode unwritable (7 ∷ []) 69 69 69 ≡ panic
unfolding new
unwritable_panics = refl

try_from-answer_example : try_from reads tiny ≡ answer reads tiny
try_from-answer_example = try_from-answer reads tiny

try_from_panics_iff_example :
    (try_from reads tiny ≡ panic)
    ↔ ((16 ≤ length tiny) × (size_field tiny ≤ length tiny) × (size_field tiny < 16))
try_from_panics_iff_example = try_from_panics_iff reads tiny

tiny_panics : try_from reads tiny ≡ panic
unfolding try_from from_le_bytes
tiny_panics = refl

try_from-to_bytes_example :
    (p : RawPacket (List ℕ)) × (bytes : List ℕ) × (new verbatim (7 ∷ []) 69 69 69 ≡ returns p)
    × (to_bytes verbatim p ≡ returns bytes)
    × (try_from reads (bytes ++ (8 ∷ [])) ≡ returns (ok p))
try_from-to_bytes_example =
    try_from-to_bytes verbatim reads (7 ∷ []) (7 ∷ []) 69 69 69 (8 ∷ []) refl refl (omega arith)
      (omega arith) (omega arith) (omega arith)

try_from_truncated_example : try_from reads (take 16 sample) ≡ returns (err tt)
unfolding to_bytes new
try_from_truncated_example =
    try_from_truncated verbatim reads (7 ∷ []) (7 ∷ []) 69 69 69 7 (take 16 sample) [] refl
      (omega arith) refl
