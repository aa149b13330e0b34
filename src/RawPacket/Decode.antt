-- ===== src/RawPacket/Decode.antt =====
-- What `try_from` of src/raw_packet.rs answers on any bytes.
use jit_streamer_eb.Prelude.{
  ℕ, ◌+◌, ◌-◌, ◌≤◌, ◌<◌, ◌≡◌, ◌↔◌, Option, some, List, ◌∷◌, ltb, if◌then◌else◌, length, take, drop,
  ok, err, returns, panic, arith,
}
use jit_streamer_eb.Prelude.Bytes.{from_le_bytes}
use jit_streamer_eb.RawPacket.{RawPacket, Parse, ◌>>=◌, or_error, try_from}

-- The number that four bytes hold, lowest first.
abbrev pub word : ℕ → ℕ → ℕ → ℕ → ℕ
word a b c d = from_le_bytes (record { b0 = a; b1 = b; b2 = c; b3 = d })

-- The size field of a packet that holds one.
abbrev pub size_field : List ℕ → ℕ
size_field (a ∷ b ∷ c ∷ d ∷ _) = word a b c d
size_field _ = 0

module _ {Dictionary : Type 0} (from_bytes : List ℕ → Option Dictionary) where
  -- The packet of a header and a body, as the protocol describes it: the size counts the header,
  -- and bytes behind the body are not read.
  abbrev pub described : ℕ → ℕ → ℕ → ℕ → List ℕ → Parse (RawPacket Dictionary)
  described size version message tag body =
      if ltb (length body + 16) size
      then returns (err tt)
      else if ltb size 16
      then panic
      else (or_error (from_bytes (take (size - 16) body)) >>= λ plist. returns (
          ok (record {
            size = size;
            version = version;
            message = message;
            tag = tag;
            plist = plist;
          })))

  pub try_from-header :
      (a0 a1 a2 a3 b0 b1 b2 b3 c0 c1 c2 c3 d0 d1 d2 d3 : ℕ) (body : List ℕ)
      → try_from from_bytes
          (a0 ∷ a1 ∷ a2 ∷ a3 ∷ b0 ∷ b1 ∷ b2 ∷ b3 ∷ c0 ∷ c1 ∷ c2 ∷ c3 ∷ d0 ∷ d1 ∷ d2 ∷ d3 ∷ body)
        ≡ described (word a0 a1 a2 a3) (word b0 b1 b2 b3) (word c0 c1 c2 c3) (word d0 d1 d2 d3) body
  unfolding try_from
  try_from-header a0 a1 a2 a3 b0 b1 b2 b3 c0 c1 c2 c3 d0 d1 d2 d3 body = ground arith

  pub try_from_short :
      (packet : List ℕ) → length packet < 16 → try_from from_bytes packet ≡ returns (err tt)
  unfolding try_from
  try_from_short packet h = ground arith

  -- What the protocol says of any bytes: without a whole header there is no packet.
  abbrev pub answer : List ℕ → Parse (RawPacket Dictionary)
  answer (a0 ∷ a1 ∷ a2 ∷ a3 ∷ b0 ∷ b1 ∷ b2 ∷ b3 ∷ c0 ∷ c1 ∷ c2 ∷ c3 ∷ d0 ∷ d1 ∷ d2 ∷ d3 ∷ body) =
      described (word a0 a1 a2 a3) (word b0 b1 b2 b3) (word c0 c1 c2 c3) (word d0 d1 d2 d3) body
  answer _ = returns (err tt)

  -- On any bytes `try_from` answers as the protocol's description of the packet does: `Err(())`
  -- without a whole header or a whole body, a panic on a size below 16, and otherwise the packet,
  -- if the `plist` crate reads the body.
  pub try_from-answer : (packet : List ℕ) → try_from from_bytes packet ≡ answer packet
  try_from-answer
        (a0 ∷ a1 ∷ a2 ∷ a3 ∷ b0 ∷ b1 ∷ b2 ∷ b3 ∷ c0 ∷ c1 ∷ c2 ∷ c3 ∷ d0 ∷ d1 ∷ d2 ∷ d3 ∷ body) =
      try_from-header a0 a1 a2 a3 b0 b1 b2 b3 c0 c1 c2 c3 d0 d1 d2 d3 body
  try_from-answer packet = try_from_short packet (omega arith)

  -- `try_from` panics exactly on a packet that holds a whole header whose size field is below 16
  -- and does not pass the packet's length: the range `16..size` of the body is then inverted.
  pub try_from_panics_iff :
      (packet : List ℕ)
      → (try_from from_bytes packet ≡ panic)
        ↔ ((16 ≤ length packet) × (size_field packet ≤ length packet) × (size_field packet < 16))
  try_from_panics_iff
        (a0 ∷ a1 ∷ a2 ∷ a3 ∷ b0 ∷ b1 ∷ b2 ∷ b3 ∷ c0 ∷ c1 ∷ c2 ∷ c3 ∷ d0 ∷ d1 ∷ d2 ∷ d3 ∷ body) =
      ground (arith, try_from-header a0 a1 a2 a3 b0 b1 b2 b3 c0 c1 c2 c3 d0 d1 d2 d3 body)
  try_from_panics_iff packet = ground (arith, try_from_short packet)

  -- A packet that `try_from` accepts holds its whole size, at least a header, and its body is what
  -- `plist::from_bytes` read as the dictionary.
  try_from_accepts :
      (packet : List ℕ) (p : RawPacket Dictionary)
      → try_from from_bytes packet ≡ returns (ok p)
      → (16 ≤ p.size)
        × (p.size ≡ size_field packet)
        × (p.size ≤ length packet)
        × (from_bytes (take (p.size - 16) (drop 16 packet)) ≡ some p.plist)
  try_from_accepts
        (a0 ∷ a1 ∷ a2 ∷ a3 ∷ b0 ∷ b1 ∷ b2 ∷ b3 ∷ c0 ∷ c1 ∷ c2 ∷ c3 ∷ d0 ∷ d1 ∷ d2 ∷ d3 ∷ body) p e =
      ground (arith, try_from-header a0 a1 a2 a3 b0 b1 b2 b3 c0 c1 c2 c3 d0 d1 d2 d3 body)
  try_from_accepts packet p e = ground (arith, try_from_short packet)
