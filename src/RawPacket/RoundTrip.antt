-- ===== src/RawPacket/RoundTrip.antt =====
-- `From<RawPacket>` and `TryFrom<&[u8]>` of src/raw_packet.rs are inverse.
use jit_streamer_eb.Prelude.{
  panic, Panics, ◌∙◌, sym, ap, ℕ, ◌+◌, ◌^◌, ◌<◌, ◌≡◌, Option, some, List, ◌∷◌, ◌++◌, length,
  length-append, take-append, ok, err, refl, returns, arith,
}
use jit_streamer_eb.Prelude.Bytes.{u32, to_le_bytes, from_le_bytes-to_le_bytes}
use jit_streamer_eb.RawPacket.{RawPacket, try_from, new, to_bytes, plist_to_bytes, encode}
use jit_streamer_eb.RawPacket.Decode.{described, try_from-header, try_from_short}

-- Every field of the header is a `u32`.
pub record HasWords {Dictionary : Type 0} (p : RawPacket Dictionary) : Type 0 where
  pub size_fits : p.size < 2 ^ 32
  pub version_fits : p.version < 2 ^ 32
  pub message_fits : p.message < 2 ^ 32
  pub tag_fits : p.tag < 2 ^ 32

-- The bytes of a packet whose dictionary has the XML.
abbrev pub serialized : {Dictionary : Type 0} → RawPacket Dictionary → List ℕ → List ℕ
serialized p xml =
    to_le_bytes p.size
    ++ (to_le_bytes p.version ++ (to_le_bytes p.message ++ (to_le_bytes p.tag ++ xml)))

-- The packet of a dictionary whose XML fits.
abbrev pub made : {Dictionary : Type 0} → Dictionary → List ℕ → ℕ → ℕ → ℕ → RawPacket Dictionary
made plist xml version message tag = record {
  size = length xml + 16;
  version = version;
  message = message;
  tag = tag;
  plist = plist;
}

module _ {Dictionary : Type 0} (to_writer_xml : Dictionary → Option (List ℕ)) where
  pub new-made :
      (plist : Dictionary) (xml : List ℕ) (version message tag : ℕ)
      → to_writer_xml plist ≡ some xml
      → length xml + 16 < 2 ^ 32
      → new to_writer_xml plist version message tag ≡ returns (made plist xml version message tag)
  unfolding new plist_to_bytes
  new-made plist xml version message tag e fits =
      let exact : u32 (u32 (length xml) + 16) ≡ length xml + 16 = omega arith in
      rw (new, plist_to_bytes, e, exact) refl

  pub encode-made :
      (plist : Dictionary) (xml : List ℕ) (version message tag : ℕ)
      → to_writer_xml plist ≡ some xml
      → length xml + 16 < 2 ^ 32
      → encode to_writer_xml plist version message tag
        ≡ returns (serialized (made plist xml version message tag) xml)
  unfolding to_bytes plist_to_bytes
  encode-made plist xml version message tag e fits =
      rw (encode, new-made plist xml version message tag e fits, to_bytes, plist_to_bytes, e) refl

pub returns-injective : {a b : List ℕ} → Path (Panics (List ℕ)) (returns a) (returns b) → a ≡ b
returns-injective {a} e = ap (λ r. elim r [ returns l ↦ l | panic ↦ a ]) e

module _ {Dictionary : Type 0} (from_bytes : List ℕ → Option Dictionary) where
  -- The header of a written packet is read back field by field.
  try_from-serialized :
      (p : RawPacket Dictionary) (xml rest : List ℕ)
      → HasWords p
      → try_from from_bytes (serialized p xml ++ rest)
        ≡ described from_bytes p.size p.version p.message p.tag (xml ++ rest)
  try_from-serialized p xml rest w = rw (
    try_from-header,
    from_le_bytes-to_le_bytes p.size w.size_fits,
    from_le_bytes-to_le_bytes p.version w.version_fits,
    from_le_bytes-to_le_bytes p.message w.message_fits,
    from_le_bytes-to_le_bytes p.tag w.tag_fits,
  )

  described-exact :
      (plist : Dictionary) (xml : List ℕ) (version message tag : ℕ) (rest : List ℕ)
      → from_bytes xml ≡ some plist
      → described from_bytes (length xml + 16) version message tag (xml ++ rest)
        ≡ returns (ok (made plist xml version message tag))
  described-exact plist xml version message tag rest back =
      ground (arith, length-append xml rest, take-append xml rest)

  pub try_from-made :
      (plist : Dictionary) (xml : List ℕ) (version message tag : ℕ) (rest : List ℕ)
      → from_bytes xml ≡ some plist
      → length xml + 16 < 2 ^ 32
      → version < 2 ^ 32
      → message < 2 ^ 32
      → tag < 2 ^ 32
      → try_from from_bytes (serialized (made plist xml version message tag) xml ++ rest)
        ≡ returns (ok (made plist xml version message tag))
  try_from-made plist xml version message tag rest back fits hv hm ht =
      try_from-serialized (made plist xml version message tag) xml rest words
      ∙ described-exact plist xml version message tag rest back
    where
      words : HasWords (made plist xml version message tag)
      words = omega arith

module _ {Dictionary : Type 0} (to_writer_xml : Dictionary → Option (List ℕ))
    (from_bytes : List ℕ → Option Dictionary) where
  -- Reading what was written: from a dictionary that has an XML which the `plist` crate reads back,
  -- with `u32` fields and a size that fits a `u32`, `new` makes a packet that is written without a
  -- panic, and that is parsed back from the bytes, whatever follows them.
  pub try_from-to_bytes :
      (plist : Dictionary) (xml : List ℕ) (version message tag : ℕ) (rest : List ℕ)
      → to_writer_xml plist ≡ some xml
      → from_bytes xml ≡ some plist
      → length xml + 16 < 2 ^ 32
      → version < 2 ^ 32
      → message < 2 ^ 32
      → tag < 2 ^ 32
      → (p : RawPacket Dictionary) × (bytes : List ℕ) × (new to_writer_xml plist version message tag
          ≡ returns p)
        × (to_bytes to_writer_xml p ≡ returns bytes)
        × (try_from from_bytes (bytes ++ rest) ≡ returns (ok p))
  unfolding to_bytes plist_to_bytes
  try_from-to_bytes plist xml version message tag rest e back fits hv hm ht = (
    made plist xml version message tag,
    serialized (made plist xml version message tag) xml,
    new-made to_writer_xml plist xml version message tag e fits,
    rw (to_bytes, plist_to_bytes, e) refl,
    try_from-made from_bytes plist xml version message tag rest back fits hv hm ht,
  )

  -- A proper prefix of the bytes of a packet that `new` made and that fits a `u32` is refused with
  -- `Err(())`, and never panics or yields a packet.
  pub try_from_truncated :
      (plist : Dictionary) (xml : List ℕ) (version message tag x : ℕ) (front back : List ℕ)
      → to_writer_xml plist ≡ some xml
      → length xml + 16 < 2 ^ 32
      → encode to_writer_xml plist version message tag ≡ returns (front ++ (x ∷ back))
      → try_from from_bytes front ≡ returns (err tt)
  try_from_truncated plist xml version message tag x
        (a0 ∷ a1 ∷ a2 ∷ a3 ∷ b0 ∷ b1 ∷ b2 ∷ b3 ∷ c0 ∷ c1 ∷ c2 ∷ c3 ∷ d0 ∷ d1 ∷ d2 ∷ d3 ∷ body) back
        w fits e =
      let h =
        returns-injective
          (sym (encode-made to_writer_xml plist xml version message tag w fits) ∙ e) in
      ground (
        arith,
        h,
        try_from-header from_bytes a0 a1 a2 a3 b0 b1 b2 b3 c0 c1 c2 c3 d0 d1 d2 d3 body,
        from_le_bytes-to_le_bytes (length xml + 16),
        length-append body (x ∷ back),
      )
  try_from_truncated plist xml version message tag x front back w fits e =
      let h =
        returns-injective
          (sym (encode-made to_writer_xml plist xml version message tag w fits) ∙ e) in
      try_from_short from_bytes front (omega (arith, ap length h))
