-- ===== src/RawPacket.antt =====
-- src/raw_packet.rs: the packets of the usbmuxd protocol, a header of four little-endian `u32` and
-- a property list in XML. The `plist` crate is not part of the repository: `to_writer_xml` and
-- `from_bytes` stand for `plist::to_writer_xml` and `plist::from_bytes`.
pub mod Decode
pub mod RoundTrip
mod Tests
use jit_streamer_eb.Prelude.{
  ℕ, ◌+◌, ◌-◌, ◌&&◌, Option, none, some, List, ◌++◌, ltb, leb, if◌then◌else◌, length, take, drop,
  Result, ok, err, Panics, returns, panic,
}
use jit_streamer_eb.Prelude.Bytes.{u32, to_le_bytes, to_array4, from_le_bytes}

pub record RawPacket (Dictionary : Type 0) : Type 0 where
  pub size : ℕ
  pub version : ℕ
  pub message : ℕ
  pub tag : ℕ
  pub plist : Dictionary

-- `&packet[lo..hi]`, which panics (`none`) out of range.
abbrev pub slice {ℓ} : {A : Type ℓ} → ℕ → ℕ → List A → Option (List A)
slice lo hi xs =
    if leb lo hi && leb hi (length xs) then some (take (hi - lo) (drop lo xs)) else none

-- What `try_from` may do: return `Ok` or `Err(())`, or panic.
abbrev pub Parse : Type 0 → Type 0
Parse A = Panics (Result A (Unit {0}))

abbrev pub or_panic : {A : Type 0} → Option A → Parse A
or_panic none = panic
or_panic (some a) = returns (ok a)

abbrev pub or_error : {A : Type 0} → Option A → Parse A
or_error none = returns (err tt)
or_error (some a) = returns (ok a)

infixl 5 ◌>>=◌
abbrev pub ◌>>=◌ : {A B : Type 0} → Parse A → (A → Parse B) → Parse B
returns (ok a) >>= f = f a
returns (err e) >>= f = returns (err e)
panic >>= f = panic

-- `u32::from_le_bytes` of a slice of the packet.
abbrev pub read_u32 : ℕ → ℕ → List ℕ → Parse ℕ
read_u32 lo hi packet = do
  bytes ← or_panic (slice lo hi packet)
  word ← or_error (to_array4 bytes)
  returns (ok (from_le_bytes word))

module _ {Dictionary : Type 0} (to_writer_xml : Dictionary → Option (List ℕ)) where
  -- The `unwrap` of what `to_writer_xml` returns panics on a dictionary that has no XML. That of
  -- `into_inner` cannot: it flushes to a vector.
  plist_to_bytes : Dictionary → Panics (List ℕ)
  plist_to_bytes p = elim (to_writer_xml p) [ none ↦ panic | some bytes ↦ returns bytes ]

  -- `plist_bytes.len() as u32 + 16`, in the release profile.
  pub new : Dictionary → ℕ → ℕ → ℕ → Panics (RawPacket Dictionary)
  unfolding plist_to_bytes
  new plist version message tag = elim (plist_to_bytes plist) [
    | panic ↦ panic
    | returns plist_bytes ↦ returns (record {
      size = u32 (u32 (length plist_bytes) + 16);
      version = version;
      message = message;
      tag = tag;
      plist = plist;
    })
  ]

  -- `impl From<RawPacket> for Vec<u8>`.
  pub to_bytes : RawPacket Dictionary → Panics (List ℕ)
  unfolding plist_to_bytes
  to_bytes p = elim (plist_to_bytes p.plist) [
    | panic ↦ panic
    | returns plist_bytes ↦ returns (
        to_le_bytes p.size
        ++ (to_le_bytes p.version ++ (to_le_bytes p.message ++ (to_le_bytes p.tag ++ plist_bytes))))
  ]

  -- `RawPacket::new(…).into()`
  abbrev pub encode : Dictionary → ℕ → ℕ → ℕ → Panics (List ℕ)
  encode plist version message tag = elim (new plist version message tag) [
    | panic ↦ panic
    | returns p ↦ to_bytes p
  ]

module _ {Dictionary : Type 0} (from_bytes : List ℕ → Option Dictionary) where
  -- The part of `try_from` after the check of the packet's length against its size field.
  try_from_body : ℕ → List ℕ → Parse (RawPacket Dictionary)
  try_from_body packet_size packet = do
    packet_version ← read_u32 4 8 packet
    message ← read_u32 8 12 packet
    packet_tag ← read_u32 12 16 packet
    bytes ← or_panic (slice 16 packet_size packet)
    plist ← or_error (from_bytes bytes)
    returns (
        ok (record {
          size = packet_size;
          version = packet_version;
          message = message;
          tag = packet_tag;
          plist = plist;
        }))

  -- `impl TryFrom<&[u8]> for RawPacket`; the one for `&mut Vec<u8>` calls it.
  pub try_from : List ℕ → Parse (RawPacket Dictionary)
  unfolding try_from_body
  try_from packet = if ltb (length packet) 16 then returns (err tt) else do
    packet_size ← read_u32 0 4 packet
    if ltb (length packet) packet_size then returns (err tt) else try_from_body packet_size packet
