-- ===== src/Register/Address.antt =====
-- `generate_ipv6_from_udid` of src/register.rs: a device's address from the hash of its UDID.
-- `Sha256` of the `sha2` crate is the parameter `hash`; a text and a digest are lists of bytes.
pub mod Bits
mod Tests
use jit_streamer_eb.Prelude.{
  ℕ, ◌+◌, ◌-◌, ◌*◌, ◌/◌, ◌%◌, ◌^◌, Option, none, some, List, [], ◌∷◌, ltb, if◌then◌else◌,
}
use jit_streamer_eb.Net.{Ipv6}

-- `u64::from_be_bytes(hash[0..8].try_into().unwrap())`, which panics (`none`) on a shorter hash.
abbrev pub interface_id : List ℕ → Option ℕ
interface_id (a ∷ b ∷ c ∷ d ∷ e ∷ f ∷ g ∷ h ∷ _) =
    some
      (a * 2 ^ 56 + b * 2 ^ 48 + c * 2 ^ 40 + d * 2 ^ 32 + e * 2 ^ 24 + f * 2 ^ 16 + g * 2 ^ 8 + h)
interface_id _ = none

-- `segments[i]`, for i from 1 to 7.
abbrev pub segment : ℕ → ℕ → ℕ
segment i id = let shift = (7 - i) * 16 in if ltb shift 64 then id / 2 ^ shift % 65536 else 0

unfoldable pub address : ℕ → Ipv6
address id = record {
  s0 = 0xfd00;
  s1 = segment 1 id;
  s2 = segment 2 id;
  s3 = segment 3 id;
  s4 = segment 4 id;
  s5 = segment 5 id;
  s6 = segment 6 id;
  s7 = segment 7 id;
}

unfoldable pub generate_ipv6_from_udid : (List ℕ → List ℕ) → List ℕ → Option Ipv6
generate_ipv6_from_udid hash udid = elim (interface_id (hash udid)) [
  | none ↦ none
  | some id ↦ some (address id)
]
