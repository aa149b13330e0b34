-- ===== src/Register/Address/Bits.antt =====
-- The 128 bits of a generated address.
use jit_streamer_eb.Prelude.{
  ℕ, ◌+◌, ◌*◌, ◌^◌, ◌<◌, ◌≡◌, ap, sym, ◌∙◌, ◌↔◌, Option, none, some, List, [], ◌∷◌, arith, All,
  take, length,
}
use jit_streamer_eb.Net.{Ipv6, segments}
use jit_streamer_eb.Register.Address.{interface_id, address, generate_ipv6_from_udid}

-- The address as one number of 128 bits.
abbrev pub to_bits : Ipv6 → ℕ
to_bits a =
    a.s0 * 2 ^ 112
    + a.s1 * 2 ^ 96
    + a.s2 * 2 ^ 80
    + a.s3 * 2 ^ 64
    + a.s4 * 2 ^ 48
    + a.s5 * 2 ^ 32
    + a.s6 * 2 ^ 16
    + a.s7

to_bits-address : (id : ℕ) → id < 2 ^ 64 → to_bits (address id) ≡ 0xfd00 * 2 ^ 112 + id
unfolding address
to_bits-address id h = omega arith

-- A digest: 32 bytes.
abbrev pub IsDigest : List ℕ → Type 0
IsDigest l = (length l ≡ 32) × All (λ b. b < 256) l

abbrev bytes_value : List ℕ → ℕ → ℕ
bytes_value [] acc = acc
bytes_value (b ∷ l) acc = bytes_value l (acc * 256 + b)

-- The number that the first eight bytes of a list hold, the highest byte first.
abbrev pub first_eight : List ℕ → ℕ
first_eight l = bytes_value (take 8 l) 0

interface_id-digest :
    (l : List ℕ) → IsDigest l → (interface_id l ≡ some (first_eight l)) × (first_eight l < 2 ^ 64)
interface_id-digest (a ∷ b ∷ c ∷ d ∷ e ∷ f ∷ g ∷ h ∷ l) (n, bytes) =
    (ap (λ (t : ℕ). some t) (omega arith), omega arith)
interface_id-digest l (n, bytes) = absurd (omega arith)

generate_ipv6-address :
    (hash : List ℕ → List ℕ) (udid : List ℕ)
    → IsDigest (hash udid)
    → generate_ipv6_from_udid hash udid ≡ some (address (first_eight (hash udid)))
unfolding generate_ipv6_from_udid
generate_ipv6-address hash udid d =
    let (e, fits) = interface_id-digest (hash udid) d in ground (arith, e)

abbrev bits_of : Option Ipv6 → ℕ
bits_of none = 0
bits_of (some a) = to_bits a

-- With a hash that gives 32 bytes, every UDID gets an address in fd00::/64 whose last 64 bits are
-- the first eight bytes of the hash, the highest first, and all its segments fit 16 bits; the code
-- does not panic.
pub generate_ipv6-bits :
    (hash : List ℕ → List ℕ) (udid : List ℕ)
    → IsDigest (hash udid)
    → (a : Ipv6) × (generate_ipv6_from_udid hash udid ≡ some a)
      × (to_bits a ≡ 0xfd00 * 2 ^ 112 + first_eight (hash udid))
      × (first_eight (hash udid) < 2 ^ 64)
      × All (λ s. s < 65536) (segments a)
unfolding address
generate_ipv6-bits hash udid d =
    let (e, fits) = interface_id-digest (hash udid) d in
    (
      address (first_eight (hash udid)),
      generate_ipv6-address hash udid d,
      to_bits-address _ fits,
      fits,
      omega arith,
    )

-- Two devices get the same address exactly if the first eight bytes of their hashes agree.
pub generate_ipv6-eq_iff :
    (hash : List ℕ → List ℕ) (udid other : List ℕ)
    → IsDigest (hash udid)
    → IsDigest (hash other)
    → (generate_ipv6_from_udid hash udid ≡ generate_ipv6_from_udid hash other)
      ↔ (first_eight (hash udid) ≡ first_eight (hash other))
generate_ipv6-eq_iff hash udid other d k = (
  λ e. omega (
    arith,
    ap bits_of (sym (generate_ipv6-address hash udid d) ∙ e ∙ generate_ipv6-address hash other k),
    to_bits-address (first_eight (hash udid)) (interface_id-digest (hash udid) d).1,
    to_bits-address (first_eight (hash other)) (interface_id-digest (hash other) k).1,
  ),
  λ e.
      generate_ipv6-address hash udid d
      ∙ ap (λ (t : ℕ). some (address t)) e
      ∙ sym (generate_ipv6-address hash other k),
)
