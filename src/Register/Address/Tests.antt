-- ===== src/Register/Address/Tests.antt =====
-- Addresses from concrete hashes.
use jit_streamer_eb.Prelude.{
  ℕ, ◌+◌, ◌*◌, ◌^◌, ◌<◌, ◌≡◌, ◌↔◌, refl, some, List, [], ◌∷◌, All, replicate, arith,
}
use jit_streamer_eb.Net.{Ipv6, v6, to_string, segments}
use jit_streamer_eb.Register.Address.{generate_ipv6_from_udid, address}
use jit_streamer_eb.Register.Address.Bits.{
  to_bits, first_eight, generate_ipv6-bits, generate_ipv6-eq_iff,
}

-- A hash that begins with the bytes of `fd00::b36d:f867:9391:fb0a`, the address in a comment of the
-- source.
abbrev known : List ℕ → List ℕ
known udid = 0xb3 ∷ 0x6d ∷ 0xf8 ∷ 0x67 ∷ 0x93 ∷ 0x91 ∷ 0xfb ∷ 0x0a ∷ replicate 24 7

known_shown : to_string (v6 (address 0xb36df8679391fb0a)) ≡ "fd00::b36d:f867:9391:fb0a"
unfolding to_string address
known_shown = refl

generate_ipv6-bits_example :
    (a : Ipv6) × (generate_ipv6_from_udid known [] ≡ some a)
    × (to_bits a ≡ 0xfd00 * 2 ^ 112 + first_eight (known []))
    × (first_eight (known []) < 2 ^ 64)
    × All (λ s. s < 65536) (segments a)
generate_ipv6-bits_example = generate_ipv6-bits known [] (omega arith)

generate_ipv6-eq_iff_example :
    (generate_ipv6_from_udid known [] ≡ generate_ipv6_from_udid known (1 ∷ []))
    ↔ (first_eight (known []) ≡ first_eight (known (1 ∷ [])))
generate_ipv6-eq_iff_example = generate_ipv6-eq_iff known [] (1 ∷ []) (omega arith) (omega arith)
