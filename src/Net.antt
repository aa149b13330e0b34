-- ===== src/Net.antt =====
-- `IpAddr` of the standard library, its `Display` and `to_ipv6_mapped`, as far as the program uses
-- them.
pub mod Hex
use jit_streamer_eb.Prelude.{
  ℕ, zero, suc, ◌+◌, ◌*◌, ◌/◌, ◌%◌, ◌-◌, Bool, true, false, ◌&&◌, String, List, [], ◌∷◌, ltb, ◌==◌,
  if◌then◌else◌, ◌≡◌, refl, take, drop, length,
}
use Prim.Native.String.{◌++◌}
use mathlib.Core.List.{zip}

-- Eight segments of 16 bits.
pub record Ipv6 : Type 0 where
  pub s0 : ℕ
  pub s1 : ℕ
  pub s2 : ℕ
  pub s3 : ℕ
  pub s4 : ℕ
  pub s5 : ℕ
  pub s6 : ℕ
  pub s7 : ℕ

pub data IpAddr : Type 0 where
  v4 : ℕ → ℕ → ℕ → ℕ → IpAddr
  v6 : Ipv6 → IpAddr

abbrev pub segments : Ipv6 → List ℕ
segments a = a.s0 ∷ a.s1 ∷ a.s2 ∷ a.s3 ∷ a.s4 ∷ a.s5 ∷ a.s6 ∷ a.s7 ∷ []

-- `v4.to_ipv6_mapped()`
abbrev pub to_ipv6_mapped : ℕ → ℕ → ℕ → ℕ → Ipv6
to_ipv6_mapped a b c d = record {
  s0 = 0;
  s1 = 0;
  s2 = 0;
  s3 = 0;
  s4 = 0;
  s5 = 0xffff;
  s6 = a * 256 + b;
  s7 = c * 256 + d;
}

abbrev digit : ℕ → List String → String
digit n [] = ""
digit zero (d ∷ ds) = d
digit (suc n) (d ∷ ds) = digit n ds

abbrev lower_digits : List String
lower_digits =
    "0" ∷ "1" ∷ "2" ∷ "3" ∷ "4" ∷ "5" ∷ "6" ∷ "7" ∷ "8" ∷ "9" ∷ "a" ∷ "b" ∷ "c" ∷ "d" ∷ "e" ∷ "f"
    ∷ []

-- The digits of `n` in a base, at most `fuel` of them, with no zero in front.
show_base : ℕ → ℕ → ℕ → String
show_base zero base n = ""
show_base (suc fuel) base n =
    let front = show_base fuel base (n / base) in
    if ltb n base then digit n lower_digits else front ++ digit (n % base) lower_digits

-- `{}` of a `u8`, and `{:x}` of a `u16`.
unfoldable pub show_u8 : ℕ → String
unfolding show_base
show_u8 n = show_base 3 10 n

unfoldable pub show_hex : ℕ → String
unfolding show_base
show_hex n = show_base 4 16 n

show_ipv4 : ℕ → ℕ → ℕ → ℕ → String
unfolding show_u8
show_ipv4 a b c d = show_u8 a ++ ("." ++ (show_u8 b ++ ("." ++ (show_u8 c ++ ("." ++ show_u8 d)))))

-- Segments joined by colons.
join : List ℕ → String
unfolding show_hex
join [] = ""
join (x ∷ []) = show_hex x
join (x ∷ y ∷ l) = show_hex x ++ (":" ++ join (y ∷ l))

pub record Span : Type 0 where
  pub start : ℕ
  pub len : ℕ

-- The first of the longest runs of zero segments: the loop of `Display for Ipv6Addr`.
zeroes : ℕ → List ℕ → Span → Span → Span
zeroes i [] longest current = longest
zeroes i (x ∷ l) longest current =
    let grown : Span = record {
      start = if current.len == 0 then i else current.start;
      len = current.len + 1;
    } in
    zeroes (i + 1) l
      (if x == 0 then (if ltb longest.len grown.len then grown else longest) else longest)
      (if x == 0 then grown else record { start = 0; len = 0 })

is_v4_mapped : Ipv6 → Bool
is_v4_mapped a = a.s0 == 0 && a.s1 == 0 && a.s2 == 0 && a.s3 == 0 && a.s4 == 0 && a.s5 == 0xffff

show_ipv6 : Ipv6 → String
unfolding show_ipv4 join zeroes is_v4_mapped
show_ipv6 a =
    let span : Span =
      zeroes 0 (segments a) (record { start = 0; len = 0 }) (record { start = 0; len = 0 }) in
    if is_v4_mapped a
    then "::ffff:" ++ show_ipv4 (a.s6 / 256) (a.s6 % 256) (a.s7 / 256) (a.s7 % 256)
    else if ltb 1 span.len
    then join (take span.start (segments a))
      ++ ("::" ++ join (drop (span.start + span.len) (segments a)))
    else join (segments a)

-- `ip.to_string()`
unfoldable pub to_string : IpAddr → String
unfolding show_ipv4 show_ipv6
to_string (v4 a b c d) = show_ipv4 a b c d
to_string (v6 a) = show_ipv6 a

shows_v4 : to_string (v4 10 7 0 255) ≡ "10.7.0.255"
unfolding to_string
shows_v4 = refl

shows_mapped : to_string (v6 (to_ipv6_mapped 192 168 1 20)) ≡ "::ffff:192.168.1.20"
unfolding to_string
shows_mapped = refl

shows_v6 :
    to_string (
      v6 (record {
        s0 = 0xfd00;
        s1 = 0;
        s2 = 0;
        s3 = 0;
        s4 = 0xb36d;
        s5 = 0xf867;
        s6 = 0x9391;
        s7 = 0xfb0a;
      }))
    ≡ "fd00::b36d:f867:9391:fb0a"
unfolding to_string
shows_v6 = refl
