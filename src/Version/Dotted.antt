-- ===== src/Version/Dotted.antt =====
-- `version` on texts of three numbers.
use jit_streamer_eb.Prelude.{
  ℕ, ◌+◌, ◌/◌, ◌%◌, ◌<◌, ◌≤◌, ◌≡◌, refl, ◌↔◌, true, some, List, [], ◌∷◌, ◌++◌, map, ltb,
  if◌then◌else◌, get_elem?, arith, All, ◌≢◌,
}
use jit_streamer_eb.Version.{split, parse_uint, parse_u8, unwrap_or, version}

-- The decimal digits of a number below 1000, with no zero in front.
abbrev pub decimal : ℕ → List ℕ
decimal n =
    if ltb n 10
    then (b'0' + n) ∷ []
    else if ltb n 100
    then (b'0' + n / 10) ∷ (b'0' + n % 10) ∷ []
    else (b'0' + n / 100) ∷ (b'0' + n / 10 % 10) ∷ (b'0' + n % 10) ∷ []

abbrev pub dotted : ℕ → ℕ → ℕ → List ℕ
dotted a b c = decimal a ++ (b'.' ∷ (decimal b ++ (b'.' ∷ decimal c)))

-- The number that `version` reads in the i-th piece of a text, 0 where there is none.
abbrev pub component : ℕ → List ℕ → ℕ
component i text = unwrap_or (get_elem? (map (λ v. unwrap_or (parse_u8 v) 0) (split text)) i) 0

-- Against the server's version 0.2.0 the answer depends on the second number alone: a client is
-- accepted exactly if that number is at least 2.
version_iff : (text : List ℕ) → ((version text).ok ≡ true) ↔ (2 ≤ component 1 text)
unfolding version
version_iff text = ground arith

parse_u8-decimal : (n : ℕ) → n < 256 → parse_u8 (decimal n) ≡ some n
unfolding parse_uint
parse_u8-decimal n h = ground arith

split-piece :
    (piece rest : List ℕ)
    → All (λ c. c ≢ b'.') piece
    → split (piece ++ (b'.' ∷ rest)) ≡ piece ∷ split rest
unfolding split
split-piece [] rest h = refl
split-piece (c ∷ piece) rest (no_dot, h) = ground (arith, split-piece piece rest h)

decimal_no_dot : (n : ℕ) → n < 256 → All (λ c. c ≢ b'.') (decimal n)
decimal_no_dot n h = ground arith

split-last : (piece : List ℕ) → All (λ c. c ≢ b'.') piece → split piece ≡ piece ∷ []
unfolding split
split-last [] h = refl
split-last (c ∷ piece) (no_dot, h) = ground (arith, split-last piece h)

component-dotted : (a b c : ℕ) → a < 256 → b < 256 → c < 256 → component 1 (dotted a b c) ≡ b
component-dotted a b c ha hb hc = rw (
  split-piece (decimal a) (decimal b ++ (b'.' ∷ decimal c)) (decimal_no_dot a ha),
  split-piece (decimal b) (decimal c) (decimal_no_dot b hb),
  parse_u8-decimal b hb,
)

-- A client that sends three numbers, each a `u8`, is accepted exactly if the second is at least 2,
-- whatever the first is: version 1.0.0 is refused as older than 0.2.0.
pub version-dotted :
    (a b c : ℕ) → a < 256 → b < 256 → c < 256 → ((version (dotted a b c)).ok ≡ true) ↔ (2 ≤ b)
version-dotted a b c ha hb hc = rw (component-dotted a b c ha hb hc) at (version_iff (dotted a b c))
