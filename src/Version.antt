-- ===== src/Version.antt =====
-- `version` of src/main.rs: whether a client's version is at least the server's. A text is the list
-- of its bytes.
pub mod Dotted
mod Tests
use jit_streamer_eb.Prelude.{
  ℕ, zero, suc, ◌+◌, ◌*◌, ◌-◌, Bool, true, false, ◌&&◌, Option, none, some, List, [], ◌∷◌, map, ltb,
  leb, ◌==◌, if◌then◌else◌, get_elem?,
}

-- `s.split('.')`: always one piece more than there are dots.
abbrev in_front : ℕ → List (List ℕ) → List (List ℕ)
in_front c [] = (c ∷ []) ∷ []
in_front c (piece ∷ pieces) = (c ∷ piece) ∷ pieces

unfoldable pub split : List ℕ → List (List ℕ)
split [] = [] ∷ []
split (c ∷ s) = let rest = split s in if c == b'.' then [] ∷ rest else in_front c rest

-- The digits of an unsigned number, read from the left; none that passes the type's maximum.
unfoldable pub parse_digits : ℕ → ℕ → List ℕ → Option ℕ
parse_digits limit acc [] = some acc
parse_digits limit acc (c ∷ s) =
    let acc' = acc * 10 + (c - b'0') in
    let rest = parse_digits limit acc' s in
    if leb b'0' c && leb c b'9' then (if ltb limit acc' then none else rest) else none

-- `from_str` of an unsigned type: at least one digit, and a plus sign may stand in front.
unfoldable pub parse_uint : ℕ → List ℕ → Option ℕ
unfolding parse_digits
parse_uint limit [] = none
parse_uint limit (c ∷ []) = parse_digits limit 0 (c ∷ [])
parse_uint limit (c ∷ d ∷ s) =
    if c == b'+' then parse_digits limit 0 (d ∷ s) else parse_digits limit 0 (c ∷ d ∷ s)

abbrev pub parse_u8 : List ℕ → Option ℕ
parse_u8 = parse_uint 255

abbrev pub unwrap_or : Option ℕ → ℕ → ℕ
unwrap_or none d = d
unwrap_or (some n) d = n

-- `const VERSION`
abbrev pub server_version : List ℕ
server_version = 0 ∷ 2 ∷ 0 ∷ []

pub record VersionResponse : Type 0 where
  pub ok : Bool

-- `for (i, v) in VERSION.iter().enumerate() { … }`
unfoldable pub compare_from : ℕ → List ℕ → List ℕ → VersionResponse
compare_from i [] version = record { ok = true }
compare_from i (v ∷ vs) version =
    let rest = compare_from (suc i) vs version in
    if ltb (unwrap_or (get_elem? version i) 0) v then record { ok = false } else rest

unfoldable pub version : List ℕ → VersionResponse
unfolding compare_from
version text = compare_from 0 server_version (map (λ v. unwrap_or (parse_u8 v) 0) (split text))
