-- ===== src/Version/Tests.antt =====
-- `version` on concrete texts.
use jit_streamer_eb.Prelude.{ℕ, ◌≤◌, ◌≡◌, ◌↔◌, refl, true, false, List, [], ◌∷◌, arith}
use jit_streamer_eb.Version.{version, split, parse_uint}
use jit_streamer_eb.Version.Dotted.{dotted, version-dotted}

-- "0.2"
abbrev short : List ℕ
short = b'0' ∷ b'.' ∷ b'2' ∷ []

short_accepted : (version short).ok ≡ true
unfolding version split parse_uint
short_accepted = refl

-- "1.0.0"
newer_refused : (version (dotted 1 0 0)).ok ≡ false
unfolding version split parse_uint
newer_refused = refl

-- A number that does not fit a `u8` counts as 0.
large_refused : (version (b'0' ∷ b'.' ∷ b'2' ∷ b'5' ∷ b'6' ∷ [])).ok ≡ false
unfolding version split parse_uint
large_refused = refl

version-dotted_example : ((version (dotted 1 0 0)).ok ≡ true) ↔ (2 ≤ 0)
version-dotted_example = version-dotted 1 0 0 (omega arith) (omega arith) (omega arith)
