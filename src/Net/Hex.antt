-- ===== src/Net/Hex.antt =====
-- `{:02X}` of the standard library.
use jit_streamer_eb.Prelude.{
  ℕ, zero, suc, ◌/◌, ◌%◌, String, List, [], ◌∷◌, ltb, if◌then◌else◌, ◌≡◌, refl,
}
use Prim.Native.String.{◌++◌}

abbrev pub upper_digits : List String
upper_digits =
    "0" ∷ "1" ∷ "2" ∷ "3" ∷ "4" ∷ "5" ∷ "6" ∷ "7" ∷ "8" ∷ "9" ∷ "A" ∷ "B" ∷ "C" ∷ "D" ∷ "E" ∷ "F"
    ∷ []

-- The digit of a number below 16.
abbrev pub digit : ℕ → List String → String
digit n [] = ""
digit zero (d ∷ ds) = d
digit (suc n) (d ∷ ds) = digit n ds

-- At most `fuel` digits, with no zero in front.
unfoldable pub show_upper : ℕ → ℕ → String
show_upper zero n = ""
show_upper (suc fuel) n =
    let front = show_upper fuel (n / 16) in
    if ltb n 16 then digit n upper_digits else front ++ digit (n % 16) upper_digits

-- `{n:02X}` of a number of at most 64 bits: 16 digits are enough.
unfoldable pub show_02X : ℕ → String
unfolding show_upper
show_02X n = if ltb n 16 then "0" ++ digit n upper_digits else show_upper 16 n

shows_small : show_02X 10 ≡ "0A"
unfolding show_02X
shows_small = refl

shows_large : show_02X 48879 ≡ "BEEF"
unfolding show_02X
shows_large = refl
