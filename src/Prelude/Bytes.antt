-- ===== src/Prelude/Bytes.antt =====
-- Bytes as numbers below 256, and `u32::to_le_bytes`, `u32::from_le_bytes` of the standard library.
use Prim.Native.Nat.{ℕ, ◌+◌, ◌*◌, ◌/◌, ◌%◌, ◌^◌, ◌<◌}
use mathlib.Core.Path.{◌≡◌}
use mathlib.Core.List.{List, [], ◌∷◌}
use mathlib.Core.Option.{Option, none, some}
use native.Mathlib.Omega.{arith}

abbrev pub u32 : ℕ → ℕ
u32 n = n % 2 ^ 32

-- `[u8; 4]`
pub record Array4 : Type 0 where
  pub b0 : ℕ
  pub b1 : ℕ
  pub b2 : ℕ
  pub b3 : ℕ

abbrev pub to_le_bytes : ℕ → List ℕ
to_le_bytes n = n % 256 ∷ n / 256 % 256 ∷ n / 65536 % 256 ∷ n / 16777216 % 256 ∷ []

-- `<[u8; 4]>::try_from(slice)`: only a slice of four bytes converts.
abbrev pub to_array4 : List ℕ → Option Array4
to_array4 (a ∷ b ∷ c ∷ d ∷ []) = some (record { b0 = a; b1 = b; b2 = c; b3 = d })
to_array4 _ = none

unfoldable pub from_le_bytes : Array4 → ℕ
from_le_bytes w = w.b0 + w.b1 * 256 + w.b2 * 65536 + w.b3 * 16777216

pub from_le_bytes-to_le_bytes :
    (n : ℕ)
    → n < 2 ^ 32
    → from_le_bytes
        (record { b0 = n % 256; b1 = n / 256 % 256; b2 = n / 65536 % 256; b3 = n / 16777216 % 256 })
      ≡ n
unfolding from_le_bytes
from_le_bytes-to_le_bytes n h = omega arith
