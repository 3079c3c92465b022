-- ===== src/Base/Words.antt =====
-- The widths of the machine integers that the crate uses.
use Prim.Native.Nat.{ℕ, ◌+◌, ◌*◌, ◌/◌, ◌%◌, ◌^◌, ◌<◌}
use mathlib.Core.Path.{◌≡◌}
use mathlib.Core.List.{List, [], ◌∷◌}
use Prim.Native.Char.{code}
use Prim.Native.String.{String}
use native.Mathlib.Omega.{arith}

abbrev pub IsU8 : ℕ → Type 0
IsU8 n = n < 256

abbrev pub IsU16 : ℕ → Type 0
IsU16 n = n < 2 ^ 16

abbrev pub IsU32 : ℕ → Type 0
IsU32 n = n < 2 ^ 32

-- `x as u32` and `x as u16` keep the low bits.
abbrev pub as_u32 : ℕ → ℕ
as_u32 n = n % 2 ^ 32

abbrev pub as_u16 : ℕ → ℕ
as_u16 n = n % 2 ^ 16

abbrev pub Bytes : Type 0
Bytes = List ℕ

-- Four bytes, the most significant one first, as a number.
abbrev pub from_be : ℕ → ℕ → ℕ → ℕ → ℕ
from_be a b c d = ((a * 256 + b) * 256 + c) * 256 + d

pub from_be-IsU32 : (a b c d : ℕ) → IsU8 a → IsU8 b → IsU8 c → IsU8 d → IsU32 (from_be a b c d)
from_be-IsU32 a b c d ha hb hc hd = omega arith

pub from_be-to_be :
    (n : ℕ)
    → IsU32 n
    → from_be (n / 2 ^ 24 % 256) (n / 2 ^ 16 % 256) (n / 2 ^ 8 % 256) (n % 256) ≡ n
from_be-to_be n h = omega arith

-- So for a length that is written as a `u32`, if it fits.
pub from_be-as_u32 :
    (n : ℕ)
    → IsU32 n
    → n
      ≡ from_be
          (as_u32 n / 2 ^ 24 % 256)
          (as_u32 n / 2 ^ 16 % 256)
          (as_u32 n / 2 ^ 8 % 256)
          (as_u32 n % 256)
from_be-as_u32 n h = omega arith

-- The bytes of an ASCII text.
abbrev pub codes : String → List ℕ
codes String.[] = []
codes (String.◌∷◌ c s) = code c ∷ codes s
