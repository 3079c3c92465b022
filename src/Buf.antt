-- ===== src/Buf.antt =====
-- The operations of `bytes::{Buf, BufMut, BytesMut}` and of slices that src/frame.rs uses, on a
-- buffer that is a list of bytes. Each panics where the buffer is too short.
use lumberjack_protocol.Base.{
  ℕ, ◌/◌, ◌%◌, ◌^◌, ◌≤◌, ◌<◌, ◌≡◌, refl, ◌⊎◌, inl, inr, Option, none, some, [], ◌∷◌, ◌++◌, Bytes,
  from_be, length, get_elem?, take, drop, leb, if◌then◌else◌, arith, le→leb, ap,
}
use lumberjack_protocol.Error.{ok, panics, M}

-- `dst.put_u8(b)`, `dst.put_u32(n)`: append, the most significant byte first.
abbrev pub put_u8 : ℕ → Bytes → Bytes
put_u8 b dst = dst ++ b ∷ []

abbrev pub be_bytes : ℕ → Bytes
be_bytes n = (n / 2 ^ 24 % 256) ∷ (n / 2 ^ 16 % 256) ∷ (n / 2 ^ 8 % 256) ∷ (n % 256) ∷ []

abbrev pub put_u32 : ℕ → Bytes → Bytes
put_u32 n dst = dst ++ be_bytes n

abbrev pub extend_from_slice : Bytes → Bytes → Bytes
extend_from_slice more dst = dst ++ more

-- `src[i]`
abbrev pub byte_at : ℕ → M Bytes ℕ
byte_at i src = elim (get_elem? src i) [ none ↦ (panics, src) | some b ↦ (ok b, src) ]

-- `u32::from_be_bytes(s.try_into().unwrap())` for a slice `s`
abbrev pub be_word : Bytes → Option ℕ
be_word (a ∷ b ∷ c ∷ d ∷ []) = some (from_be a b c d)
be_word _ = none

-- ... for the slice `src[i..i + 4]`
abbrev pub word_at : ℕ → M Bytes ℕ
word_at i src = elim (be_word (take 4 (drop i src))) [ none ↦ (panics, src) | some n ↦ (ok n, src) ]

-- `src.get_u32()` takes four bytes off the front.
abbrev pub get_u32 : M Bytes ℕ
get_u32 (a ∷ b ∷ c ∷ d ∷ rest) = (ok (from_be a b c d), rest)
get_u32 src = (panics, src)

-- `src.advance(n)`
abbrev pub advance : ℕ → M Bytes (Unit {0})
advance n src = if leb n (length src) then (ok tt, drop n src) else (panics, src)

-- `src.split_to(n)`
abbrev pub split_to : ℕ → M Bytes Bytes
split_to n src = if leb n (length src) then (ok (take n src), drop n src) else (panics, src)

pub split_to_lem :
    (n : ℕ) (src : Bytes) → n ≤ length src → split_to n src ≡ (ok (take n src), drop n src)
split_to_lem n src h = rw (le→leb _ _ h)

-- A buffer is shorter than four bytes, or begins with a word.
pub word-cases :
    (src : Bytes)
    → (length src < 4) ⊎ ((a b c d : ℕ) × (rest : Bytes) × (src ≡ a ∷ b ∷ c ∷ d ∷ rest))
word-cases [] = inl (omega arith)
word-cases (a ∷ []) = inl (omega arith)
word-cases (a ∷ b ∷ []) = inl (omega arith)
word-cases (a ∷ b ∷ c ∷ []) = inl (omega arith)
word-cases (a ∷ b ∷ c ∷ d ∷ rest) = inr (a, b, c, d, rest, refl)

pub two_words :
    (src : Bytes)
    → 8 ≤ length src
    → (s₀ s₁ s₂ s₃ a b c d : ℕ) × (rest : Bytes) × (src ≡ s₀ ∷ s₁ ∷ s₂ ∷ s₃ ∷ a ∷ b ∷ c ∷ d ∷ rest)
two_words src h = elim (word-cases src) [
  | inl few ↦ absurd (omega arith)
  | inr (s₀, s₁, s₂, s₃, body, e) ↦ elim (word-cases body) [
    | inl few ↦ absurd (omega (arith, ap length e))
    | inr (a, b, c, d, rest, e') ↦ (s₀, s₁, s₂, s₃, a, b, c, d, rest, rw (e, e'))
  ]
]
