-- ===== src/Frame/Inflate.antt =====
-- src/frame.rs: `zlib_compress` and the bounded loop of `zlib_decompress`.
use lumberjack_protocol.Base.{
  ℕ, zero, suc, ◌+◌, ◌≤◌, ◌<◌, ◌≡◌, sym, ap, ◌∙◌, [], ◌∷◌, ◌++◌, append_assoc, Bytes, length,
  length-append, ltb, ◌==◌, if◌then◌else◌, arith, ◌⊎◌, inl, inr, append-nil, String, lt_or_le,
  subst,
}
use lumberjack_protocol.Error.{compression, frame_too_large, Result, ok, err, panics, hangs}
use lumberjack_protocol.Frame.Flate.{Zlib, filled, corrupt, Yields, end, more, read-cases}

-- `Compression::new(3)`: the level of `ClientBuilder` does not come here.
unfoldable pub zlib_compress : Zlib → Bytes → Bytes
zlib_compress z input = z.compress 3 input

-- `[0u8; 8192]`
abbrev pub chunk_size : ℕ
chunk_size = 8192

-- The `loop`, on fuel.
inflate_loop : (z : Zlib) → ℕ → z.Decoder → Bytes → ℕ → Result Bytes
inflate_loop z zero dec out max = hangs
inflate_loop z (suc fuel) dec out max = elim (z.read dec chunk_size) [
  | corrupt message ↦ err (compression message)
  | filled bytes dec' ↦
      let total = length out + length bytes in
      let rest = inflate_loop z fuel dec' (out ++ bytes) max in
      if length bytes == 0
      then ok out
      else if ltb max total
      then err (frame_too_large total max)
      else rest
]

-- Each round but the last adds a byte to at most `max`, so `max + 1` rounds are enough.
pub zlib_decompress : Zlib → Bytes → ℕ → Result Bytes
unfolding inflate_loop
zlib_decompress z input max = inflate_loop z (suc max) (z.open_decoder input) [] max

-- One round, by what the reader gives.
module _ (z : Zlib) (fuel : ℕ) {dec : z.Decoder} (out : Bytes) (max : ℕ) where
  round_corrupt :
      (m : String)
      → z.read dec chunk_size ≡ corrupt m
      → inflate_loop z (suc fuel) dec out max ≡ err (compression m)
  unfolding inflate_loop
  round_corrupt m e = rw (e, inflate_loop)

  round_end :
      {dec' : z.Decoder}
      → z.read dec chunk_size ≡ filled [] dec'
      → inflate_loop z (suc fuel) dec out max ≡ ok out
  unfolding inflate_loop
  round_end e = rw (e, inflate_loop)

  round_large :
      {dec' : z.Decoder} (b : ℕ) (bs : Bytes)
      → z.read dec chunk_size ≡ filled (b ∷ bs) dec'
      → max < length out + length (b ∷ bs)
      → inflate_loop z (suc fuel) dec out max
        ≡ err (frame_too_large (length out + length (b ∷ bs)) max)
  unfolding inflate_loop
  round_large b bs e h = rw (e, inflate_loop) (ground arith)

  round_more :
      {dec' : z.Decoder} (b : ℕ) (bs : Bytes)
      → z.read dec chunk_size ≡ filled (b ∷ bs) dec'
      → length out + length (b ∷ bs) ≤ max
      → inflate_loop z (suc fuel) dec out max ≡ inflate_loop z fuel dec' (out ++ b ∷ bs) max
  unfolding inflate_loop
  round_more b bs e h = rw (e, inflate_loop) (ground arith)

-- Whatever the reader does, the loop ends within its fuel, and never with more than `max` bytes.
abbrev pub Bounded : ℕ → Result Bytes → Type 0
Bounded max (ok bytes) = length bytes ≤ max
Bounded max (err e) = Unit
Bounded max panics = ⊥
Bounded max hangs = ⊥

inflate_loop-Bounded :
    (z : Zlib) (fuel : ℕ) (dec : z.Decoder) (out : Bytes) (max : ℕ)
    → length out ≤ max
    → max < fuel + length out
    → Bounded max (inflate_loop z fuel dec out max)
inflate_loop-Bounded z zero dec out max small enough = absurd (omega arith)
inflate_loop-Bounded z (suc fuel) dec out max small enough = elim (read-cases z dec chunk_size) [
  | inl (m, e) ↦ rw (round_corrupt z fuel out max m e) tt
  | inr ([], dec', e) ↦ rw (round_end z fuel out max e) small
  | inr (b ∷ bs, dec', e) ↦ elim (lt_or_le max (length out + length (b ∷ bs))) [
    | inl big ↦ rw (round_large z fuel out max b bs e big) tt
    | inr fits ↦ rw (round_more z fuel out max b bs e fits) (
        inflate_loop-Bounded z fuel dec' (out ++ b ∷ bs) max
          (omega (arith, length-append out (b ∷ bs))) (omega (arith, length-append out (b ∷ bs))))
  ]
]

-- Whatever the decoder of flate2 does, the loop of `zlib_decompress` comes to an end and never
-- returns more bytes than the limit.
pub zlib_decompress-Bounded :
    (z : Zlib) (input : Bytes) (max : ℕ) → Bounded max (zlib_decompress z input max)
unfolding zlib_decompress
zlib_decompress-Bounded z input max =
    inflate_loop-Bounded z (suc max) (z.open_decoder input) [] max (omega arith) (omega arith)

inflate_loop-Yields :
    (z : Zlib) (fuel : ℕ) {dec : z.Decoder} {xs : Bytes} (out : Bytes) (max : ℕ)
    → Yields z chunk_size dec xs
    → length out + length xs ≤ max
    → max < fuel + length out
    → inflate_loop z fuel dec out max ≡ ok (out ++ xs)
inflate_loop-Yields z zero out max y fits enough = absurd (omega arith)
inflate_loop-Yields z (suc fuel) out max (end e) fits enough =
    round_end z fuel out max e ∙ rw (append-nil out)
inflate_loop-Yields z (suc fuel) out max (more b bs rest e y) fits enough =
    round_more z fuel out max b bs e (omega (arith, length-append (b ∷ bs) rest))
    ∙ inflate_loop-Yields z fuel (out ++ b ∷ bs) max y
        (omega (arith, length-append (b ∷ bs) rest, length-append out (b ∷ bs)))
        (omega (arith, length-append out (b ∷ bs)))
    ∙ ap ok (append_assoc out (b ∷ bs) rest)

inflate_loop_large :
    (z : Zlib) (fuel : ℕ) {dec : z.Decoder} {xs : Bytes} (out : Bytes) (max : ℕ)
    → Yields z chunk_size dec xs
    → length out ≤ max
    → max < length out + length xs
    → max < fuel + length out
    → (size : ℕ) × (max < size) × (inflate_loop z fuel dec out max ≡ err (frame_too_large size max))
inflate_loop_large z zero out max y small large enough = absurd (omega arith)
inflate_loop_large z (suc fuel) out max (end e) small large enough = absurd (omega arith)
inflate_loop_large z (suc fuel) out max (more b bs rest e y) small large enough =
    elim (lt_or_le max (length out + length (b ∷ bs))) [
      | inl big ↦ (length out + length (b ∷ bs), big, round_large z fuel out max b bs e big)
      | inr fits ↦
          let (size, over, same) =
            inflate_loop_large z fuel (out ++ b ∷ bs) max y
              (omega (arith, length-append out (b ∷ bs)))
              (omega (arith, length-append (b ∷ bs) rest, length-append out (b ∷ bs)))
              (omega (arith, length-append out (b ∷ bs))) in
          (size, over, round_more z fuel out max b bs e fits ∙ same)
    ]

-- If the decoder of flate2 yields the bytes `xs` and then ends, then `zlib_decompress` returns `xs`
-- where they are within the limit, and where they are not it fails with a size that is over the
-- limit.
pub zlib_decompress-Yields :
    (z : Zlib) (input : Bytes) (max : ℕ) {xs : Bytes}
    → Yields z chunk_size (z.open_decoder input) xs
    → ((length xs ≤ max) × (zlib_decompress z input max ≡ ok xs))
      ⊎ ((max < length xs)
          × ((size : ℕ) × (max < size)
              × (zlib_decompress z input max ≡ err (frame_too_large size max))))
unfolding zlib_decompress
zlib_decompress-Yields z input max {xs} y = elim (lt_or_le max (length xs)) [
  | inl big ↦
      inr (big, inflate_loop_large z (suc max) [] max y (omega arith) (omega arith) (omega arith))
  | inr fits ↦ inl (fits, inflate_loop-Yields z (suc max) [] max y (omega arith) (omega arith))
]

inflate_loop-ok :
    (z : Zlib) (fuel : ℕ) (dec : z.Decoder) (out : Bytes) (max : ℕ) {ys : Bytes}
    → inflate_loop z fuel dec out max ≡ ok ys
    → (xs : Bytes) × Yields z chunk_size dec xs × (ys ≡ out ++ xs)
inflate_loop-ok z zero dec out max h = unfold inflate_loop in cc
inflate_loop-ok z (suc fuel) dec out max {ys} h = elim (read-cases z dec chunk_size) [
  | inl (m, e) ↦ cc (round_corrupt z fuel out max m e)
  | inr ([], dec', e) ↦ ([], end e, cc (round_end z fuel out max e, append-nil out))
  | inr (b ∷ bs, dec', e) ↦ elim (lt_or_le max (length out + length (b ∷ bs))) [
    | inl big ↦ cc (round_large z fuel out max b bs e big)
    | inr fits ↦
        let (xs, y, same) =
          inflate_loop-ok z fuel dec' (out ++ b ∷ bs) max
            (sym (round_more z fuel out max b bs e fits) ∙ h) in
        ((b ∷ bs) ++ xs, more b bs xs e y, same ∙ append_assoc out (b ∷ bs) xs)
  ]
]

-- What is returned is what the reader yields.
pub zlib_decompress-ok :
    (z : Zlib) (input : Bytes) (max : ℕ) {xs : Bytes}
    → zlib_decompress z input max ≡ ok xs
    → Yields z chunk_size (z.open_decoder input) xs
unfolding zlib_decompress
zlib_decompress-ok z input max h =
    let (xs, y, same) = inflate_loop-ok z (suc max) (z.open_decoder input) [] max h in
    subst (Yields z chunk_size (z.open_decoder input)) (sym same) y

pub zlib_decompress_fits :
    (z : Zlib) (input : Bytes) (max : ℕ) {xs : Bytes}
    → Yields z chunk_size (z.open_decoder input) xs
    → length xs ≤ max
    → zlib_decompress z input max ≡ ok xs
unfolding zlib_decompress
zlib_decompress_fits z input max y h =
    inflate_loop-Yields z (suc max) [] max y (omega arith) (omega arith)

pub zlib_decompress_corrupt :
    (z : Zlib) (input : Bytes) (max : ℕ) (m : String)
    → z.read (z.open_decoder input) chunk_size ≡ corrupt m
    → zlib_decompress z input max ≡ err (compression m)
unfolding zlib_decompress
zlib_decompress_corrupt z input max m e = round_corrupt z max [] max m e
