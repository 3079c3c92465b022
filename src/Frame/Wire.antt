-- ===== src/Frame/Wire.antt =====
-- The wire format of Lumberjack v2, as a grammar that does not mention the code of src/frame.rs:
-- which bytes stand for which frame.
use lumberjack_protocol.Base.{
  ℕ, Bytes, ◌≤◌, ◌++◌, length, from_be, ◌∷◌, arith, ◌≡◌, [], some, ◌+◌, ◌∙◌, length-append,
  take-length, drop-length,
}
use lumberjack_protocol.Frame.Flate.{Zlib, Yields}
use lumberjack_protocol.Frame.{decode_body, Frame, decode_with_limit, window, ack, json, compressed}
use lumberjack_protocol.Error.{ok}
use lumberjack_protocol.Frame.Inflate.{chunk_size, zlib_decompress_fits}
use lumberjack_protocol.Frame.Steps.{
  decode_good_version, decode_window_whole, decode_ack_whole, decode_json_whole,
  decode_compressed_whole,
}

-- A length and a payload behind the header stand for the bytes that the payload decompresses to.
pub data Wire (z : Zlib) : Frame → Bytes → Type 0 where
  window_bytes :
      (a b c d : ℕ) → Wire z (window (from_be a b c d)) (b'2' ∷ b'W' ∷ a ∷ b ∷ c ∷ d ∷ [])
  ack_bytes : (a b c d : ℕ) → Wire z (ack (from_be a b c d)) (b'2' ∷ b'A' ∷ a ∷ b ∷ c ∷ d ∷ [])
  json_bytes :
      (s₀ s₁ s₂ s₃ a b c d : ℕ) (payload : Bytes)
      → length payload ≡ from_be a b c d
      → Wire z
          (json (from_be s₀ s₁ s₂ s₃) payload)
          (b'2' ∷ b'J' ∷ s₀ ∷ s₁ ∷ s₂ ∷ s₃ ∷ a ∷ b ∷ c ∷ d ∷ payload)
  compressed_bytes :
      (a b c d : ℕ) (packed inner : Bytes)
      → length packed ≡ from_be a b c d
      → Yields z chunk_size (z.open_decoder packed) inner
      → Wire z (compressed inner) (b'2' ∷ b'C' ∷ a ∷ b ∷ c ∷ d ∷ packed)

-- What a limit admits: the declared length, and the length after decompression.
abbrev pub Within : ℕ → Frame → Bytes → Type 0
Within max (window n) bytes = Unit
Within max (ack n) bytes = Unit
Within max (json seq payload) bytes = length payload ≤ max
Within max (compressed inner) bytes = (length inner ≤ max) × (length bytes ≤ max + 6)

pub Wire-length : {z : Zlib} {f : Frame} {bytes : Bytes} → Wire z f bytes → 6 ≤ length bytes
Wire-length (window_bytes a b c d) = omega arith
Wire-length (ack_bytes a b c d) = omega arith
Wire-length (json_bytes s₀ s₁ s₂ s₃ a b c d payload h) = omega arith
Wire-length (compressed_bytes a b c d packed inner h y) = omega arith

module _ (z : Zlib) (max : ℕ) where
  -- The decoder reads every byte sequence that the wire format gives for a frame, if it is within
  -- the limit, as that frame, and leaves what follows it in the buffer.
  pub decode-Wire :
      {f : Frame} {bytes : Bytes} (rest : Bytes)
      → Wire z f bytes
      → Within max f bytes
      → decode_with_limit z max (bytes ++ rest) ≡ (ok (some f), rest)
  unfolding decode_body
  decode-Wire rest (window_bytes a b c d) _ =
      decode_good_version z max b'W' _ ∙ decode_window_whole z max _ _ a b c d rest
  decode-Wire rest (ack_bytes a b c d) _ =
      decode_good_version z max b'A' _ ∙ decode_ack_whole z max _ _ a b c d rest
  decode-Wire rest (json_bytes s₀ s₁ s₂ s₃ a b c d payload h) within =
      decode_good_version z max b'J' _
      ∙ decode_json_whole z max s₀ s₁ s₂ s₃ a b c d (payload ++ rest) (omega arith)
          (omega (arith, length-append payload rest))
      ∙ rw (← h, take-length, drop-length)
  decode-Wire rest (compressed_bytes a b c d packed inner h y) (fits, near) =
      decode_good_version z max b'C' _
      ∙ decode_compressed_whole z max a b c d (packed ++ rest) (omega arith)
          (omega (arith, length-append packed rest))
      ∙ rw (← h, take-length, drop-length, zlib_decompress_fits z packed max y fits)
