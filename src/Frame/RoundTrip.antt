-- ===== src/Frame/RoundTrip.antt =====
-- src/frame.rs: `encode` writes the wire format, and `decode_with_limit` reads it back.
use lumberjack_protocol.Frame.Wire.{
  Wire, Within, decode-Wire, window_bytes, ack_bytes, json_bytes, compressed_bytes,
}
use lumberjack_protocol.Frame.Flate.{Zlib, Inverts}
use lumberjack_protocol.Frame.Inflate.{zlib_compress, chunk_size}
use lumberjack_protocol.Frame.{
  encode, ℕ, Frame, Bytes, window, [], ack, decode_with_limit, ◌≡◌, ◌++◌, json, compressed,
}
use lumberjack_protocol.Base.{
  ◌∷◌, append_assoc, IsU32, subst, none, some, from_be-to_be, length, arith, ◌≤◌, inl, Option, ◌⊎◌,
  inr, append-nil, ◌≢◌, refl, ap, sym, ◌∙◌, length-append, from_be-as_u32,
}
use lumberjack_protocol.Error.{ok, Result, err, panics, hangs}
use lumberjack_protocol.Frame.Incremental.{decode_none, decode-append}

-- `encode` only appends.
pub encode-append : (z : Zlib) (f : Frame) (dst : Bytes) → encode z f dst ≡ dst ++ encode z f []
unfolding encode
encode-append z (window n) dst = simp append_assoc
encode-append z (json seq payload) dst = simp append_assoc
encode-append z (ack seq) dst = simp append_assoc
encode-append z (compressed inner) dst = simp append_assoc

-- The numbers fit their 32 bits, and the lengths that are written as 32 bits do too.
abbrev pub IsEncodable : Zlib → Frame → Type 0
IsEncodable z (window n) = IsU32 n
IsEncodable z (ack seq) = IsU32 seq
IsEncodable z (json seq payload) = IsU32 seq × IsU32 (length payload)
IsEncodable z (compressed inner) = IsU32 (length (zlib_compress z inner))

-- What a receiver with this limit takes.
abbrev pub Fits : Zlib → ℕ → Frame → Type 0
Fits z max (window n) = Unit
Fits z max (ack seq) = Unit
Fits z max (json seq payload) = length payload ≤ max
Fits z max (compressed inner) = (length inner ≤ max) × (length (zlib_compress z inner) ≤ max)

-- A `J` frame needs nothing of flate2.
pub json-Wire :
    (z : Zlib) (seq : ℕ) (payload : Bytes)
    → IsEncodable z (json seq payload)
    → Wire z (json seq payload) (encode z (json seq payload) [])
unfolding encode
json-Wire z seq payload (h, short_payload) =
    subst (λ k. Wire z (json k payload) (encode z (json seq payload) [])) (from_be-to_be seq h)
      (json_bytes _ _ _ _ _ _ _ _ payload (from_be-as_u32 (length payload) short_payload))

pub encode-Within : (z : Zlib) (max : ℕ) (f : Frame) → Fits z max f → Within max f (encode z f [])
unfolding encode
encode-Within z max (window n) h = tt
encode-Within z max (ack n) h = tt
encode-Within z max (json seq payload) h = h
encode-Within z max (compressed inner) (h, k) = (h, omega arith)

module _ (z : Zlib) (inverts : Inverts z chunk_size) where
  -- With any flate2 that decompresses what it compressed: what `encode` writes for a frame whose
  -- numbers and lengths fit 32 bits is that frame in the wire format.
  pub encode-Wire : (f : Frame) → IsEncodable z f → Wire z f (encode z f [])
  unfolding encode
  encode-Wire (window n) h =
      subst (λ k. Wire z (window k) (encode z (window n) [])) (from_be-to_be n h)
        (window_bytes _ _ _ _)
  encode-Wire (ack n) h =
      subst (λ k. Wire z (ack k) (encode z (ack n) [])) (from_be-to_be n h) (ack_bytes _ _ _ _)
  encode-Wire (json seq payload) h = json-Wire z seq payload h
  encode-Wire (compressed inner) h =
      compressed_bytes _ _ _ _ (zlib_compress z inner) inner
        (from_be-as_u32 (length (zlib_compress z inner)) h)
        (unfold zlib_compress in inverts 3 inner)

  -- With any flate2 that decompresses what it compressed: a frame whose numbers and lengths fit 32
  -- bits, and whose payload fits the limit, is decoded from what `encode` wrote, whatever follows
  -- it, and what follows stays in the buffer.
  pub decode-encode :
      (max : ℕ) (f : Frame) (rest : Bytes)
      → IsEncodable z f
      → Fits z max f
      → decode_with_limit z max (encode z f [] ++ rest) ≡ (ok (some f), rest)
  decode-encode max f rest h k = decode-Wire z max rest (encode-Wire f h) (encode-Within z max f k)

none-cases : (r : Result (Option Frame)) → (r ≡ ok none) ⊎ (r ≢ ok none)
none-cases (ok none) = inl refl
none-cases (ok (some f)) = inr (λ e. cc)
none-cases (err e) = inr (λ k. cc)
none-cases panics = inr (λ k. cc)
none-cases hangs = inr (λ k. cc)

-- On a proper prefix of a frame of the wire format, within the limit, the decoder asks for more and
-- leaves the buffer as it is.
pub decode_prefix :
    (z : Zlib) (max : ℕ) {f : Frame} (front back : Bytes) (x : ℕ)
    → Wire z f (front ++ x ∷ back)
    → Within max f (front ++ x ∷ back)
    → decode_with_limit z max front ≡ (ok none, front)
decode_prefix z max {f} front back x w within =
    elim (none-cases (decode_with_limit z max front).0) [
      | inl e ↦ decode_none z max front e
      | inr more ↦
          let whole : decode_with_limit z max (front ++ x ∷ back) ≡ (ok (some f), []) =
            rw append-nil at (decode-Wire z max [] w within) in
          let longer = decode-append z max front (x ∷ back) more in
          absurd (
            omega (
              arith,
              ap (λ (p : Result (Option Frame) × Bytes). length p.1) (sym longer ∙ whole),
              length-append (decode_with_limit z max front).1 (x ∷ back),
            ))
    ]
