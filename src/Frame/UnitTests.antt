-- ===== src/Frame/UnitTests.antt =====
-- The unit tests of src/frame.rs: what each of them asserts, as a statement on the model.
use lumberjack_protocol.Frame.{
  Frame, window, json, ack, compressed, encode, decode, decode_with_limit, decode_window,
  decode_json, decode_ack, decode_compressed, zlib_compress, default_max_frame_size,
}
use lumberjack_protocol.Frame.Flate.{Zlib, Inverts}
use lumberjack_protocol.Error.{ok, err, invalid_frame, frame_too_large, Result}
use lumberjack_protocol.Base.{
  ℕ, zero, suc, List, [], ◌∷◌, ◌++◌, ◌≡◌, refl, some, none, Bytes, codes, length, take, All, ◌+◌,
  ◌≤◌, append-nil, ap, Option, arith, ◌<◌, String, subst,
}
use lumberjack_protocol.Frame.Wire.{Wire, Within}
use lumberjack_protocol.Frame.Inflate.{chunk_size, zlib_decompress_corrupt}
use lumberjack_protocol.Frame.Flate.{corrupt}
use lumberjack_protocol.Error.{compression}
use lumberjack_protocol.Frame.RoundTrip.{decode-encode, decode_prefix, encode-Wire, encode-Within}

abbrev WindowRoundTrip : Zlib → Type 0
WindowRoundTrip z =
    (encode z (window 42) [] ≡ b'2' ∷ b'W' ∷ 0 ∷ 0 ∷ 0 ∷ 42 ∷ [])
    × (decode z (encode z (window 42) []) ≡ (ok (some (window 42)), []))

window_round_trip : (z : Zlib) → WindowRoundTrip z
unfolding encode decode_with_limit decode_window
window_round_trip z = (refl, refl)

abbrev WindowPartialReturnsNone : Zlib → Type 0
WindowPartialReturnsNone z =
    decode z (b'2' ∷ b'W' ∷ 0 ∷ 0 ∷ []) ≡ (ok none, b'2' ∷ b'W' ∷ 0 ∷ 0 ∷ [])

window_partial_returns_none : (z : Zlib) → WindowPartialReturnsNone z
unfolding decode_with_limit decode_window
window_partial_returns_none z = refl

abbrev InvalidVersionErrors : Zlib → Type 0
InvalidVersionErrors z =
    (decode z (b'1' ∷ b'W' ∷ 0 ∷ 0 ∷ 0 ∷ 1 ∷ [])).0
    ≡ err (invalid_frame "unsupported protocol version")

invalid_version_errors : (z : Zlib) → InvalidVersionErrors z
unfolding decode_with_limit
invalid_version_errors z = refl

abbrev UnknownTypeErrors : Zlib → Type 0
UnknownTypeErrors z = (decode z (b'2' ∷ b'X' ∷ [])).0 ≡ err (invalid_frame "unknown frame type")

unknown_type_errors : (z : Zlib) → UnknownTypeErrors z
unfolding decode_with_limit
unknown_type_errors z = refl

abbrev payload : Bytes
payload = codes "{\"hello\":\"world\"}"

abbrev JsonRoundTrip : Zlib → Type 0
JsonRoundTrip z =
    (take 2 (encode z (json 7 payload) []) ≡ b'2' ∷ b'J' ∷ [])
    × (length (encode z (json 7 payload) []) ≡ 2 + 4 + 4 + length payload)
    × (decode z (encode z (json 7 payload) []) ≡ (ok (some (json 7 payload)), []))

json_round_trip : (z : Zlib) → JsonRoundTrip z
unfolding encode decode_with_limit decode_json
json_round_trip z = (refl, refl, refl)

-- The lengths that `for take in 0..full.len()` goes through.
abbrev up_to : ℕ → List ℕ
up_to zero = []
up_to (suc n) = up_to n ++ n ∷ []

abbrev JsonPartialReturnsNone : Zlib → Type 0
JsonPartialReturnsNone z =
    let full = encode z (json 1 (codes "abc")) [] in
    All (λ n. decode z (take n full) ≡ (ok none, take n full)) (up_to (length full))

json_partial_returns_none : (z : Zlib) → JsonPartialReturnsNone z
unfolding encode decode_with_limit decode_json
json_partial_returns_none z = (
  refl,
  (
    refl,
    (refl, (refl, (refl, (refl, (refl, (refl, (refl, (refl, (refl, (refl, (refl, tt))))))))))),
  ),
)

abbrev JsonOversizeErrors : Zlib → Type 0
JsonOversizeErrors z =
    (decode_with_limit z 5
      (b'2' ∷ b'J' ∷ 0 ∷ 0 ∷ 0 ∷ 0 ∷ 0 ∷ 0 ∷ 0 ∷ 10 ∷ 0 ∷ 0 ∷ 0 ∷ 0 ∷ 0 ∷ 0 ∷ 0 ∷ 0 ∷ 0 ∷ 0 ∷ [])).0
    ≡ err (frame_too_large 10 5)

json_oversize_errors : (z : Zlib) → JsonOversizeErrors z
unfolding decode_with_limit decode_json
json_oversize_errors z = refl

abbrev AckRoundTrip : Zlib → Type 0
AckRoundTrip z =
    (encode z (ack 99) [] ≡ b'2' ∷ b'A' ∷ 0 ∷ 0 ∷ 0 ∷ 99 ∷ [])
    × (decode z (encode z (ack 99) []) ≡ (ok (some (ack 99)), []))

ack_round_trip : (z : Zlib) → AckRoundTrip z
unfolding encode decode_with_limit decode_ack
ack_round_trip z = (refl, refl)

abbrev AckZeroRoundTrip : Zlib → Type 0
AckZeroRoundTrip z = (decode z (encode z (ack 0) [])).0 ≡ ok (some (ack 0))

ack_zero_round_trip : (z : Zlib) → AckZeroRoundTrip z
unfolding encode decode_with_limit decode_ack
ack_zero_round_trip z = refl

abbrev AckPartialReturnsNone : Zlib → Type 0
AckPartialReturnsNone z = (decode z (b'2' ∷ b'A' ∷ 0 ∷ 0 ∷ [])).0 ≡ ok none

ack_partial_returns_none : (z : Zlib) → AckPartialReturnsNone z
unfolding decode_with_limit decode_ack
ack_partial_returns_none z = refl

abbrev two_frames : Zlib → Bytes
two_frames z = encode z (json 2 (codes "{\"b\":2}")) (encode z (json 1 (codes "{\"a\":1}")) [])

abbrev CompressedRoundTrip : Zlib → Type 0
CompressedRoundTrip z =
    (decode z (encode z (compressed (two_frames z)) [])).0 ≡ ok (some (compressed (two_frames z)))

-- With any flate2 that decompresses what it compressed, and does not make it too long.
compressed_round_trip :
    (z : Zlib)
    → Inverts z chunk_size
    → length (zlib_compress z (two_frames z)) ≤ default_max_frame_size
    → CompressedRoundTrip z
compressed_round_trip z inverts short = rw append-nil at (
    ap (λ (r : Result (Option Frame) × Bytes). r.0)
      (decode-encode z inverts default_max_frame_size (compressed (two_frames z)) [] (omega arith)
        (unfold encode in omega arith, short)))

abbrev CompressedCorruptedPayloadErrors : Zlib → Type 0
CompressedCorruptedPayloadErrors z =
    (m : String) × ((decode z (b'2' ∷ b'C' ∷ 0 ∷ 0 ∷ 0 ∷ 4 ∷ 255 ∷ 255 ∷ 255 ∷ 255 ∷ [])).0
      ≡ err (compression m))

-- With a flate2 that refuses these bytes.
compressed_corrupted_payload_errors :
    (z : Zlib) (m : String)
    → z.read (z.open_decoder (255 ∷ 255 ∷ 255 ∷ 255 ∷ [])) chunk_size ≡ corrupt m
    → CompressedCorruptedPayloadErrors z
unfolding decode_with_limit decode_compressed
compressed_corrupted_payload_errors z m refuses = (
  m,
  rw (zlib_decompress_corrupt z (255 ∷ 255 ∷ 255 ∷ 255 ∷ []) default_max_frame_size m refuses) refl,
)

abbrev CompressedPartialReturnsNone : Zlib → Type 0
CompressedPartialReturnsNone z =
    let full = encode z (compressed (codes "hello world hello world hello world hello world")) [] in
    (n : ℕ) → n < length full → decode z (take n full) ≡ (ok none, take n full)

parted :
    (n : ℕ) (xs : Bytes) → n < length xs → (x : ℕ) × (back : Bytes) × (xs ≡ take n xs ++ x ∷ back)
parted n [] h = absurd (omega arith)
parted zero (x ∷ xs) h = (x, xs, refl)
parted (suc n) (x ∷ xs) h = let (y, back, e) = parted n xs (omega arith) in (y, back, ap (◌∷◌ x) e)

-- With any flate2 that decompresses what it compressed, and does not make it too long.
compressed_partial_returns_none :
    (z : Zlib)
    → Inverts z chunk_size
    → length (zlib_compress z (codes "hello world hello world hello world hello world"))
      ≤ default_max_frame_size
    → CompressedPartialReturnsNone z
compressed_partial_returns_none z inverts short n h =
    let text = codes "hello world hello world hello world hello world" in
    let full = encode z (compressed text) [] in
    let (x, back, e) = parted n full h in
    decode_prefix z default_max_frame_size {f = compressed text} (take n full) back x
      (subst (Wire z (compressed text)) e (encode-Wire z inverts (compressed text) (omega arith)))
      (subst (Within default_max_frame_size (compressed text)) e
        (encode-Within z default_max_frame_size (compressed text) (omega arith, short)))
