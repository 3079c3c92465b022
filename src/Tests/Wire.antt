-- ===== src/Tests/Wire.antt =====
-- The theorems on src/frame.rs and src/codec.rs at concrete inputs.
use lumberjack_protocol.Tests.Fixtures.{stored, stored-Inverts}
use lumberjack_protocol.Codec.{items-encode_all, encode_all, arrived}
use lumberjack_protocol.Codec
use lumberjack_protocol.Codec.Reader.{reader}
use lumberjack_protocol.Frame.{Frame, window, json, compressed, encode, decode_with_limit}
use lumberjack_protocol.Frame.Wire.{Wire, decode-Wire, window_bytes, json_bytes}
use lumberjack_protocol.Frame.Sound.{Reads, decode-Reads}
use lumberjack_protocol.Frame.Incremental.{decode-append, decode-Returns}
use lumberjack_protocol.Frame.RoundTrip.{decode-encode, encode-Wire, decode_prefix}
use lumberjack_protocol.Frame.Inflate.{
  Bounded, zlib_compress, zlib_decompress, zlib_decompress-Bounded, zlib_decompress-Yields,
}
use lumberjack_protocol.Base.{
  refl, arith, [], ◌++◌, ◌∷◌, ◌≢◌, Bytes, IsU32, length, ◌≤◌, ◌≡◌, ◌⊎◌, some, none, ◌<◌, ℕ, ap,
  Option,
}
use lumberjack_protocol.Error.{Returns, ok, err, frame_too_large, Result}

abbrev two_events : Bytes
two_events = b'{' ∷ b'}' ∷ []

abbrev window_buffer : Bytes
window_buffer = b'2' ∷ b'W' ∷ 0 ∷ 0 ∷ 0 ∷ 3 ∷ []

is_short : IsU32 (length (zlib_compress stored two_events))
unfolding zlib_compress
is_short = omega arith

is_near : length (zlib_compress stored two_events) ≤ 1024
unfolding zlib_compress
is_near = omega arith

decode-encode_example :
    decode_with_limit stored 1024 (encode stored (compressed two_events) [] ++ 9 ∷ [])
    ≡ (ok (some (compressed two_events)), 9 ∷ [])
decode-encode_example =
    decode-encode stored stored-Inverts 1024 (compressed two_events) (9 ∷ []) is_short
      (omega arith, is_near)

decode-Reads_example :
    Reads stored 1024
      (encode stored (compressed two_events) [] ++ 9 ∷ [])
      (compressed two_events)
      (9 ∷ [])
decode-Reads_example = decode-Reads stored 1024 (
    decode-encode stored stored-Inverts 1024 (compressed two_events) (9 ∷ []) is_short
      (omega arith, is_near))

decode-Wire_example :
    decode_with_limit stored 1024
      ((b'2' ∷ b'J' ∷ 0 ∷ 0 ∷ 0 ∷ 5 ∷ 0 ∷ 0 ∷ 0 ∷ 2 ∷ two_events) ++ 7 ∷ [])
    ≡ (ok (some (json 5 two_events)), 7 ∷ [])
decode-Wire_example =
    decode-Wire stored 1024 {f = json 5 two_events} (7 ∷ [])
      (json_bytes 0 0 0 5 0 0 0 2 two_events refl) (omega arith)

encode-Wire_example : Wire stored (json 5 two_events) (encode stored (json 5 two_events) [])
encode-Wire_example =
    encode-Wire stored stored-Inverts (json 5 two_events) (omega arith, omega arith)

window_decoded : (decode_with_limit stored 1024 window_buffer).0 ≢ ok none
window_decoded h =
    let whole : (decode_with_limit stored 1024 window_buffer).0 ≡ ok (some (window 3)) =
      ap (λ (p : Result (Option Frame) × Bytes). p.0)
        (decode-Wire stored 1024 {f = window 3} [] (window_bytes 0 0 0 3) tt) in
    cc

decode-append_example : decode_with_limit stored 1024 (window_buffer ++ 8 ∷ []) ≡ (
  (decode_with_limit stored 1024 window_buffer).0,
  (decode_with_limit stored 1024 window_buffer).1 ++ 8 ∷ [],
)
decode-append_example = decode-append stored 1024 window_buffer (8 ∷ []) window_decoded

decode_prefix_example :
    decode_with_limit stored 1024 (b'2' ∷ b'W' ∷ 0 ∷ []) ≡ (ok none, b'2' ∷ b'W' ∷ 0 ∷ [])
decode_prefix_example =
    decode_prefix stored 1024 {f = window 3} (b'2' ∷ b'W' ∷ 0 ∷ []) (0 ∷ 3 ∷ []) 0
      (window_bytes 0 0 0 3) tt

decode-Returns_example : Returns (decode_with_limit stored 1024 (b'2' ∷ b'C' ∷ 0 ∷ [])).0
decode-Returns_example = decode-Returns stored 1024 (b'2' ∷ b'C' ∷ 0 ∷ [])

zlib_decompress-Bounded_example : Bounded 1 (zlib_decompress stored two_events 1)
zlib_decompress-Bounded_example = zlib_decompress-Bounded stored two_events 1

zlib_decompress-Yields_example :
    ((length two_events ≤ 1) × (zlib_decompress stored two_events 1 ≡ ok two_events))
    ⊎ ((1 < length two_events)
        × ((size : ℕ) × (1 < size)
            × (zlib_decompress stored two_events 1 ≡ err (frame_too_large size 1))))
zlib_decompress-Yields_example =
    zlib_decompress-Yields stored two_events 1 (stored-Inverts 3 two_events)

items-encode_all_example :
    (reader stored Codec.new).items (encode_all stored (window 1 ∷ json 1 two_events ∷ []))
    ≡ arrived (window 1) ∷ arrived (json 1 two_events) ∷ []
items-encode_all_example =
    items-encode_all stored Codec.new (reader stored Codec.new) (window 1 ∷ json 1 two_events ∷ [])
      stored-Inverts ((omega arith, tt), (((omega arith, omega arith), omega arith), tt))
