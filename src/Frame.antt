-- ===== src/Frame.antt =====
-- src/frame.rs: the frames of the protocol, their encoder and their incremental decoder.
-- flate2 is the parameter `Zlib`; the feature `compression` is on, as it is by default.
pub mod Flate
pub mod Inflate
pub mod Steps
pub mod Shapes
pub mod Wire
pub mod Sound
pub mod Incremental
pub mod RoundTrip
mod UnitTests
pub mod Limits
use lumberjack_protocol.Base.{
  ℕ, zero, suc, ◌+◌, ◌*◌, ◌≡◌, String, Bool, not, Option, none, some, List, [], ◌++◌, Bytes, length,
  ltb, ◌==◌, if◌then◌else◌, as_u32,
}
use lumberjack_protocol.Error.{
  Error, invalid_frame, frame_too_large, Result, M, return, fail, lift, ◌>>=◌, ◌>>◌,
}
use lumberjack_protocol.Buf.{
  put_u8, put_u32, extend_from_slice, byte_at, word_at, get_u32, advance, split_to,
}
use Flate.{Zlib}
use Inflate.{zlib_compress, zlib_decompress}

abbrev pub protocol_version : ℕ
protocol_version = b'2'

abbrev pub type_window : ℕ
type_window = b'W'

abbrev pub type_json : ℕ
type_json = b'J'

abbrev pub type_compressed : ℕ
type_compressed = b'C'

abbrev pub type_ack : ℕ
type_ack = b'A'

abbrev pub default_max_frame_size : ℕ
default_max_frame_size = 16 * 1024 * 1024

pub data Frame : Type 0 where
  window : ℕ → Frame
  json : ℕ → Bytes → Frame
  compressed : Bytes → Frame
  ack : ℕ → Frame

abbrev header : ℕ → Bytes → Bytes
header ty dst = put_u8 ty (put_u8 protocol_version dst)

-- `data.len() as u32` keeps the low 32 bits of a length.
unfoldable pub encode : Zlib → Frame → Bytes → Bytes
encode z (window n) dst = put_u32 n (header type_window dst)
encode z (json seq payload) dst =
    extend_from_slice payload
      (put_u32 (as_u32 (length payload)) (put_u32 seq (header type_json dst)))
encode z (ack seq) dst = put_u32 seq (header type_ack dst)
encode z (compressed inner) dst =
    let bytes = zlib_compress z inner in
    extend_from_slice bytes (put_u32 (as_u32 (length bytes)) (header type_compressed dst))

-- `src.len()`
abbrev len : M Bytes ℕ
len src = return (length src) src

unfoldable pub decode_window : M Bytes (Option Frame)
decode_window = do
  have ← len
  if ltb have (2 + 4) then return none else do advance 2; n ← get_u32; return (some (window n))

pub decode_ack : M Bytes (Option Frame)
decode_ack = do
  have ← len
  if ltb have (2 + 4) then return none else do advance 2; seq ← get_u32; return (some (ack seq))

unfoldable pub decode_json : ℕ → M Bytes (Option Frame)
decode_json max_frame_size = do
  have ← len
  if ltb have (2 + 4 + 4) then return none else do
    size ← word_at 6
    if ltb max_frame_size size
        then fail (frame_too_large size max_frame_size)
        else if ltb have (2 + 4 + 4 + size)
        then return none
        else do
          advance 2
          seq ← get_u32
          _ ← get_u32
          payload ← split_to size
          return (some (json seq payload))

pub decode_compressed : Zlib → ℕ → M Bytes (Option Frame)
decode_compressed z max_frame_size = do
  have ← len
  if ltb have (2 + 4) then return none else do
    size ← word_at 2
    if ltb max_frame_size size
        then fail (frame_too_large size max_frame_size)
        else if ltb have (2 + 4 + size)
        then return none
        else do
          advance (2 + 4)
          payload ← split_to size
          inflated ← lift (zlib_decompress z payload max_frame_size)
          return (some (compressed inflated))

-- The `match ty` of the source.
pub decode_body : Zlib → ℕ → ℕ → M Bytes (Option Frame)
decode_body z max_frame_size ty =
    if ty == type_window
    then decode_window
    else if ty == type_json
    then decode_json max_frame_size
    else if ty == type_ack
    then decode_ack
    else if ty == type_compressed
    then decode_compressed z max_frame_size
    else fail (invalid_frame "unknown frame type")

unfoldable pub decode_with_limit : Zlib → ℕ → M Bytes (Option Frame)
unfolding decode_body
decode_with_limit z max_frame_size = do
  have ← len
  if ltb have 2 then return none else do
    version ← byte_at 0
    if not (version == protocol_version)
        then fail (invalid_frame "unsupported protocol version")
        else do ty ← byte_at 1; decode_body z max_frame_size ty

abbrev pub decode : Zlib → M Bytes (Option Frame)
decode z = decode_with_limit z default_max_frame_size
