-- ===== src/Frame/Limits.antt =====
-- src/frame.rs: what `decode_with_limit` does with a `J` frame that is over the limit.
use lumberjack_protocol.Frame.{encode, decode_body, decode_with_limit, json}
use lumberjack_protocol.Frame.Steps.{decode_good_version, decode_json_large}
use lumberjack_protocol.Frame.Flate.{Zlib}
use lumberjack_protocol.Base.{
  arith, IsU32, from_be-as_u32, ℕ, Bytes, length, ◌<◌, [], ◌++◌, ◌≡◌, ◌∙◌,
}
use lumberjack_protocol.Error.{err, frame_too_large}

pub decode_oversized :
    (z : Zlib) (max seq : ℕ) (payload rest : Bytes)
    → IsU32 (length payload)
    → max < length payload
    → let src = encode z (json seq payload) [] ++ rest in
      decode_with_limit z max src ≡ (err (frame_too_large (length payload) max), src)
unfolding encode decode_body
decode_oversized z max seq payload rest short large =
    let size = from_be-as_u32 (length payload) short in
    decode_good_version z max b'J' _
    ∙ decode_json_large z max _ _ _ _ _ _ _ _ (payload ++ rest) (omega (arith, size))
    ∙ rw (← size)
