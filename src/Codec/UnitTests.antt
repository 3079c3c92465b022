-- ===== src/Codec/UnitTests.antt =====
-- The unit tests of src/codec.rs: what each of them asserts, as a statement on the model.
use lumberjack_protocol.Codec.{new, decode, encode}
use lumberjack_protocol.Frame.{Frame, window, json}
use lumberjack_protocol.Frame
use lumberjack_protocol.Frame.Flate.{Zlib}
use lumberjack_protocol.Error.{ok, M, ◌>>=◌, return}
use lumberjack_protocol.Base.{[], ◌≡◌, refl, Option, some, Bytes, codes}

abbrev EncodeThenDecodeWindow : Zlib → Type 0
EncodeThenDecodeWindow z =
    let (_, buf) = encode z new (window 5) [] in (decode z new buf).0 ≡ ok (some (window 5))

encode_then_decode_window : (z : Zlib) → EncodeThenDecodeWindow z
unfolding Frame.encode Frame.decode_with_limit Frame.decode_window Frame.decode_json
encode_then_decode_window z = refl

-- Three frames into one buffer, and out of it again.
abbrev back_to_back : Zlib → M Bytes (Option Frame × Option Frame × Option Frame)
back_to_back z = do
  _ ← encode z new (window 2)
  _ ← encode z new (json 1 (codes "{}"))
  _ ← encode z new (json 2 (codes "[]"))
  f1 ← decode z new
  f2 ← decode z new
  f3 ← decode z new
  return (f1, f2, f3)

abbrev DecodeStreamsBackToBackFrames : Zlib → Type 0
DecodeStreamsBackToBackFrames z =
    back_to_back z []
    ≡ (ok (some (window 2), some (json 1 (codes "{}")), some (json 2 (codes "[]"))), [])

decode_streams_back_to_back_frames : (z : Zlib) → DecodeStreamsBackToBackFrames z
unfolding Frame.encode Frame.decode_with_limit Frame.decode_window Frame.decode_json
decode_streams_back_to_back_frames z = refl
