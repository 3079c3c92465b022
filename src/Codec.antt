-- ===== src/Codec.antt =====
-- src/codec.rs: `LumberjackCodec`, and the reader that tokio-util builds on its decoder.
pub mod Reader
mod UnitTests
use lumberjack_protocol.Frame.{Frame, default_max_frame_size, decode_with_limit, json}
use lumberjack_protocol.Frame
use lumberjack_protocol.Base.{
  refl, ℕ, Bytes, List, Option, ◌∷◌, [], ◌++◌, ◌≡◌, some, All, map, ◌∙◌, ap, length, ◌≤◌, arith,
  length-append,
}
use lumberjack_protocol.Frame.Flate.{Zlib, Inverts}
use lumberjack_protocol.Error.{Error, M, ok, err}
use lumberjack_protocol.Frame.Inflate.{chunk_size}
use lumberjack_protocol.Frame.RoundTrip.{IsEncodable, Fits, decode-encode}
use lumberjack_protocol.Events.{Event, json_frames}

pub record LumberjackCodec : Type 0 where
  pub max_frame_size : ℕ

-- `Default::default()` and `new()`
abbrev pub default : LumberjackCodec
default = record { max_frame_size = default_max_frame_size }

abbrev pub new : LumberjackCodec
new = default

abbrev pub with_max_frame_size : ℕ → LumberjackCodec
with_max_frame_size n = record { max_frame_size = n }

abbrev pub decode : Zlib → LumberjackCodec → M Bytes (Option Frame)
decode z codec = decode_with_limit z codec.max_frame_size

-- The item is appended to the write buffer, which is the state.
abbrev pub encode : Zlib → LumberjackCodec → Frame → M Bytes (Unit {0})
encode z codec item dst = (ok tt, Frame.encode z item dst)

-- What `Framed::next` gives: a frame or an error. The end of the stream is the end of a list.
pub data Item : Type 0 where
  arrived : Frame → Item
  broken : Error → Item

-- `Framed` of tokio-util, as its documentation has it: `items src` is all that `next` gives on a
-- stream of these bytes that the peer then closes, whatever pieces they come in. The decoder is
-- called until it asks for more; an error ends the stream.
pub record Framed (z : Zlib) (codec : LumberjackCodec) : Type 0 where
  pub items : Bytes → List Item
  pub ends : items [] ≡ []
  pub next_frame :
      (src rest : Bytes) (f : Frame)
      → decode z codec src ≡ (ok (some f), rest)
      → items src ≡ arrived f ∷ items rest
  pub next_error :
      (src rest : Bytes) (e : Error)
      → decode z codec src ≡ (err e, rest)
      → items src ≡ broken e ∷ []

-- A sequence of frames on the wire.
abbrev pub encode_all : Zlib → List Frame → Bytes
encode_all z [] = []
encode_all z (f ∷ fs) = Frame.encode z f [] ++ encode_all z fs

module _ (z : Zlib) (codec : LumberjackCodec) (framed : Framed z codec) where
  -- With any flate2 that decompresses what it compressed and any reader in the manner of `Framed`:
  -- a sequence of frames that fit the protocol and the limit of the codec, written one after the
  -- other, is read as that sequence.
  pub items-encode_all :
      (fs : List Frame)
      → Inverts z chunk_size
      → All (λ f. IsEncodable z f × Fits z codec.max_frame_size f) fs
      → framed.items (encode_all z fs) ≡ map arrived fs
  items-encode_all [] inverts h = framed.ends
  items-encode_all (f ∷ fs) inverts ((h, k), hs) =
      framed.next_frame _ (encode_all z fs) f
        (decode-encode z inverts codec.max_frame_size f (encode_all z fs) h k)
      ∙ ap (◌∷◌ (arrived f)) (items-encode_all fs inverts hs)

-- Each frame has a byte at least.
pub length-json_frames :
    (z : Zlib) (es : List Event) → length es ≤ length (encode_all z (json_frames es))
unfolding Frame.encode
length-json_frames z [] = omega arith
length-json_frames z ((seq, payload) ∷ es) = omega (
  arith,
  length-json_frames z es,
  length-append (Frame.encode z (json seq payload) []) (encode_all z (json_frames es)),
)
