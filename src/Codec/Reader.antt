-- ===== src/Codec/Reader.antt =====
-- src/codec.rs: a reader in the manner of tokio-util's `Framed`, on a stream that is all there. It
-- shows that the interface `Framed` can be met, whatever flate2 does.
use lumberjack_protocol.Codec.{LumberjackCodec, Framed, Item, arrived, broken, decode, Error}
use lumberjack_protocol.Frame.Flate.{Zlib}
use lumberjack_protocol.Frame.{Frame, decode_with_limit}
use lumberjack_protocol.Frame.Steps.{decode_short}
use lumberjack_protocol.Server.Progress.Invariant.{decode_shrinks}
use lumberjack_protocol.Error.{Result, ok, err, panics, hangs, io}
use lumberjack_protocol.Base.{
  refl, arith, ℕ, [], suc, Bytes, List, length, ◌≡◌, ◌<◌, some, Option, ◌∷◌, zero, none, ap,
}

module _ (z : Zlib) (codec : LumberjackCodec) where
  -- What one answer of the decoder makes; `again` reads on. Bytes that are left over at the end of
  -- the stream are an error.
  abbrev item_of : (Bytes → List Item) → Result (Option Frame) × Bytes → List Item
  item_of again (ok (some f), rest) = arrived f ∷ again rest
  item_of again (ok none, []) = []
  item_of again (ok none, b ∷ rest) = broken (io "bytes remaining on stream") ∷ []
  item_of again (err e, rest) = broken e ∷ []
  item_of again (panics, rest) = []
  item_of again (hangs, rest) = []

  unfoldable pub drain : ℕ → Bytes → List Item
  drain zero src = []
  drain (suc fuel) src = item_of (drain fuel) (decode z codec src)

  -- More fuel than bytes is enough.
  item_of-again :
      (f g : Bytes → List Item) (src : Bytes) (d : Result (Option Frame) × Bytes)
      → decode_with_limit z codec.max_frame_size src ≡ d
      → ((rest : Bytes) → length rest < length src → f rest ≡ g rest)
      → item_of f d ≡ item_of g d
  item_of-again f g src (ok (some x), rest) e k =
      ap (◌∷◌ (arrived x)) (k rest (decode_shrinks z codec.max_frame_size src rest e))
  item_of-again f g src (ok none, []) e k = refl
  item_of-again f g src (ok none, b ∷ rest) e k = refl
  item_of-again f g src (err x, rest) e k = refl
  item_of-again f g src (panics, rest) e k = refl
  item_of-again f g src (hangs, rest) e k = refl

  drain-fuel : (m n : ℕ) (src : Bytes) → length src < m → length src < n → drain m src ≡ drain n src
  unfolding drain
  drain-fuel zero n src h k = absurd (omega arith)
  drain-fuel (suc m) zero src h k = absurd (omega arith)
  drain-fuel (suc m) (suc n) src h k =
      item_of-again (drain m) (drain n) src _ refl
        (λ rest shorter. drain-fuel m n rest (omega arith) (omega arith))

  pub drain_frame :
      (src rest : Bytes) (f : Frame)
      → decode z codec src ≡ (ok (some f), rest)
      → drain (suc (length src)) src ≡ arrived f ∷ drain (suc (length rest)) rest
  unfolding drain
  drain_frame src rest f e = rw e (
      ap (◌∷◌ (arrived f)) (
        drain-fuel (length src) (suc (length rest)) rest
          (decode_shrinks z codec.max_frame_size src rest e) (omega arith)))

  pub drain_error :
      (src rest : Bytes) (e : Error)
      → decode z codec src ≡ (err e, rest)
      → drain (suc (length src)) src ≡ broken e ∷ []
  unfolding drain
  drain_error src rest e h = rw h

  pub drain_empty : drain 1 [] ≡ []
  unfolding drain
  drain_empty = rw (decode_short z codec.max_frame_size [] (omega arith))

  abbrev pub reader : Framed z codec
  reader = record {
    items = λ src. drain (suc (length src)) src;
    ends = drain_empty;
    next_frame = drain_frame;
    next_error = drain_error;
  }
