-- ===== src/Frame/Incremental.antt =====
-- src/frame.rs: `decode_with_limit` on a buffer that is still being filled.
use lumberjack_protocol.Frame.Flate.{Zlib}
use lumberjack_protocol.Error.{Result, Returns, ok, err, panics, hangs}
use lumberjack_protocol.Base.{
  ℕ, Option, Bytes, ◌≡◌, ◌≢◌, none, ◌++◌, ◌∙◌, arith, length-append, sym, take-append, take, ap,
  drop-append, from_be,
}
use lumberjack_protocol.Frame.{decode_body, decode_with_limit, Frame}
use lumberjack_protocol.Frame.Shapes.{
  Shape, short, decode-Shape, bad_version, bad_type, part, json_head, window_whole, ack_whole,
  json_large, json_part, json_whole, compressed_large, compressed_part, compressed_whole,
}
use lumberjack_protocol.Frame.Inflate.{Bounded, zlib_decompress-Bounded}
use lumberjack_protocol.Frame.Steps.{
  inflated, decode_bad_version, decode_good_version, decode_body_unknown, decode_window_whole,
  decode_ack_whole, decode_json_large, decode_json_whole, decode_compressed_large,
  decode_compressed_whole,
}

inflated-Returns : (max : ℕ) (r : Result Bytes) → Bounded max r → Returns (inflated r)
inflated-Returns max (ok inner) h = tt
inflated-Returns max (err e) h = tt
inflated-Returns max panics h = h
inflated-Returns max hangs h = h

inflated-ne-none : (r : Result Bytes) → inflated r ≢ ok none
inflated-ne-none (ok inner) h = cc
inflated-ne-none (err e) h = cc
inflated-ne-none panics h = cc
inflated-ne-none hangs h = cc

module _ (z : Zlib) (max : ℕ) where
  abbrev Step : Type 0
  Step = Result (Option Frame) × Bytes

  -- Neither a panic nor a loop without end, whatever the reader of flate2 does.
  Shape-Returns : {src : Bytes} {r : Step} → Shape z max src r → Returns r.0
  Shape-Returns (short h e) = rw e tt
  Shape-Returns (bad_version v t body e h e') = rw e' tt
  Shape-Returns (bad_type t body e h₁ h₂ h₃ h₄ e') = rw e' tt
  Shape-Returns (part t body e h h' e') = rw e' tt
  Shape-Returns (json_head body e h e') = rw e' tt
  Shape-Returns (window_whole a b c d rest e e') = rw e' tt
  Shape-Returns (ack_whole a b c d rest e e') = rw e' tt
  Shape-Returns (json_large s₀ s₁ s₂ s₃ a b c d rest e h e') = rw e' tt
  Shape-Returns (json_part s₀ s₁ s₂ s₃ a b c d rest e h h' e') = rw e' tt
  Shape-Returns (json_whole s₀ s₁ s₂ s₃ a b c d rest e h h' e') = rw e' tt
  Shape-Returns (compressed_large a b c d rest e h e') = rw e' tt
  Shape-Returns (compressed_part a b c d rest e h h' e') = rw e' tt
  Shape-Returns (compressed_whole a b c d rest e h h' e') =
      rw e' (inflated-Returns max _ (zlib_decompress-Bounded z (take (from_be a b c d) rest) max))

  -- On any buffer, with any limit and whatever the reader of flate2 does, the decoder comes to an
  -- end with an answer or an error of the crate: no index is out of range, and the loop that
  -- decompresses ends.
  pub decode-Returns : (src : Bytes) → Returns (decode_with_limit z max src).0
  decode-Returns src = Shape-Returns (decode-Shape z max src)

  -- An incomplete frame is left in the buffer.
  Shape-none : {src : Bytes} {r : Step} → Shape z max src r → r.0 ≡ ok none → r.1 ≡ src
  Shape-none (short h e) k = cc
  Shape-none (bad_version v t body e h e') k = cc
  Shape-none (bad_type t body e h₁ h₂ h₃ h₄ e') k = cc
  Shape-none (part t body e h h' e') k = cc
  Shape-none (json_head body e h e') k = cc
  Shape-none (window_whole a b c d rest e e') k = cc
  Shape-none (ack_whole a b c d rest e e') k = cc
  Shape-none (json_large s₀ s₁ s₂ s₃ a b c d rest e h e') k = cc
  Shape-none (json_part s₀ s₁ s₂ s₃ a b c d rest e h h' e') k = cc
  Shape-none (json_whole s₀ s₁ s₂ s₃ a b c d rest e h h' e') k = cc
  Shape-none (compressed_large a b c d rest e h e') k = cc
  Shape-none (compressed_part a b c d rest e h h' e') k = cc
  Shape-none (compressed_whole a b c d rest e h h' e') k =
      absurd (inflated-ne-none _ (sym (ap (λ (p : Step). p.0) e') ∙ k))

  pub decode_none :
      (src : Bytes)
      → (decode_with_limit z max src).0 ≡ ok none
      → decode_with_limit z max src ≡ (ok none, src)
  decode_none src h = cc (Shape-none (decode-Shape z max src) h)

  -- More input changes nothing of an answer that is more than "incomplete".
  Shape-append :
      {src : Bytes} {r : Step} (more : Bytes)
      → Shape z max src r
      → r.0 ≢ ok none
      → decode_with_limit z max (src ++ more) ≡ (r.0, r.1 ++ more)
  unfolding decode_body
  Shape-append more (short h e) k = absurd (k (cc))
  Shape-append more (bad_version v t body e h e') k =
      rw (e, e') (rw e (decode_bad_version z max v t (body ++ more) h))
  Shape-append more (bad_type t body e h₁ h₂ h₃ h₄ e') k =
      rw (e, e')
        (rw e
          (decode_good_version z max t (body ++ more) ∙ decode_body_unknown z max t _ h₁ h₂ h₃ h₄))
  Shape-append more (part t body e h h' e') k = absurd (k (cc))
  Shape-append more (json_head body e h e') k = absurd (k (cc))
  Shape-append more (window_whole a b c d rest e e') k =
      rw (e, e')
        (decode_good_version z max b'W' _ ∙ decode_window_whole z max _ _ a b c d (rest ++ more))
  Shape-append more (ack_whole a b c d rest e e') k =
      rw (e, e')
        (decode_good_version z max b'A' _ ∙ decode_ack_whole z max _ _ a b c d (rest ++ more))
  Shape-append more (json_large s₀ s₁ s₂ s₃ a b c d rest e h e') k =
      rw (e, e')
        (rw e (
          decode_good_version z max b'J' _
          ∙ decode_json_large z max s₀ s₁ s₂ s₃ a b c d (rest ++ more) h))
  Shape-append more (json_part s₀ s₁ s₂ s₃ a b c d rest e h h' e') k = absurd (k (cc))
  Shape-append more (json_whole s₀ s₁ s₂ s₃ a b c d rest e h h' e') k =
      rw (e, e')
        (decode_good_version z max b'J' _
          ∙ decode_json_whole z max s₀ s₁ s₂ s₃ a b c d (rest ++ more) h
              (omega (arith, length-append rest more))
          ∙ rw (take-append _ rest more h', drop-append _ rest more h'))
  Shape-append more (compressed_large a b c d rest e h e') k =
      rw (e, e')
        (rw e (
          decode_good_version z max b'C' _
          ∙ decode_compressed_large z max a b c d (rest ++ more) h))
  Shape-append more (compressed_part a b c d rest e h h' e') k = absurd (k (cc))
  Shape-append more (compressed_whole a b c d rest e h h' e') k =
      rw (e, e')
        (decode_good_version z max b'C' _
          ∙ decode_compressed_whole z max a b c d (rest ++ more) h
              (omega (arith, length-append rest more))
          ∙ rw (take-append _ rest more h', drop-append _ rest more h'))

  -- If the decoder has an answer on a buffer, a frame or an error, then more input behind that
  -- buffer changes neither the answer nor what was taken; the input stays behind what is left.
  pub decode-append :
      (src more : Bytes)
      → (decode_with_limit z max src).0 ≢ ok none
      → decode_with_limit z max (src ++ more)
        ≡ ((decode_with_limit z max src).0, (decode_with_limit z max src).1 ++ more)
  decode-append src more h = Shape-append more (decode-Shape z max src) h
