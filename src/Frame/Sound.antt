-- ===== src/Frame/Sound.antt =====
-- src/frame.rs: whatever `decode_with_limit` accepts is a frame of the wire format.
use lumberjack_protocol.Frame.Wire.{
  Wire, Within, window_bytes, ack_bytes, json_bytes, compressed_bytes,
}
use lumberjack_protocol.Frame.Flate.{Zlib}
use lumberjack_protocol.Frame.{
  Frame, ℕ, Result, Bytes, decode_with_limit, ◌≡◌, Option, ◌++◌, some, compressed, zlib_decompress,
}
use lumberjack_protocol.Frame.Steps.{inflated, json_buffer, compressed_buffer}
use lumberjack_protocol.Error.{ok, err, panics, hangs}
use lumberjack_protocol.Frame.Shapes.{
  Shape, short, decode-Shape, bad_version, bad_type, part, json_head, window_whole, ack_whole,
  json_large, json_part, json_whole, compressed_large, compressed_part, compressed_whole,
}
use lumberjack_protocol.Base.{
  ap, subst, sym, ◌∙◌, refl, from_be, length, take, arith, length-take, drop, take-append-drop, ◌≤◌,
}
use lumberjack_protocol.Frame.Inflate.{Bounded, zlib_decompress-Bounded, zlib_decompress-ok}

inflated-ok :
    {f : Frame} (r : Result Bytes)
    → inflated r ≡ ok (some f)
    → (inner : Bytes) × (r ≡ ok inner) × (compressed inner ≡ f)
inflated-ok (ok inner) h = (inner, refl, cc)
inflated-ok (err e) h = cc
inflated-ok panics h = cc
inflated-ok hangs h = cc

module _ (z : Zlib) (max : ℕ) where
  -- `src` begins with a frame of the grammar, within the limit, and `rest` is what follows it.
  abbrev pub Reads : Bytes → Frame → Bytes → Type 0
  Reads src f rest = (bytes : Bytes) × (src ≡ bytes ++ rest) × Wire z f bytes × Within max f bytes

  accepted :
      {src : Bytes} {r : Result (Option Frame) × Bytes} {f g : Frame} (bytes rest : Bytes)
      → src ≡ bytes ++ rest
      → Wire z g bytes
      → Within max g bytes
      → r ≡ (ok (some g), rest)
      → r.0 ≡ ok (some f)
      → Reads src f r.1
  accepted {r = r} {f} {g} bytes rest cut w within e k =
      let same : g ≡ f = cc (ap (λ (p : Result (Option Frame) × Bytes). p.0) e) in
      let left : rest ≡ r.1 = sym (ap (λ (p : Result (Option Frame) × Bytes). p.1) e) in
      (
        bytes,
        cut ∙ ap (λ (t : Bytes). bytes ++ t) left,
        subst (λ x. Wire z x bytes) same w,
        subst (λ x. Within max x bytes) same within,
      )

  Shape-sound :
      {src : Bytes} {r : Result (Option Frame) × Bytes} {f : Frame}
      → Shape z max src r
      → r.0 ≡ ok (some f)
      → Reads src f r.1
  Shape-sound (short h e) k = cc
  Shape-sound (bad_version v t body e h e') k = cc
  Shape-sound (bad_type t body e h₁ h₂ h₃ h₄ e') k = cc
  Shape-sound (part t body e h h' e') k = cc
  Shape-sound (json_head body e h e') k = cc
  Shape-sound (window_whole a b c d rest e e') k = accepted _ rest e (window_bytes a b c d) tt e' k
  Shape-sound (ack_whole a b c d rest e e') k = accepted _ rest e (ack_bytes a b c d) tt e' k
  Shape-sound (json_large s₀ s₁ s₂ s₃ a b c d rest e h e') k = cc
  Shape-sound (json_part s₀ s₁ s₂ s₃ a b c d rest e h h' e') k = cc
  Shape-sound (json_whole s₀ s₁ s₂ s₃ a b c d rest e h h' e') k =
      let n = from_be a b c d in
      let exact : length (take n rest) ≡ n = omega (arith, length-take n rest) in
      accepted (json_buffer s₀ s₁ s₂ s₃ a b c d (take n rest)) (drop n rest)
        (e ∙ ap (json_buffer s₀ s₁ s₂ s₃ a b c d) (sym (take-append-drop n rest)))
        (json_bytes s₀ s₁ s₂ s₃ a b c d (take n rest) exact) (omega arith) e' k
  Shape-sound (compressed_large a b c d rest e h e') k = cc
  Shape-sound (compressed_part a b c d rest e h h' e') k = cc
  Shape-sound {f = f} (compressed_whole a b c d rest e h h' e') k =
      let n = from_be a b c d in
      let packed = take n rest in
      let exact : length packed ≡ n = omega (arith, length-take n rest) in
      let (inner, unpacked, same) =
        inflated-ok {f = f} (zlib_decompress z packed max)
          (sym (ap (λ (p : Result (Option Frame) × Bytes). p.0) e') ∙ k) in
      let bounded : length inner ≤ max =
        subst (Bounded max) unpacked (zlib_decompress-Bounded z packed max) in
      accepted (compressed_buffer a b c d packed) (drop n rest)
        (e ∙ ap (compressed_buffer a b c d) (sym (take-append-drop n rest)))
        (compressed_bytes a b c d packed inner exact (zlib_decompress-ok z packed max unpacked))
        (bounded, omega arith) (rw unpacked at e') k

  -- If `decode_with_limit` accepts a frame, then the buffer began with a byte sequence that the
  -- wire format gives for this frame, its payload and its decompressed payload are within the
  -- limit, and exactly these bytes were taken off the buffer.
  pub decode-Reads :
      {src rest : Bytes} {f : Frame}
      → decode_with_limit z max src ≡ (ok (some f), rest)
      → Reads src f rest
  decode-Reads {src} {rest} {f} h =
      subst (Reads src f) (ap (λ (p : Result (Option Frame) × Bytes). p.1) h)
        (Shape-sound (decode-Shape z max src) (ap (λ (p : Result (Option Frame) × Bytes). p.0) h))
