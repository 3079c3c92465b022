-- ===== src/Frame/Steps.antt =====
-- src/frame.rs: what `decode_with_limit` does, one lemma for each shape of the buffer.
use lumberjack_protocol.Frame.{
  decode_with_limit, window, ack, json, compressed, protocol_version, type_window, type_json,
  type_ack, type_compressed, decode_window, decode_ack, decode_json, decode_compressed, decode_body,
  Zlib, zlib_decompress, Frame,
}
use lumberjack_protocol.Base.{
  ℕ, Bytes, ◌∷◌, length, ◌≢◌, ◌<◌, ◌≡◌, arith, some, none, lt→ltb, from_be, ◌≤◌, Option, take, drop,
}
use lumberjack_protocol.Error.{panics, hangs, err, ok, invalid_frame, frame_too_large, Result}

-- What becomes of a compressed payload that is there in full.
abbrev pub inflated : Result Bytes → Result (Option Frame)
inflated (ok bytes) = ok (some (compressed bytes))
inflated (err e) = err e
inflated panics = panics
inflated hangs = hangs

abbrev pub json_buffer : ℕ → ℕ → ℕ → ℕ → ℕ → ℕ → ℕ → ℕ → Bytes → Bytes
json_buffer s₀ s₁ s₂ s₃ a b c d rest =
    protocol_version ∷ type_json ∷ s₀ ∷ s₁ ∷ s₂ ∷ s₃ ∷ a ∷ b ∷ c ∷ d ∷ rest

abbrev pub compressed_buffer : ℕ → ℕ → ℕ → ℕ → Bytes → Bytes
compressed_buffer a b c d rest = protocol_version ∷ type_compressed ∷ a ∷ b ∷ c ∷ d ∷ rest

module _ (z : Zlib) (max : ℕ) where
  pub decode_short : (src : Bytes) → length src < 2 → decode_with_limit z max src ≡ (ok none, src)
  unfolding decode_with_limit
  decode_short src h = rw (lt→ltb _ _ h)

  pub decode_bad_version :
      (v t : ℕ) (body : Bytes)
      → v ≢ protocol_version
      → decode_with_limit z max (v ∷ t ∷ body)
        ≡ (err (invalid_frame "unsupported protocol version"), v ∷ t ∷ body)
  unfolding decode_with_limit
  decode_bad_version v t body h = ground arith

  pub decode_good_version :
      (t : ℕ) (body : Bytes)
      → decode_with_limit z max (protocol_version ∷ t ∷ body)
        ≡ decode_body z max t (protocol_version ∷ t ∷ body)
  unfolding decode_with_limit
  decode_good_version t body = ground arith

  pub decode_body_unknown :
      (t : ℕ) (src : Bytes)
      → t ≢ type_window
      → t ≢ type_json
      → t ≢ type_ack
      → t ≢ type_compressed
      → decode_body z max t src ≡ (err (invalid_frame "unknown frame type"), src)
  unfolding decode_body
  decode_body_unknown t src hw hj ha hc = ground arith

  pub decode_window_part :
      (v t : ℕ) (body : Bytes)
      → length body < 4
      → decode_window (v ∷ t ∷ body) ≡ (ok none, v ∷ t ∷ body)
  unfolding decode_window
  decode_window_part v t body h = ground arith

  pub decode_window_whole :
      (v t a b c d : ℕ) (rest : Bytes)
      → decode_window (v ∷ t ∷ a ∷ b ∷ c ∷ d ∷ rest) ≡ (ok (some (window (from_be a b c d))), rest)
  unfolding decode_window
  decode_window_whole v t a b c d rest = ground arith

  pub decode_ack_part :
      (v t : ℕ) (body : Bytes)
      → length body < 4
      → decode_ack (v ∷ t ∷ body) ≡ (ok none, v ∷ t ∷ body)
  unfolding decode_ack
  decode_ack_part v t body h = ground arith

  pub decode_ack_whole :
      (v t a b c d : ℕ) (rest : Bytes)
      → decode_ack (v ∷ t ∷ a ∷ b ∷ c ∷ d ∷ rest) ≡ (ok (some (ack (from_be a b c d))), rest)
  unfolding decode_ack
  decode_ack_whole v t a b c d rest = ground arith

  pub decode_json_head :
      (v t : ℕ) (body : Bytes)
      → length body < 8
      → decode_json max (v ∷ t ∷ body) ≡ (ok none, v ∷ t ∷ body)
  unfolding decode_json
  decode_json_head v t body h = ground arith

  module _ (s₀ s₁ s₂ s₃ a b c d : ℕ) (rest : Bytes) where
    pub decode_json_large :
        max < from_be a b c d
        → decode_json max (json_buffer s₀ s₁ s₂ s₃ a b c d rest)
          ≡ (err (frame_too_large (from_be a b c d) max), json_buffer s₀ s₁ s₂ s₃ a b c d rest)
    unfolding decode_json
    decode_json_large h = ground arith

    pub decode_json_part :
        from_be a b c d ≤ max
        → length rest < from_be a b c d
        → decode_json max (json_buffer s₀ s₁ s₂ s₃ a b c d rest)
          ≡ (ok none, json_buffer s₀ s₁ s₂ s₃ a b c d rest)
    unfolding decode_json
    decode_json_part h k = ground arith

    pub decode_json_whole :
        from_be a b c d ≤ max
        → from_be a b c d ≤ length rest
        → decode_json max (json_buffer s₀ s₁ s₂ s₃ a b c d rest) ≡ (
          ok (some (json (from_be s₀ s₁ s₂ s₃) (take (from_be a b c d) rest))),
          drop (from_be a b c d) rest,
        )
    unfolding decode_json
    decode_json_whole h k = ground arith

  pub decode_compressed_head :
      (v t : ℕ) (body : Bytes)
      → length body < 4
      → decode_compressed z max (v ∷ t ∷ body) ≡ (ok none, v ∷ t ∷ body)
  unfolding decode_compressed
  decode_compressed_head v t body h = ground arith

  module _ (a b c d : ℕ) (rest : Bytes) where
    pub decode_compressed_large :
        max < from_be a b c d
        → decode_compressed z max (compressed_buffer a b c d rest)
          ≡ (err (frame_too_large (from_be a b c d) max), compressed_buffer a b c d rest)
    unfolding decode_compressed
    decode_compressed_large h = ground arith

    pub decode_compressed_part :
        from_be a b c d ≤ max
        → length rest < from_be a b c d
        → decode_compressed z max (compressed_buffer a b c d rest)
          ≡ (ok none, compressed_buffer a b c d rest)
    unfolding decode_compressed
    decode_compressed_part h k = ground arith

    pub decode_compressed_whole :
        from_be a b c d ≤ max
        → from_be a b c d ≤ length rest
        → decode_compressed z max (compressed_buffer a b c d rest) ≡ (
          inflated (zlib_decompress z (take (from_be a b c d) rest) max),
          drop (from_be a b c d) rest,
        )
    unfolding decode_compressed
    decode_compressed_whole h k = ground arith
