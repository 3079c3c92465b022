-- ===== src/Frame/Shapes.antt =====
-- src/frame.rs: the decision table of `decode_with_limit`.
use lumberjack_protocol.Frame.{
  decode_with_limit, decode_body, Zlib, protocol_version, Result, type_window, Frame, type_json,
  type_ack, type_compressed, window, ack, json, zlib_decompress,
}
use lumberjack_protocol.Base.{
  refl, ℕ, Bytes, Option, ◌∷◌, length, ◌<◌, inl, ◌≡◌, inr, none, ◌≢◌, ◌⊎◌, some, from_be, ◌≤◌,
  lt_or_le, take, drop, arith, ℕ_discrete, [],
}
use lumberjack_protocol.Buf.{word-cases, two_words}
use lumberjack_protocol.Frame.Steps.{
  decode_window_part, json_buffer, decode_ack_part, compressed_buffer, decode_window_whole,
  decode_compressed_head, decode_ack_whole, decode_json_head, decode_compressed_large,
  decode_json_large, decode_compressed_part, decode_json_part, decode_json_whole,
  decode_compressed_whole, inflated, decode_short, decode_body_unknown, decode_good_version,
  decode_bad_version,
}
use lumberjack_protocol.Error.{ok, err, invalid_frame, frame_too_large}

module _ (z : Zlib) (max : ℕ) where
  -- The buffer `src`, by its first bytes, and the result `r` of reading it.
  pub data Shape (src : Bytes) (r : Result (Option Frame) × Bytes) : Type 0 where
    short : length src < 2 → r ≡ (ok none, src) → Shape src r
    bad_version :
        (v t : ℕ) (body : Bytes)
        → src ≡ v ∷ t ∷ body
        → v ≢ protocol_version
        → r ≡ (err (invalid_frame "unsupported protocol version"), src)
        → Shape src r
    bad_type :
        (t : ℕ) (body : Bytes)
        → src ≡ protocol_version ∷ t ∷ body
        → t ≢ type_window
        → t ≢ type_json
        → t ≢ type_ack
        → t ≢ type_compressed
        → r ≡ (err (invalid_frame "unknown frame type"), src)
        → Shape src r
    part :
        (t : ℕ) (body : Bytes)
        → src ≡ protocol_version ∷ t ∷ body
        → (t ≡ type_window) ⊎ (t ≡ type_ack) ⊎ (t ≡ type_compressed)
        → length body < 4
        → r ≡ (ok none, src)
        → Shape src r
    json_head :
        (body : Bytes)
        → src ≡ protocol_version ∷ type_json ∷ body
        → length body < 8
        → r ≡ (ok none, src)
        → Shape src r
    window_whole :
        (a b c d : ℕ) (rest : Bytes)
        → src ≡ protocol_version ∷ type_window ∷ a ∷ b ∷ c ∷ d ∷ rest
        → r ≡ (ok (some (window (from_be a b c d))), rest)
        → Shape src r
    ack_whole :
        (a b c d : ℕ) (rest : Bytes)
        → src ≡ protocol_version ∷ type_ack ∷ a ∷ b ∷ c ∷ d ∷ rest
        → r ≡ (ok (some (ack (from_be a b c d))), rest)
        → Shape src r
    json_large :
        (s₀ s₁ s₂ s₃ a b c d : ℕ) (rest : Bytes)
        → src ≡ json_buffer s₀ s₁ s₂ s₃ a b c d rest
        → max < from_be a b c d
        → r ≡ (err (frame_too_large (from_be a b c d) max), src)
        → Shape src r
    json_part :
        (s₀ s₁ s₂ s₃ a b c d : ℕ) (rest : Bytes)
        → src ≡ json_buffer s₀ s₁ s₂ s₃ a b c d rest
        → from_be a b c d ≤ max
        → length rest < from_be a b c d
        → r ≡ (ok none, src)
        → Shape src r
    json_whole :
        (s₀ s₁ s₂ s₃ a b c d : ℕ) (rest : Bytes)
        → src ≡ json_buffer s₀ s₁ s₂ s₃ a b c d rest
        → from_be a b c d ≤ max
        → from_be a b c d ≤ length rest
        → r ≡ (
          ok (some (json (from_be s₀ s₁ s₂ s₃) (take (from_be a b c d) rest))),
          drop (from_be a b c d) rest,
        )
        → Shape src r
    compressed_large :
        (a b c d : ℕ) (rest : Bytes)
        → src ≡ compressed_buffer a b c d rest
        → max < from_be a b c d
        → r ≡ (err (frame_too_large (from_be a b c d) max), src)
        → Shape src r
    compressed_part :
        (a b c d : ℕ) (rest : Bytes)
        → src ≡ compressed_buffer a b c d rest
        → from_be a b c d ≤ max
        → length rest < from_be a b c d
        → r ≡ (ok none, src)
        → Shape src r
    compressed_whole :
        (a b c d : ℕ) (rest : Bytes)
        → src ≡ compressed_buffer a b c d rest
        → from_be a b c d ≤ max
        → from_be a b c d ≤ length rest
        → r ≡ (
          inflated (zlib_decompress z (take (from_be a b c d) rest) max),
          drop (from_be a b c d) rest,
        )
        → Shape src r

  window-Shape :
      (body : Bytes)
      → let src = protocol_version ∷ type_window ∷ body in
        Shape src (decode_body z max type_window src)
  unfolding decode_body
  window-Shape body = elim (word-cases body) [
    | inl few ↦ part type_window body refl (inl refl) few (decode_window_part z max _ _ body few)
    | inr (a, b, c, d, rest, e) ↦
        rw e (window_whole a b c d rest refl (decode_window_whole z max _ _ a b c d rest))
  ]

  ack-Shape :
      (body : Bytes)
      → let src = protocol_version ∷ type_ack ∷ body in Shape src (decode_body z max type_ack src)
  unfolding decode_body
  ack-Shape body = elim (word-cases body) [
    | inl few ↦ part type_ack body refl (inr (inl refl)) few (decode_ack_part z max _ _ body few)
    | inr (a, b, c, d, rest, e) ↦
        rw e (ack_whole a b c d rest refl (decode_ack_whole z max _ _ a b c d rest))
  ]

  json_buffer-Shape :
      (s₀ s₁ s₂ s₃ a b c d : ℕ) (rest : Bytes)
      → let src = json_buffer s₀ s₁ s₂ s₃ a b c d rest in
        Shape src (decode_body z max type_json src)
  unfolding decode_body
  json_buffer-Shape s₀ s₁ s₂ s₃ a b c d rest = elim (lt_or_le max (from_be a b c d)) [
    | inl large ↦
        json_large s₀ s₁ s₂ s₃ a b c d rest refl large
          (decode_json_large z max s₀ s₁ s₂ s₃ a b c d rest large)
    | inr small ↦ elim (lt_or_le (length rest) (from_be a b c d)) [
      | inl few ↦
          json_part s₀ s₁ s₂ s₃ a b c d rest refl small few
            (decode_json_part z max s₀ s₁ s₂ s₃ a b c d rest small few)
      | inr there ↦
          json_whole s₀ s₁ s₂ s₃ a b c d rest refl small there
            (decode_json_whole z max s₀ s₁ s₂ s₃ a b c d rest small there)
    ]
  ]

  json-Shape :
      (body : Bytes)
      → let src = protocol_version ∷ type_json ∷ body in Shape src (decode_body z max type_json src)
  json-Shape body = elim (lt_or_le (length body) 8) [
    | inl few ↦ json_head body refl few (unfold decode_body in decode_json_head z max _ _ body few)
    | inr there ↦
        let (s₀, s₁, s₂, s₃, a, b, c, d, rest, e) = two_words body there in
        rw e (json_buffer-Shape s₀ s₁ s₂ s₃ a b c d rest)
  ]

  compressed_buffer-Shape :
      (a b c d : ℕ) (rest : Bytes)
      → let src = compressed_buffer a b c d rest in
        Shape src (decode_body z max type_compressed src)
  unfolding decode_body
  compressed_buffer-Shape a b c d rest = elim (lt_or_le max (from_be a b c d)) [
    | inl large ↦
        compressed_large a b c d rest refl large (decode_compressed_large z max a b c d rest large)
    | inr small ↦ elim (lt_or_le (length rest) (from_be a b c d)) [
      | inl few ↦
          compressed_part a b c d rest refl small few
            (decode_compressed_part z max a b c d rest small few)
      | inr there ↦
          compressed_whole a b c d rest refl small there
            (decode_compressed_whole z max a b c d rest small there)
    ]
  ]

  compressed-Shape :
      (body : Bytes)
      → let src = protocol_version ∷ type_compressed ∷ body in
        Shape src (decode_body z max type_compressed src)
  unfolding decode_body
  compressed-Shape body = elim (word-cases body) [
    | inl few ↦
        part type_compressed body refl (inr (inr refl)) few
          (decode_compressed_head z max _ _ body few)
    | inr (a, b, c, d, rest, e) ↦ rw e (compressed_buffer-Shape a b c d rest)
  ]

  body-Shape :
      (t : ℕ) (body : Bytes)
      → let src = protocol_version ∷ t ∷ body in Shape src (decode_body z max t src)
  body-Shape t body = elim (ℕ_discrete t type_window) [
    | yes e ↦ rw e (window-Shape body)
    | no not_window ↦ elim (ℕ_discrete t type_json) [
      | yes e ↦ rw e (json-Shape body)
      | no not_json ↦ elim (ℕ_discrete t type_ack) [
        | yes e ↦ rw e (ack-Shape body)
        | no not_ack ↦ elim (ℕ_discrete t type_compressed) [
          | yes e ↦ rw e (compressed-Shape body)
          | no not_compressed ↦
              bad_type t body refl not_window not_json not_ack not_compressed
                (decode_body_unknown z max t _ not_window not_json not_ack not_compressed)
        ]
      ]
    ]
  ]

  -- Every buffer has its row in the table.
  pub decode-Shape : (src : Bytes) → Shape src (decode_with_limit z max src)
  decode-Shape [] = short (omega arith) (decode_short z max [] (omega arith))
  decode-Shape (v ∷ []) = short (omega arith) (decode_short z max (v ∷ []) (omega arith))
  decode-Shape (v ∷ t ∷ body) = elim (ℕ_discrete v protocol_version) [
    | yes e ↦ rw (e, decode_good_version z max t body) (body-Shape t body)
    | no other ↦ bad_version v t body refl other (decode_bad_version z max v t body other)
  ]
