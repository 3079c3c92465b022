-- ===== src/Frame/Flate.antt =====
-- flate2, which src/frame.rs calls: an interface, and what its documentation promises.
use lumberjack_protocol.Base.{refl, ℕ, String, ◌≡◌, [], ◌∷◌, ◌++◌, Bytes, ◌⊎◌, inr, inl}

-- What `read(&mut chunk)` gives: the bytes that it put at the front of the chunk and the reader
-- after it, or an error, given by its text.
pub data Chunk (D : Type 0) : Type 0 where
  filled : Bytes → D → Chunk D
  corrupt : String → Chunk D

pub Chunk-cases :
    {D : Type 0} (c : Chunk D)
    → ((m : String) × (c ≡ corrupt m)) ⊎ ((bytes : Bytes) × (d : D) × (c ≡ filled bytes d))
Chunk-cases (filled bytes d) = inr (bytes, d, refl)
Chunk-cases (corrupt m) = inl (m, refl)

-- `compress level input` is a `ZlibEncoder` of that level over a `Vec`, given the whole input and
-- finished; `open_decoder` is `ZlibDecoder::new`, and `read d n` reads into a chunk of `n` bytes.
pub record Zlib : Type 1 where
  pub Decoder : Type 0
  pub compress : ℕ → Bytes → Bytes
  pub open_decoder : Bytes → Decoder
  pub read : Decoder → ℕ → Chunk Decoder

pub read-cases :
    (z : Zlib) (d : z.Decoder) (n : ℕ)
    → ((m : String) × (z.read d n ≡ corrupt m))
      ⊎ ((bytes : Bytes) × (d' : z.Decoder) × (z.read d n ≡ filled bytes d'))
read-cases z d n = Chunk-cases (z.read d n)

module _ (z : Zlib) (chunk : ℕ) where
  -- Read chunk by chunk, the decoder yields exactly these bytes and then reports the end.
  pub data Yields : z.Decoder → Bytes → Type 0 where
    end : {d d' : z.Decoder} → z.read d chunk ≡ filled [] d' → Yields d []
    more :
        {d d' : z.Decoder} (b : ℕ) (bs out : Bytes)
        → z.read d chunk ≡ filled (b ∷ bs) d'
        → Yields d' out
        → Yields d ((b ∷ bs) ++ out)

-- The documented law of the library: what it compressed, it decompresses.
abbrev pub Inverts : Zlib → ℕ → Type 0
Inverts z chunk = (level : ℕ) (x : Bytes) → Yields z chunk (z.open_decoder (z.compress level x)) x
