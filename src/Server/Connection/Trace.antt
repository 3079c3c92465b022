-- ===== src/Server/Connection/Trace.antt =====
-- src/server.rs: what a connection writes, against the batches that it hands over.
use lumberjack_protocol.Server.Connection.{Conn, Zlib, Fault, fails, stalls}
use lumberjack_protocol.Codec.{encode_all, Item, arrived, broken}
use lumberjack_protocol.Frame
use lumberjack_protocol.Frame.{Frame, window, json, compressed, ack}
use lumberjack_protocol.Server.Batch.{Batch}
use lumberjack_protocol.Base.{
  refl, ℕ, List, ◌≡◌, ◌++◌, [], ◌∙◌, ◌∷◌, suc, sym, append_assoc, zero, Option, append-nil, String,
  some, All, ap, Bytes, none, IsU32, length, arith, length-append, ◌≤◌, ◌+◌, inl, ◌⊎◌, subst,
}
use lumberjack_protocol.Error.{Error, io}

pub encode_all-append :
    (z : Zlib) (fs gs : List Frame) → encode_all z (fs ++ gs) ≡ encode_all z fs ++ encode_all z gs
encode_all-append z [] gs = refl
encode_all-append z (f ∷ fs) gs =
    rw (encode_all-append z fs gs)
      (sym (append_assoc (Frame.encode z f []) (encode_all z fs) (encode_all z gs)))

abbrev pub keepalives : ℕ → List Frame
keepalives zero = []
keepalives (suc n) = ack 0 ∷ keepalives n

-- The replies to the batches of a connection, in their order: any number of `Ack(0)`, then the
-- last sequence number of the batch. Only the last batch can be without its acknowledgement.
pub data Replies : List Batch → List Frame → Type 0 where
  none_yet : Replies [] []
  unanswered : (b : Batch) (n : ℕ) → Replies (b ∷ []) (keepalives n)
  answered :
      (b : Batch) (n : ℕ) {bs : List Batch} {fs : List Frame}
      → Replies bs fs
      → Replies (b ∷ bs) (keepalives n ++ ack b.last_seq ∷ fs)

-- The size of a window comes off the wire as 32 bits.
abbrev pub IsSized : Item → Type 0
IsSized (arrived (window n)) = IsU32 n
IsSized (arrived (json seq payload)) = Unit
IsSized (arrived (compressed inner)) = Unit
IsSized (arrived (ack seq)) = Unit
IsSized (broken e) = Unit

-- The write is done, or fails.
abbrev pub IsDone : Option Fault → Type 0
IsDone none = Unit
IsDone (some (fails m k)) = Unit
IsDone (some (stalls k)) = ⊥

-- Some write stalls.
abbrev pub Stuck : Conn → Type 0
Stuck s = All IsDone s.faults → ⊥

abbrev pub IsIo : Error → Type 0
IsIo e = (m : String) × (e ≡ io m)

module _ (z : Zlib) where
  -- Between two states these batches went out, and these frames were written.
  pub record Grew (s : Conn) (bs : List Batch) (fs : List Frame) (s' : Conn) : Type 0 where
    pub batches : s'.delivered ≡ s.delivered ++ bs
    pub frames : s'.wire ≡ s.wire ++ encode_all z fs
    pub sized : All IsSized s.incoming → All IsSized s'.incoming
    pub shrinks : length s'.incoming ≤ length s.incoming
    pub spent : length s.consumer ≤ length s'.consumer + length bs
    pub unstalled : All IsDone s.faults → All IsDone s'.faults

  pub Grew-quiet :
      (s s' : Conn)
      → s'.delivered ≡ s.delivered
      → s'.wire ≡ s.wire
      → s'.consumer ≡ s.consumer
      → s'.faults ≡ s.faults
      → (All IsSized s.incoming → All IsSized s'.incoming)
      → length s'.incoming ≤ length s.incoming
      → Grew s [] [] s'
  Grew-quiet s s' h k same same' sized shrinks = record {
    batches = h ∙ sym (append-nil _);
    frames = k ∙ sym (append-nil _);
    sized = sized;
    shrinks = shrinks;
    spent = omega (arith, ap length same);
    unstalled = λ a. subst (All IsDone) (sym same') a;
  }

  pub Grew-trans :
      {s t u : Conn} {bs cs : List Batch} {fs gs : List Frame}
      → Grew s bs fs t
      → Grew t cs gs u
      → Grew s (bs ++ cs) (fs ++ gs) u
  Grew-trans {s} {t} {u} {bs} {cs} {fs} {gs} g h = record {
    batches = h.batches ∙ rw g.batches (append_assoc s.delivered bs cs);
    frames =
        h.frames
        ∙ rw (g.frames, encode_all-append z fs gs)
            (append_assoc s.wire (encode_all z fs) (encode_all z gs));
    sized = λ a. h.sized (g.sized a);
    shrinks = omega (arith, g.shrinks, h.shrinks);
    spent = omega (arith, g.spent, h.spent, length-append bs cs);
    unstalled = λ a. h.unstalled (g.unstalled a);
  }

  -- So with a last frame that may be cut, for this reason; `missing` is what is missing of it.
  pub record Torn (why : Type 0) (s : Conn) (bs : List Batch) (fs : List Frame) (s' : Conn)
      : Type 0 where
    pub missing : Bytes
    pub batches : s'.delivered ≡ s.delivered ++ bs
    pub frames : s'.wire ++ missing ≡ s.wire ++ encode_all z fs
    pub short : length missing ≤ 6
    pub blame : (missing ≡ []) ⊎ why

  pub Torn-whole :
      {why : Type 0} {s t : Conn} {bs : List Batch} {fs : List Frame}
      → Grew s bs fs t
      → Torn why s bs fs t
  Torn-whole {t = t} g = record {
    missing = [];
    batches = g.batches;
    frames = append-nil t.wire ∙ g.frames;
    short = omega arith;
    blame = inl refl;
  }

  pub Grew-Torn :
      {why : Type 0} {s t u : Conn} {bs cs : List Batch} {fs gs : List Frame}
      → Grew s bs fs t
      → Torn why t cs gs u
      → Torn why s (bs ++ cs) (fs ++ gs) u
  Grew-Torn {s = s} {bs = bs} {cs = cs} {fs = fs} {gs = gs} g h = record {
    missing = h.missing;
    batches = h.batches ∙ rw g.batches (append_assoc s.delivered bs cs);
    frames =
        h.frames
        ∙ rw (g.frames, encode_all-append z fs gs)
            (append_assoc s.wire (encode_all z fs) (encode_all z gs));
    short = h.short;
    blame = h.blame;
  }
