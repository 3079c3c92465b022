-- ===== src/Server/Connection/Settled.antt =====
-- src/server.rs: what a round of `run_connection` writes once its batch is made.
use lumberjack_protocol.Server.Connection.Trace.{
  Grew, Torn, Grew-Torn, Torn-whole, IsIo, Stuck, Replies, none_yet, unanswered, answered,
  keepalives, Grew-trans, Grew-quiet,
}
use lumberjack_protocol.Server.Connection.Writes.{Sent, send-Sent, Waited, wait_ack-Waited}
use lumberjack_protocol.Server.Batch.{Batch, Usage, consume, new, sender, consume-once}
use lumberjack_protocol.Frame.Flate.{Zlib}
use lumberjack_protocol.Base.{
  length, List, ℕ, Bytes, ◌≤◌, ◌≡◌, Bool, ◌∷◌, [], ◌++◌, true, false, subst, append-nil, sym, refl,
  arith, ◌+◌, ap, inl, ◌⊎◌, inr,
}
use lumberjack_protocol.Server.Connection.{
  Conn, LumberjackCodec, Result, acked, ok, ack, err, hand_over, settle, ConnectionConfig, reply,
  Progress, Reaction, Frame, answers, with_max_frame_size, wait_ack, gone, send,
}
use lumberjack_protocol.Error.{panics, hangs, bind, ◌>>=◌, return}

-- A batch that `run_connection` makes holds no more events than its last sequence number says.
abbrev pub IsDeliverable : Batch → Type 0
IsDeliverable b = length b.events ≤ b.last_seq

pub acked-new :
    (u : Usage) (events : List Bytes) (last_seq : ℕ)
    → acked last_seq (consume u (new events last_seq sender) []) ≡ last_seq
acked-new u events last_seq = rw (consume-once u events last_seq sender)

module _ (z : Zlib) where
  -- What a round came to, once its batch was made.
  abbrev pub Settled : Batch → Conn → Result Bool × Conn → Type 0
  Settled b s (ok true, s') = (n : ℕ) × Grew z s (b ∷ []) (keepalives n ++ ack b.last_seq ∷ []) s'
  Settled b s (ok false, s') = Grew z s [] [] s'
  Settled b s (err e, s') =
      (fs : List Frame) × Replies (b ∷ []) fs × Torn z (IsIo e) s (b ∷ []) fs s'
  Settled b s (panics, s') = ⊥
  Settled b s (hangs, s') =
      (fs : List Frame) × Replies (b ∷ []) fs
      × Torn z Unit s (b ∷ []) fs s'
      × ((s.consumer ≡ []) ⊎ Stuck s)

  after_last :
      (b : Batch) (seq n : ℕ) {s t : Conn} (r : Result (Unit {0}) × Conn)
      → seq ≡ b.last_seq
      → Grew z s (b ∷ []) (keepalives n) t
      → Sent z seq t r
      → Settled b s (bind r (λ _. return true))
  after_last b seq n {s} (ok _, u) same g k =
      (n, subst (λ m. Grew z s (b ∷ []) (keepalives n ++ ack m ∷ []) u) same (Grew-trans z g k))
  after_last b seq n {s} (err e, u) same g k = (
    keepalives n ++ ack b.last_seq ∷ [],
    answered b n none_yet,
    subst (λ m. Torn z (IsIo e) s (b ∷ []) (keepalives n ++ ack m ∷ []) u) same (Grew-Torn z g k),
  )
  after_last b seq n (panics, u) same g k = k
  after_last b seq n {s} (hangs, u) same g (k, stuck) = (
    keepalives n ++ ack b.last_seq ∷ [],
    answered b n none_yet,
    subst (λ m. Torn z Unit s (b ∷ []) (keepalives n ++ ack m ∷ []) u) same (Grew-Torn z g k),
    inr (λ a. stuck (g.unstalled a)),
  )

  after_wait :
      (b : Batch) (seq : ℕ) {s t : Conn} (codec : LumberjackCodec) (r : Result (Unit {0}) × Conn)
      → seq ≡ b.last_seq
      → Grew z s (b ∷ []) [] t
      → Waited z t r
      → Settled b s (bind r λ _. send z codec (ack seq) >>= λ _. return true)
  after_wait b seq codec (ok _, u) same g (n, h) =
      after_last b seq n (send z codec (ack seq) u) same (Grew-trans z g h)
        (send-Sent z codec seq u)
  after_wait b seq codec (err e, u) same g (n, h) = (keepalives n, unanswered b n, Grew-Torn z g h)
  after_wait b seq codec (panics, u) same g h = h
  after_wait b seq codec (hangs, u) same g (n, h, stuck) =
      (keepalives n, unanswered b n, Grew-Torn z g h, inr (λ a. stuck (g.unstalled a)))

  handed :
      {b : Batch} (s : Conn) (rest : List Reaction)
      → length s.consumer ≤ length rest + 1
      → Grew z s (b ∷ []) [] (record s { consumer = rest; delivered = s.delivered ++ b ∷ [] })
  handed s rest h = record {
    batches = refl;
    frames = sym (append-nil _);
    sized = λ a. a;
    shrinks = omega arith;
    spent = omega arith;
    unstalled = λ a. a;
  }

  hand_over-Settled :
      (cfg : ConnectionConfig) (events : List Bytes) (last_seq : ℕ) (reactions : List Reaction)
      (s : Conn)
      → s.consumer ≡ reactions
      → let b = new events last_seq sender in
        Settled b s (bind (hand_over reactions b s) (reply z cfg b))
  unfolding hand_over reply new
  hand_over-Settled cfg events last_seq [] s h =
      let b = new events last_seq sender in
      ([], unanswered b 0, Torn-whole z (handed s [] (omega (arith, ap length h))), inl h)
  hand_over-Settled cfg events last_seq (gone ∷ rest) s h =
      Grew-quiet z s _ refl refl refl refl (λ a. a) (omega arith)
  hand_over-Settled cfg events last_seq (answers ticks usage ∷ rest) s h =
      after_wait _ _ (with_max_frame_size cfg.max_frame_size)
        (wait_ack z (with_max_frame_size cfg.max_frame_size) cfg.keepalive ticks _)
        (acked-new usage events last_seq) (handed s rest (omega (arith, ap length h)))
        (wait_ack-Waited z (with_max_frame_size cfg.max_frame_size) cfg.keepalive ticks _)

  pub settle-Settled :
      (cfg : ConnectionConfig) (p : Progress) (s : Conn)
      → Settled (new p.events p.last_seq sender) s (settle z cfg p s)
  unfolding settle
  settle-Settled cfg p s = hand_over-Settled cfg p.events p.last_seq s.consumer s refl
