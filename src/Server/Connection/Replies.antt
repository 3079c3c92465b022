-- ===== src/Server/Connection/Replies.antt =====
-- src/server.rs: `run_connection` acknowledges what it handed over, and nothing else.
use lumberjack_protocol.Server.Connection.Trace.{
  Grew, Torn, Torn-whole, Grew-Torn, IsIo, Replies, IsSized, keepalives, Grew-trans, Grew-quiet,
  none_yet, answered,
}
use lumberjack_protocol.Server.Connection.Settled.{IsDeliverable, Settled, settle-Settled}
use lumberjack_protocol.Server.Progress.Invariant.{
  IsFull, collect-All, collect-IsFull, start-IsFilling, length-collect,
}
use lumberjack_protocol.Server.Batch.{Batch, new, sender}
use lumberjack_protocol.Frame.Flate.{Zlib}
use lumberjack_protocol.Base.{
  length, List, ℕ, ◌≤◌, ◌≡◌, Bool, ◌∷◌, [], ◌++◌, true, false, subst, refl, append_assoc, All,
  Option, IsU32, some, none, suc, zero, arith, ap,
}
use lumberjack_protocol.Server.Connection.{
  Conn, Result, ok, ack, err, settle, ConnectionConfig, Progress, Frame, expect_window, next, fill,
  Item, next_of, arrived, start, window, json, compressed, broken, serve, go_on, run_connection,
  round,
}
use lumberjack_protocol.Error.{panics, hangs, bind, M, Ensures}

module _ (z : Zlib) where
  -- What was handed over and written up to the end: whole frames, but for the last one if a write
  -- failed or stalls.
  abbrev pub Left : Result (Unit {0}) → Conn → List Batch → List Frame → Conn → Type 0
  Left (ok _) s bs fs t = Grew z s bs fs t
  Left (err e) s bs fs t = Torn z (IsIo e) s bs fs t
  Left panics s bs fs t = Grew z s bs fs t
  Left hangs s bs fs t = Torn z Unit s bs fs t

  -- The batches and the replies of a connection, from a state to its end.
  abbrev pub Served : Conn → Result (Unit {0}) × Conn → Type 0
  Served s (r, t) =
      (bs : List Batch) × (fs : List Frame) × Left r s bs fs t
      × Replies bs fs
      × All IsDeliverable bs

  Left-whole :
      {s t : Conn} {bs : List Batch} {fs : List Frame} (r : Result (Unit {0}))
      → Grew z s bs fs t
      → Left r s bs fs t
  Left-whole (ok _) g = g
  Left-whole (err e) g = Torn-whole z g
  Left-whole panics g = g
  Left-whole hangs g = Torn-whole z g

  Grew-Left :
      {s t : Conn} {bs : List Batch} {fs : List Frame} (r : Result (Unit {0})) (cs : List Batch)
      (gs : List Frame) (u : Conn)
      → Grew z s bs fs t
      → Left r t cs gs u
      → Left r s (bs ++ cs) (fs ++ gs) u
  Grew-Left (ok _) cs gs u g h = Grew-trans z g h
  Grew-Left (err e) cs gs u g h = Grew-Torn z g h
  Grew-Left panics cs gs u g h = Grew-trans z g h
  Grew-Left hangs cs gs u g h = Grew-Torn z g h

  shift : {s t : Conn} (r : Result (Unit {0}) × Conn) → Grew z s [] [] t → Served t r → Served s r
  shift (r, u) g (bs, fs, h, replies, good) = (bs, fs, Grew-Left r bs fs u g h, replies, good)

  quiet : {s t : Conn} (r : Result (Unit {0})) → Grew z s [] [] t → Served s (r, t)
  quiet r g = ([], [], Left-whole r g, none_yet, tt)

  quiet-bind :
      {A : Type 0} {Q : A → Type 0} {s : Conn} (r : Result A × Conn) (f : A → M Conn (Unit {0}))
      → Grew z s [] [] r.1
      → Ensures Q r.0
      → ((a : A) → Q a → Served r.1 (f a r.1))
      → Served s (bind r f)
  quiet-bind (ok a, t) f g h k = shift (f a t) g (k a h)
  quiet-bind (err e, t) f g h k = quiet (err e) g
  quiet-bind (panics, t) f g h k = quiet panics g
  quiet-bind (hangs, t) f g h k = quiet hangs g

  settle-bind :
      (b : Batch) (s : Conn) (r : Result Bool × Conn) (f : Bool → M Conn (Unit {0}))
      → IsDeliverable b
      → Settled z b s r
      → ((t : Conn) → (All IsSized s.incoming → All IsSized t.incoming) → Served t (f true t))
      → ((t : Conn) → f false t ≡ (ok tt, t))
      → Served s (bind r f)
  settle-bind b s (ok true, t) f good (n, g) k l =
      let (bs, fs, h, replies, goods) = k t g.sized in
      (
        b ∷ bs,
        keepalives n ++ ack b.last_seq ∷ fs,
        subst (λ gs. Left (f true t).0 s (b ∷ bs) gs (f true t).1)
            (append_assoc (keepalives n) (ack b.last_seq ∷ []) fs)
            (Grew-Left (f true t).0 bs fs (f true t).1 g h),
        answered b n replies,
        (good, goods),
      )
  settle-bind b s (ok false, t) f good g k l = rw (l t) (quiet (ok tt) g)
  settle-bind b s (err e, t) f good (fs, replies, g) k l = (b ∷ [], fs, g, replies, (good, tt))
  settle-bind b s (panics, t) f good g k l = absurd g
  settle-bind b s (hangs, t) f good (fs, replies, g, _) k l = (b ∷ [], fs, g, replies, (good, tt))

  abbrev IsSizedNext : Option Item → Type 0
  IsSizedNext none = Unit
  IsSizedNext (some item) = IsSized item

  next-quiet :
      (s : Conn)
      → All IsSized s.incoming
      → Grew z s [] [] (next s).1 × Ensures IsSizedNext (next s).0
  unfolding next
  next-quiet s h = on_items s.incoming refl h
    where
      on_items :
          (items : List Item)
          → s.incoming ≡ items
          → All IsSized items
          → Grew z s [] [] (next_of items s).1 × Ensures IsSizedNext (next_of items s).0
      on_items [] e h = (Grew-quiet z s s refl refl refl refl (λ a. a) (omega arith), tt)
      on_items (item ∷ rest) e h =
          (Grew-quiet z s _ refl refl refl refl (λ _. h.1) (omega (arith, ap length e)), h.0)

  abbrev pub IsSizedWindow : Option ℕ → Type 0
  IsSizedWindow none = Unit
  IsSizedWindow (some n) = IsU32 n

  pub expect_window-IsSized :
      (item : Option Item) → IsSizedNext item → Ensures IsSizedWindow (expect_window item)
  unfolding expect_window
  expect_window-IsSized none h = tt
  expect_window-IsSized (some (arrived (window n))) h = h
  expect_window-IsSized (some (arrived (json seq payload))) h = tt
  expect_window-IsSized (some (arrived (compressed inner))) h = tt
  expect_window-IsSized (some (arrived (ack seq))) h = tt
  expect_window-IsSized (some (broken e)) h = tt

  pub fill-quiet :
      (cfg : ConnectionConfig) (size : ℕ) (s : Conn)
      → IsU32 size
      → Grew z s [] [] (fill z cfg size s).1 × Ensures (IsFull size) (fill z cfg size s).0
  unfolding fill
  fill-quiet cfg size s h = (
    Grew-quiet z s _ refl refl refl refl
        (collect-All IsSized z cfg.max_frame_size size start s.incoming)
        (length-collect z cfg.max_frame_size size start s.incoming),
    collect-IsFull z cfg.max_frame_size size h start s.incoming (start-IsFilling size),
  )

  go_on-Served :
      (p : Progress) (s : Conn) (cfg : ConnectionConfig) (then : M Conn (Unit {0}))
      → length p.events ≤ p.last_seq
      → ((t : Conn) → (All IsSized s.incoming → All IsSized t.incoming) → Served t (then t))
      → Served s (bind (settle z cfg p s) (go_on then))
  unfolding go_on
  go_on-Served p s cfg then good k =
      settle-bind (new p.events p.last_seq sender) s (settle z cfg p s) (go_on then)
        (unfold new in good) (settle-Settled z cfg p s) k (λ t. refl)

  round-Served :
      (cfg : ConnectionConfig) (then : M Conn (Unit {0})) (begun : Option ℕ) (s : Conn)
      → IsSizedWindow begun
      → All IsSized s.incoming
      → ((t : Conn) → All IsSized t.incoming → Served t (then t))
      → Served s (round z cfg then begun s)
  unfolding round
  round-Served cfg then none s h sized k =
      quiet (ok tt) (Grew-quiet z s s refl refl refl refl (λ a. a) (omega arith))
  round-Served cfg then (some size) s h sized k =
      let (left, filled) = fill-quiet cfg size s h in
      quiet-bind (fill z cfg size s) _ left filled λ p full.
        go_on-Served p (fill z cfg size s).1 cfg then (omega arith)
          (λ t keeps. k t (keeps (left.sized sized)))

  serve-Served :
      (cfg : ConnectionConfig) (fuel : ℕ) (s : Conn)
      → All IsSized s.incoming
      → Served s (serve z cfg fuel s)
  unfolding serve
  serve-Served cfg zero s h =
      quiet hangs (Grew-quiet z s s refl refl refl refl (λ a. a) (omega arith))
  serve-Served cfg (suc fuel) s h =
      let (seen, item_sized) = next-quiet s h in
      quiet-bind (next s) _ seen item_sized λ first first_sized.
        quiet-bind (expect_window first, (next s).1) _
          (Grew-quiet z (next s).1 (next s).1 refl refl refl refl (λ a. a) (omega arith))
          (expect_window-IsSized first first_sized)
          (λ begun begun_sized.
            round-Served cfg (serve z cfg fuel) begun (next s).1 begun_sized (seen.sized h)
              (λ t. serve-Served cfg fuel t))

  -- Whatever the peer sends (the windows being 32 bits wide), whatever the consumer does and
  -- whichever writes fail or stall, after however many bytes: what a connection writes is, for the
  -- batches that it handed over and in their order, any number of `Ack(0)` and then the last
  -- sequence number of the batch. These are whole frames, but that a write which failed or stalls
  -- can leave out the end of the last one; the connection then ended with the I/O error of that
  -- write, or still hangs. Only the last batch can be without its acknowledgement, and no batch has
  -- more events than its last sequence number says.
  pub run_connection-Replies :
      (cfg : ConnectionConfig) (s : Conn)
      → All IsSized s.incoming
      → Served s (run_connection z cfg s)
  unfolding run_connection
  run_connection-Replies cfg s h = serve-Served cfg (suc (length s.incoming)) s h
