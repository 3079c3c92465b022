-- ===== src/Server/Connection/Ends.antt =====
-- src/server.rs: `run_connection` comes to an end when its stream does.
use lumberjack_protocol.Server.Connection.Trace.{Grew, IsSized, IsDone, keepalives}
use lumberjack_protocol.Base.{
  true, false, All, length, Option, List, ℕ, suc, ◌≤◌, Bool, arith, ◌<◌, zero, some, ◌∷◌, [], ◌++◌,
  ap, none, inl, inr,
}
use lumberjack_protocol.Frame.Flate.{Zlib}
use lumberjack_protocol.Error.{
  Result, M, Ensures, Returns, bind, ok, lift, err, panics, hangs, ◌>>=◌,
}
use lumberjack_protocol.Server.Connection.{
  ConnectionConfig, Conn, go_on, next_of, round, serve, run_connection, Batch, next, Item, settle,
  expect_window, Frame, fill, new, sender, ack,
}
use lumberjack_protocol.Server.Connection.Settled.{Settled, settle-Settled}
use lumberjack_protocol.Server.Connection.Replies.{IsSizedWindow, fill-quiet, expect_window-IsSized}

Returns-bind :
    {A B : Type 0} {Q : A → Type 0} (r : Result A × Conn) (f : A → M Conn B)
    → Ensures Q r.0
    → ((a : A) → Q a → Returns (f a r.1).0)
    → Returns (bind r f).0
Returns-bind (ok a, t) f h k = k a h
Returns-bind (err e, t) f h k = tt
Returns-bind (panics, t) f h k = h
Returns-bind (hangs, t) f h k = h

module _ (z : Zlib) (cfg : ConnectionConfig) where
  -- The windows are 32 bits wide, the consumer will answer once for each frame, and no write stalls.
  abbrev IsCovered : Conn → Type 0
  IsCovered s =
      All IsSized s.incoming × (length s.incoming ≤ length s.consumer) × All IsDone s.faults

  settle-Returns :
      (b : Batch) {s : Conn} (r : Result Bool × Conn) (then : M Conn (Unit {0}))
      → Settled z b s r
      → 0 < length s.consumer
      → All IsDone s.faults
      → ((t : Conn) (fs : List Frame) → Grew z s (b ∷ []) fs t → Returns (then t).0)
      → Returns (bind r (go_on then)).0
  unfolding go_on
  settle-Returns b (ok true, t) then (n, g) h done k = k t (keepalives n ++ ack b.last_seq ∷ []) g
  settle-Returns b (ok false, t) then g h done k = tt
  settle-Returns b (err e, t) then g h done k = tt
  settle-Returns b (panics, t) then g h done k = g
  settle-Returns b (hangs, t) then (fs, replies, g, why) h done k = elim why [
    | inl e ↦ absurd (omega (arith, ap length e))
    | inr stuck ↦ absurd (stuck done)
  ]

  -- A round on a window, with a frame more in the consumer's script than in the stream.
  round-Returns :
      (then : M Conn (Unit {0})) (begun : Option ℕ) (s : Conn)
      → IsSizedWindow z begun
      → All IsSized s.incoming
      → length s.incoming < length s.consumer
      → All IsDone s.faults
      → ((t : Conn) → IsCovered t → length t.incoming ≤ length s.incoming → Returns (then t).0)
      → Returns (round z cfg then begun s).0
  unfolding round
  round-Returns then none s h sized more done k = tt
  round-Returns then (some size) s h sized more done k =
      let (left, filled) = fill-quiet z cfg size s h in
      Returns-bind (fill z cfg size s) _ filled λ p full.
        settle-Returns (new p.events p.last_seq sender) (settle z cfg p (fill z cfg size s).1) then
          (settle-Settled z cfg p (fill z cfg size s).1) (omega (arith, left.spent))
          (left.unstalled done)
          (λ t fs g.
            k t
              (
                g.sized (left.sized sized),
                omega (arith, g.spent, g.shrinks, left.spent, left.shrinks),
                g.unstalled (left.unstalled done),
              )
              (omega (arith, g.shrinks, left.shrinks)))

  begin-Returns :
      (then : M Conn (Unit {0})) (items : List Item) (s : Conn)
      → All IsSized items
      → length items ≤ length s.consumer
      → All IsDone s.faults
      → ((t : Conn) → IsCovered t → length t.incoming < length items → Returns (then t).0)
      → Returns (bind (next_of items s) λ first. lift (expect_window first) >>= round z cfg then).0
  unfolding next_of
  begin-Returns then [] s sized more done k = unfold expect_window round in tt
  begin-Returns then (item ∷ rest) s sized more done k =
      Returns-bind (expect_window (some item), record s { incoming = rest }) (round z cfg then)
        (expect_window-IsSized z (some item) sized.0)
        (λ begun h.
          round-Returns then begun (record s { incoming = rest }) h sized.1 (omega arith) done
            (λ t covered fewer. k t covered (omega arith)))

  serve-Returns :
      (fuel : ℕ) (s : Conn)
      → IsCovered s
      → length s.incoming < fuel
      → Returns (serve z cfg fuel s).0
  unfolding serve next
  serve-Returns zero s covered enough = absurd (omega arith)
  serve-Returns (suc fuel) s (sized, covered, done) enough =
      begin-Returns (serve z cfg fuel) s.incoming s sized covered done
        (λ t covered' fewer. serve-Returns fuel t covered' (omega arith))

  -- If the stream of the peer ends, with windows that are 32 bits wide, the consumer will answer as
  -- many batches as there are frames, and no write stalls for ever, then `run_connection` comes to
  -- an end, with a value or an error of the crate, whichever writes fail.
  pub run_connection-Returns : (s : Conn) → IsCovered s → Returns (run_connection z cfg s).0
  unfolding run_connection
  run_connection-Returns s covered = serve-Returns (suc (length s.incoming)) s covered (omega arith)
