-- ===== src/Server/Connection.antt =====
-- src/server.rs: `run_connection`, one connection from its first byte to its end.
pub mod Trace
pub mod Writes
pub mod Settled
pub mod Replies
pub mod Ends
pub mod Session
pub mod Faults
pub mod Origin
mod UnitTests
use lumberjack_protocol.Server.Batch.{Batch, Usage, Channel, Sender, sender, consume, new}
use lumberjack_protocol.Server.Progress.{Progress, start, collect}
use lumberjack_protocol.Codec.{LumberjackCodec, with_max_frame_size, Framed, Item, arrived, broken}
use lumberjack_protocol.Codec
use lumberjack_protocol.Base.{
  refl, Option, List, ℕ, String, Bytes, some, none, ◌∷◌, [], Bool, suc, length, ◌++◌, false, zero,
  true, take,
}
use lumberjack_protocol.Frame.Flate.{Zlib}
use lumberjack_protocol.Error.{
  M, Result, ok, bind, err, io, unexpected_frame, hang, hangs, return, ◌>>=◌, lift,
}
use lumberjack_protocol.Frame.{Frame, window, json, compressed, ack}

-- The interval is a number of milliseconds.
pub record ConnectionConfig : Type 0 where
  pub max_frame_size : ℕ
  pub keepalive : Option ℕ

-- What the holder of the receiver does with the next batch: it has dropped the receiver, or it is
-- done with the batch after that many whole keepalive intervals.
pub data Reaction : Type 0 where
  gone : Reaction
  answers : ℕ → Usage → Reaction

-- A write that fails, with the text of its I/O error, or that never gets done, since the peer makes
-- no room for it; and how many bytes of the frame are out by then.
pub data Fault : Type 0 where
  fails : String → ℕ → Fault
  stalls : ℕ → Fault

-- The connection and what surrounds it. `incoming` is what `framed.next()` gives, to the end of
-- the stream; `consumer` is how the batches fare, and a batch beyond it is held for ever; `faults`
-- says which of the writes to come are not done, and beyond it all writes succeed. `wire` is what was
-- written, `delivered` the batches that went through the channel.
pub record Conn : Type 0 where
  pub incoming : List Item
  pub consumer : List Reaction
  pub faults : List (Option Fault)
  pub wire : Bytes
  pub delivered : List Batch

-- `framed.next().await`
pub next_of : List Item → M Conn (Option Item)
next_of [] s = (ok none, s)
next_of (item ∷ rest) s = (ok (some item), record s { incoming = rest })

pub next : M Conn (Option Item)
unfolding next_of
next s = next_of s.incoming s

write : Option Fault → List (Option Fault) → Bytes → M Conn (Unit {0})
write none rest bytes s = (ok tt, record s { faults = rest; wire = s.wire ++ bytes })
write (some (fails m k)) rest bytes s =
    (err (io m), record s { faults = rest; wire = s.wire ++ take k bytes })
write (some (stalls k)) rest bytes s =
    (hangs, record s { faults = rest; wire = s.wire ++ take k bytes })

write_next : List (Option Fault) → Bytes → M Conn (Unit {0})
unfolding write
write_next [] bytes s = write none [] bytes s
write_next (fault ∷ rest) bytes s = write fault rest bytes s

-- `framed.send(frame).await`: the codec, which never fails, fills the write buffer; then it is
-- flushed. The buffer is empty before that, since the write before it was flushed too.
pub send : Zlib → LumberjackCodec → Frame → M Conn (Unit {0})
unfolding write_next
send z codec frame s = write_next s.faults (Codec.encode z codec frame []).1 s

-- The `match` that begins a batch; `none` is the end of the stream.
pub expect_window : Option Item → Result (Option ℕ)
expect_window (some (arrived (window n))) = ok (some n)
expect_window (some (arrived (json seq payload))) =
    err (unexpected_frame "expected Window at batch start")
expect_window (some (arrived (compressed inner))) =
    err (unexpected_frame "expected Window at batch start")
expect_window (some (arrived (ack n))) = err (unexpected_frame "expected Window at batch start")
expect_window (some (broken e)) = err e
expect_window none = ok none

-- `while received < window { .. }` over the connection's stream.
pub fill : Zlib → ConnectionConfig → ℕ → M Conn Progress
fill z cfg size s =
    let (r, rest) = collect z cfg.max_frame_size size start s.incoming in
    (r, record s { incoming = rest })

pub hand_over : List Reaction → Batch → M Conn (Option (ℕ × Usage))
hand_over [] batch s = (hangs, record s { consumer = []; delivered = s.delivered ++ batch ∷ [] })
hand_over (gone ∷ rest) batch s = (ok none, s)
hand_over (answers ticks usage ∷ rest) batch s =
    (ok (some (ticks, usage)), record s { consumer = rest; delivered = s.delivered ++ batch ∷ [] })

-- `out.send(batch).await`; `none` is a send that failed.
pub dispatch : Batch → M Conn (Option (ℕ × Usage))
unfolding hand_over
dispatch batch s = hand_over s.consumer batch s

-- `break seq` on a value, `break last_seq` where the sender was dropped without one.
abbrev pub acked : ℕ → Channel → ℕ
acked last_seq [] = last_seq
acked last_seq (seq ∷ _) = seq

-- The `loop` that waits for the acknowledgement, which is `ticks` intervals away.
pub wait_ack : Zlib → LumberjackCodec → Option ℕ → ℕ → M Conn (Unit {0})
wait_ack z codec none ticks = return tt
wait_ack z codec (some interval) zero = return tt
wait_ack z codec (some interval) (suc ticks) =
    send z codec (ack 0) >>= λ _. wait_ack z codec (some interval) ticks

-- What follows `out.send`; the consumer is done with `batch` in its way, and that is acknowledged.
pub reply : Zlib → ConnectionConfig → Batch → Option (ℕ × Usage) → M Conn Bool
unfolding wait_ack
reply z cfg batch none = return false
reply z cfg batch (some (ticks, usage)) = do
  let codec = with_max_frame_size cfg.max_frame_size
  _ ← wait_ack z codec cfg.keepalive ticks
  _ ← send z codec (ack (acked batch.last_seq (consume usage batch [])))
  return true

-- What is left of a round when the window is full; `false` ends the connection.
pub settle : Zlib → ConnectionConfig → Progress → M Conn Bool
unfolding dispatch reply
settle z cfg p = do let batch = new p.events p.last_seq sender; dispatch batch >>= reply z cfg batch

-- `then` is the rest of the loop.
pub go_on : M Conn (Unit {0}) → Bool → M Conn (Unit {0})
go_on then false = return tt
go_on then true = then

-- The body of the outer `loop` behind its first `match`.
pub round : Zlib → ConnectionConfig → M Conn (Unit {0}) → Option ℕ → M Conn (Unit {0})
unfolding fill settle go_on
round z cfg then none = return tt
round z cfg then (some size) = do p ← fill z cfg size; again ← settle z cfg p; go_on then again

-- The outer `loop`, on fuel.
pub serve : Zlib → ConnectionConfig → ℕ → M Conn (Unit {0})
unfolding round
serve z cfg zero = hang
serve z cfg (suc fuel) = do
  first ← next
  begun ← lift (expect_window first)
  round z cfg (serve z cfg fuel) begun

-- Every round takes a frame off the stream.
pub run_connection : Zlib → ConnectionConfig → M Conn (Unit {0})
unfolding serve
run_connection z cfg s = serve z cfg (suc (length s.incoming)) s
