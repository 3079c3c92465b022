-- ===== src/Server/Queue/Adequate.antt =====
-- src/server.rs: what happens at a connection of the shared channel is what `run_connection` does
-- with a script of reactions, which can be read off.
use lumberjack_protocol.Server.Queue.Script.{
  frames_of, ticks_of, trail, weave, frames_of-weave, length-ticks_of, IsQuiet, Journey-IsQuiet,
}
use lumberjack_protocol.Server.Batch.{Channel, new}
use lumberjack_protocol.Server.Batch.{Batch}
use lumberjack_protocol.Server.Queue.{System, Act, History, new_system, filling}
use lumberjack_protocol.Server.Queue.Promise.{Stage, seen_all}
use lumberjack_protocol.Server.Queue.Sights.{completed, received, acks_written}
use lumberjack_protocol.Server.Queue.Stages.{Fits, fits_reading}
use lumberjack_protocol.Server.Queue.Refines.{new_system_refines}
use lumberjack_protocol.Server.Queue.Delivery.{delivered_in_order, seqs}
use lumberjack_protocol.Server.Connection.{ConnectionConfig, run_connection}
use lumberjack_protocol.Server.Connection.Session.{
  Order, batch_of, reaction_to, items_of, replies_to, IsProper, calm, run_connection-session,
}
use lumberjack_protocol.Codec.{encode_all}
use lumberjack_protocol.Frame.Flate.{Zlib}
use lumberjack_protocol.Error.{ok}
use lumberjack_protocol.Base.{
  ℕ, suc, List, [], ◌∷◌, ◌++◌, ◌≡◌, refl, some, true, arith, map, length, All, append-nil, ◌∙◌, sym,
  ap,
}

-- The orders, with the times that the consumer took for them.
abbrev pub timed : List ℕ → List Order → List Order
timed (k ∷ ks) (o ∷ os) = record o { ticks = k } ∷ timed ks os
timed ks os = os

items_of-timed :
    (z : Zlib) (ks : List ℕ) (os : List Order) → items_of z (timed ks os) ≡ items_of z os
items_of-timed z [] os = refl
items_of-timed z (k ∷ ks) [] = refl
items_of-timed z (k ∷ ks) (o ∷ os) = rw (items_of-timed z ks os)

batch_of-timed : (ks : List ℕ) (os : List Order) → map batch_of (timed ks os) ≡ map batch_of os
batch_of-timed [] os = refl
batch_of-timed (k ∷ ks) [] = refl
batch_of-timed (k ∷ ks) (o ∷ os) = ap (◌∷◌ (batch_of o)) (batch_of-timed ks os)

timed-IsProper :
    (max : ℕ) (ks : List ℕ) (os : List Order)
    → All (IsProper max) os
    → All (IsProper max) (timed ks os)
timed-IsProper max [] os h = h
timed-IsProper max (k ∷ ks) [] h = tt
timed-IsProper max (k ∷ ks) (o ∷ os) (h, hs) = (h, timed-IsProper max ks os hs)

replies_to-timed :
    (interval : ℕ) (ks : List ℕ) (os : List Order)
    → length ks ≡ length os
    → replies_to (some interval) (timed ks os) ≡ weave ks (seqs (map batch_of os))
unfolding new
replies_to-timed interval [] [] h = refl
replies_to-timed interval [] (o ∷ os) h = absurd (omega arith)
replies_to-timed interval (k ∷ ks) [] h = absurd (omega arith)
replies_to-timed interval (k ∷ ks) (o ∷ os) h =
    rw (replies_to-timed interval ks os (omega arith)) refl

length-seqs : (os : List Order) → length (seqs (map batch_of os)) ≡ length os
length-seqs [] = refl
length-seqs (o ∷ os) = ap suc (length-seqs os)

reading_quiet :
    {mail : Channel} {queue held : List Batch} {a : Stage} {k : ℕ}
    → Fits filling mail queue held a
    → IsQuiet a k
    → k ≡ 0
reading_quiet fits_reading h = h

-- What happens at a connection of the shared channel is what `run_connection` does with a script of
-- reactions. In any history of a new server that has not been dropped, in which a connection has
-- come back to reading and has completed the batches of these orders, which keep to the protocol
-- and the limit, with keepalives on: `run_connection`, on the items of the orders and a consumer
-- that takes, for each batch, as many keepalive intervals as the history shows keepalives before
-- its acknowledgement, ends well, writes the bytes of the frames that the history shows, and hands
-- over the batches that `recv` gave in the history.
pub served_by_script :
    (z : Zlib) (cfg : ConnectionConfig) (interval capacity i : ℕ) (acts : List Act) (t : System)
    (os : List Order)
    → cfg.keepalive ≡ some interval
    → All (IsProper cfg.max_frame_size) os
    → History acts (new_system capacity) t
    → t.is_open ≡ true
    → (t.tasks i).pc ≡ filling
    → completed (seen_all i acts) ≡ map batch_of os
    → let w = seen_all i acts in
      let script = map reaction_to (timed (ticks_of 0 w) os) in
      run_connection z cfg (calm (items_of z os) script [] [])
      ≡ (ok tt, calm [] [] (encode_all z (frames_of w)) (received w))
served_by_script z cfg interval capacity i acts t os on proper h open_ still complete_ =
    let w = seen_all i acts in
    let (waiting, owed, split, paid, _, _, none_left) =
      delivered_in_order capacity i acts t h open_ in
    let (stage, path, v) = new_system_refines capacity i acts t h in
    let quiet : trail 0 w ≡ 0 = reading_quiet (rw still at v) (Journey-IsQuiet 0 path refl) in
    let all_received : received w ≡ map batch_of os =
      sym (append-nil (received w))
      ∙ ap (λ bs. received w ++ bs) (sym (none_left still).0)
      ∙ sym split
      ∙ complete_ in
    let all_acked : acks_written w ≡ seqs (map batch_of os) =
      sym (append-nil (acks_written w))
      ∙ ap (λ ns. acks_written w ++ ns) (sym (none_left still).1)
      ∙ sym paid
      ∙ ap seqs all_received in
    let written : frames_of w ≡ weave (ticks_of 0 w) (seqs (map batch_of os)) =
      frames_of-weave 0 w ∙ rw (quiet, append-nil) (ap (weave (ticks_of 0 w)) all_acked) in
    let times : length (ticks_of 0 w) ≡ length os =
      length-ticks_of 0 w ∙ ap length all_acked ∙ length-seqs os in
    rw (← items_of-timed z (ticks_of 0 w) os) (
      run_connection-session z cfg (timed (ticks_of 0 w) os) [] []
        (timed-IsProper cfg.max_frame_size (ticks_of 0 w) os proper)
      ∙ rw
          (
            on,
            replies_to-timed interval (ticks_of 0 w) os times,
            batch_of-timed (ticks_of 0 w) os,
            ← written,
            ← all_received,
          )
          refl)
