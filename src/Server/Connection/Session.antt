-- ===== src/Server/Connection/Session.antt =====
-- src/server.rs: `run_connection` against a peer that keeps to the protocol.
use lumberjack_protocol.Server.Connection.{
  Conn, ConnectionConfig, Reaction, next_of, next, send, fill, dispatch, hand_over, wait_ack, reply,
  settle, round, serve, run_connection, expect_window, go_on, answers, ℕ, Zlib, Option, List, Bytes,
  Progress, ◌∷◌, write_next, write,
}
use lumberjack_protocol.Server.Connection.Trace.{keepalives, encode_all-append}
use lumberjack_protocol.Server.Batch.{Batch, Usage, new, sender, consume-once}
use lumberjack_protocol.Server.Progress.{Progress}
use lumberjack_protocol.Codec.{with_max_frame_size}
use lumberjack_protocol.Server.Progress.Grouping.{
  Group, frame_of, members, events_of, collect-groups,
}
use lumberjack_protocol.Codec.{encode_all, Item, arrived, LumberjackCodec}
use lumberjack_protocol.Events.{Ascending, IsSendable, last_of, payloads}
use lumberjack_protocol.Frame
use lumberjack_protocol.Error.{ok}
use lumberjack_protocol.Base.{
  IsU32, All, ◌++◌, ◌≡◌, [], length, map, some, ◌<◌, arith, none, suc, true, append-nil, zero, ◌∙◌,
  append_assoc, length-append, ap, refl,
}
use lumberjack_protocol.Frame.{Frame, window, ack}

-- A batch as the peer sends it, how long the consumer takes with it and how it is done with it.
pub record Order : Type 0 where
  pub groups : List Group
  pub ticks : ℕ
  pub usage : Usage

abbrev pub batch_of : Order → Batch
batch_of o = new (payloads (events_of o.groups)) (last_of 0 (events_of o.groups)) sender

abbrev pub reaction_to : Order → Reaction
reaction_to o = answers o.ticks o.usage

-- The window, and the groups behind it.
abbrev pub items_of : Zlib → List Order → List Item
items_of z [] = []
items_of z (o ∷ os) =
    arrived (window (length (events_of o.groups))) ∷ map (λ g. arrived (frame_of z g)) o.groups
    ++ items_of z os

-- A keepalive for each interval that the consumer takes, if there are intervals.
abbrev pub waited : Option ℕ → ℕ → List Frame
waited none ticks = []
waited (some interval) ticks = keepalives ticks

abbrev pub replies_to : Option ℕ → List Order → List Frame
replies_to keepalive [] = []
replies_to keepalive (o ∷ os) =
    waited keepalive o.ticks ++ ack (last_of 0 (events_of o.groups)) ∷ replies_to keepalive os

-- The events of a batch: as many as a window can announce, numbered upwards, each of a size that the server takes.
abbrev pub IsProper : ℕ → Order → Type 0
IsProper max o =
    IsU32 (length (events_of o.groups))
    × Ascending 0 (events_of o.groups)
    × All (λ g. All (IsSendable max) (members g)) o.groups

-- The window of a batch when it is full.
abbrev pub gathered : Order → Progress
gathered o = record {
  events = payloads (events_of o.groups);
  received = length (events_of o.groups);
  last_seq = last_of 0 (events_of o.groups);
  prev_seq = last_of 0 (events_of o.groups);
}

-- A connection whose writes succeed.
abbrev pub calm : List Item → List Reaction → Bytes → List Batch → Conn
calm incoming consumer wire delivered = record {
  incoming = incoming;
  consumer = consumer;
  faults = [];
  wire = wire;
  delivered = delivered;
}

module _ (z : Zlib) where
  send-calm :
      (codec : LumberjackCodec) (f : Frame) (incoming : List Item) (consumer : List Reaction)
      (wire : Bytes) (delivered : List Batch)
      → send z codec f (calm incoming consumer wire delivered)
        ≡ (ok tt, calm incoming consumer (wire ++ Frame.encode z f []) delivered)
  unfolding send write_next write
  send-calm codec f incoming consumer wire delivered = refl

  wait_ack-calm :
      (codec : LumberjackCodec) (keepalive : Option ℕ) (ticks : ℕ) (incoming : List Item)
      (consumer : List Reaction) (wire : Bytes) (delivered : List Batch)
      → wait_ack z codec keepalive ticks (calm incoming consumer wire delivered)
        ≡ (ok tt, calm incoming consumer (wire ++ encode_all z (waited keepalive ticks)) delivered)
  unfolding wait_ack
  wait_ack-calm codec none ticks incoming consumer wire delivered = rw (append-nil wire)
  wait_ack-calm codec (some interval) zero incoming consumer wire delivered = rw (append-nil wire)
  wait_ack-calm codec (some interval) (suc ticks) incoming consumer wire delivered =
      rw (send-calm codec (ack 0) incoming consumer wire delivered)
        (wait_ack-calm codec (some interval) ticks incoming consumer _ delivered ∙ rw append_assoc)

  module _ (cfg : ConnectionConfig) where
    settle-calm :
        (o : Order) (incoming : List Item) (consumer : List Reaction) (wire : Bytes)
        (delivered : List Batch)
        → settle z cfg (gathered o) (calm incoming (reaction_to o ∷ consumer) wire delivered) ≡ (
          ok true,
          calm incoming consumer
              (wire
                ++ encode_all z
                    (waited cfg.keepalive o.ticks ++ ack (last_of 0 (events_of o.groups)) ∷ []))
              (delivered ++ batch_of o ∷ []),
        )
    unfolding settle dispatch hand_over reply
    settle-calm o incoming consumer wire delivered =
        let codec = with_max_frame_size cfg.max_frame_size in
        let seq = last_of 0 (events_of o.groups) in
        let sent = encode_all z (waited cfg.keepalive o.ticks) in
        rw
          (wait_ack-calm codec cfg.keepalive o.ticks incoming consumer wire
            (delivered ++ batch_of o ∷ []))
          (rw (consume-once o.usage (payloads (events_of o.groups)) seq sender) (
            rw
              (send-calm codec (ack seq) incoming consumer (wire ++ sent)
                (delivered ++ batch_of o ∷ []))
              (rw (
                encode_all-append z (waited cfg.keepalive o.ticks) (ack seq ∷ []),
                append-nil,
                append_assoc,
              ))))

    rejoin :
        (o : Order) (os : List Order) (wire : Bytes) (delivered : List Batch)
        → let last = ack (last_of 0 (events_of o.groups)) in
          let front = waited cfg.keepalive o.ticks in
          let more = replies_to cfg.keepalive os in
          calm [] []
            ((wire ++ encode_all z (front ++ last ∷ [])) ++ encode_all z more)
            ((delivered ++ batch_of o ∷ []) ++ map batch_of os)
          ≡ calm [] []
              (wire ++ encode_all z (front ++ last ∷ more))
              (delivered ++ map batch_of (o ∷ os))
    rejoin o os wire delivered = simp (encode_all-append z, append_assoc, append-nil)

    serve-calm :
        (fuel : ℕ) (os : List Order) (wire : Bytes) (delivered : List Batch)
        → length (items_of z os) < fuel
        → All (IsProper cfg.max_frame_size) os
        → serve z cfg fuel (calm (items_of z os) (map reaction_to os) wire delivered) ≡ (
          ok tt,
          calm [] []
              (wire ++ encode_all z (replies_to cfg.keepalive os))
              (delivered ++ map batch_of os),
        )
    unfolding serve next next_of expect_window round go_on fill
    serve-calm zero os wire delivered h proper = absurd (omega arith)
    serve-calm (suc fuel) [] wire delivered h proper = rw (append-nil wire, append-nil delivered)
    serve-calm (suc fuel) (o ∷ os) wire delivered h ((is_u32, rising, sendable), proper) =
        rw (collect-groups z cfg.max_frame_size o.groups (items_of z os) is_u32 rising sendable) (
          rw (settle-calm o (items_of z os) (map reaction_to os) wire delivered) (
            serve-calm fuel os _ (delivered ++ batch_of o ∷ [])
              (omega
                (arith, length-append (map (λ g. arrived (frame_of z g)) o.groups) (items_of z os)))
              proper
            ∙ ap (λ (s : Conn). (ok tt, s)) (rejoin o os wire delivered)))

    -- On a stream of batches that keep to the protocol, each as `J` and `C` frames in any mixture,
    -- with a consumer that is done with each batch after some intervals and in some way, and with
    -- writes that succeed: `run_connection` ends well; it hands over the batches in their order,
    -- each as the payloads of its events; and it writes, batch for batch, one keepalive for each
    -- interval if keepalives are on, and then the last sequence number of the batch.
    pub run_connection-session :
        (os : List Order) (wire : Bytes) (delivered : List Batch)
        → All (IsProper cfg.max_frame_size) os
        → run_connection z cfg (calm (items_of z os) (map reaction_to os) wire delivered) ≡ (
          ok tt,
          calm [] []
              (wire ++ encode_all z (replies_to cfg.keepalive os))
              (delivered ++ map batch_of os),
        )
    unfolding run_connection
    run_connection-session os wire delivered proper =
        serve-calm (suc (length (items_of z os))) os wire delivered (omega arith) proper
