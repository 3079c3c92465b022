-- ===== src/Tests/Calls.antt =====
-- Two calls of `send` against one connection, at concrete inputs.
use lumberjack_protocol.Tests.Fixtures.{stored, stored-Inverts, cfg, sender_client, to_vec}
use lumberjack_protocol.Tests.Sender.{event, batch, written, admitted_sizes}
use lumberjack_protocol.EndToEnd.{Carries, none_left, carried, IsAdmitted}
use lumberjack_protocol.EndToEnd.Calls.{Call, batch_for, send_all, upstream, session}
use lumberjack_protocol.Client.Link.{Arrival, item, healthy}
use lumberjack_protocol.Server.Batch.{acks, drops}
use lumberjack_protocol.Server.Connection.{run_connection, answers}
use lumberjack_protocol.Server.Connection.Session.{calm}
use lumberjack_protocol.Codec.Reader.{reader}
use lumberjack_protocol.Codec.{arrived, encode_all, with_max_frame_size}
use lumberjack_protocol.Codec
use lumberjack_protocol.Frame.{ack}
use lumberjack_protocol.Error.{ok}
use lumberjack_protocol.Base.{refl, arith, some, [], List, ◌∷◌, Bytes, ◌≡◌, map}

-- The consumer acknowledges the first batch after an interval, and drops the second at once.
abbrev calls : List (Call Bytes)
calls =
    record {
      event = event;
      events = event ∷ [];
      payload = event;
      payloads = event ∷ [];
      ticks = 1;
      usage = acks;
    }
    ∷ record {
      event = event;
      events = event ∷ [];
      payload = event;
      payloads = event ∷ [];
      ticks = 0;
      usage = drops;
    }
    ∷ []

abbrev replies : List Arrival
replies =
    item 15_000 (arrived (ack 0)) ∷ item 2_000 (arrived (ack 2)) ∷ item 5 (arrived (ack 2)) ∷ []

replies_heard : Carries (some 30_000) (ack 0 ∷ ack 2 ∷ ack 2 ∷ []) replies
replies_heard =
    carried 15_000 (ack 0) refl (carried 2_000 (ack 2) refl (carried 5 (ack 2) refl none_left))

admitted : IsAdmitted stored to_vec sender_client cfg batch
admitted = (
  omega arith,
  (((omega arith, omega arith), ((omega arith, omega arith), tt))),
  ((omega arith, tt), ((admitted_sizes.0, (admitted_sizes.1, admitted_sizes.2)), tt)),
)

session_example :
    let up = encode_all stored (upstream stored to_vec sender_client cfg calls) in
    let down = encode_all stored (ack 0 ∷ ack 2 ∷ ack 2 ∷ []) in
    (send_all stored to_vec sender_client calls (healthy replies [])
      ≡ (ok (2 ∷ 2 ∷ []), healthy [] up))
    × (run_connection stored cfg (
          calm
            ((reader stored (with_max_frame_size 1024)).items up)
            (answers 1 acks ∷ answers 0 drops ∷ [])
            []
            [])
        ≡ (ok tt, calm [] [] down (map batch_for calls)))
    × ((reader stored Codec.new).items down
        ≡ arrived (ack 0) ∷ arrived (ack 2) ∷ arrived (ack 2) ∷ [])
session_example =
    session stored to_vec sender_client cfg (reader stored Codec.new)
      (reader stored (with_max_frame_size 1024)) stored-Inverts calls replies
      ((written, admitted), ((written, admitted), tt)) replies_heard
