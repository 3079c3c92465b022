-- ===== src/Server/Connection/UnitTests.antt =====
-- The unit tests of src/server.rs on `Batch` and `run_connection`: what each of them asserts, as a
-- statement on the model. The frames that the test sends are the items of the stream, and what it
-- does with the batch is the reaction.
use lumberjack_protocol.Server.Connection.{
  Conn, ConnectionConfig, answers, run_connection, send, next, expect_window,
}
use lumberjack_protocol.Server.Connection.Session.{calm}
use lumberjack_protocol.Server.Progress.{collect, take_item, take_event}
use lumberjack_protocol.Server.Batch.{acks, new, sender, consume, acknowledge, drop}
use lumberjack_protocol.Codec.{arrived}
use lumberjack_protocol.Frame.{Frame, window, json, ack}
use lumberjack_protocol.Frame
use lumberjack_protocol.Frame.Flate.{Zlib}
use lumberjack_protocol.Error.{ok, err, seq_out_of_order}
use lumberjack_protocol.Base.{ℕ, List, [], ◌∷◌, ◌≡◌, refl, some, none, codes, map}

-- `explicit_ack_sends_last_seq`, `drop_without_ack_still_sends_last_seq`, `double_ack_is_a_noop`
abbrev AckSendsLastSeq : Type 0
AckSendsLastSeq =
    (acknowledge (new (codes "null" ∷ []) 7 sender) [] ≡ 7 ∷ [])
    × (drop (new (codes "null" ∷ codes "null" ∷ []) 12 sender) [] ≡ 12 ∷ [])
    × (acknowledge (new [] 3 sender) [] ≡ 3 ∷ [])

ack_sends_last_seq : AckSendsLastSeq
unfolding consume new
ack_sends_last_seq = (refl, refl, refl)

abbrev quiet : ConnectionConfig
quiet = record { max_frame_size = 1024; keepalive = none }

-- The connection of a test: these frames, after which the client is dropped; one batch, which is
-- acknowledged after so many intervals.
abbrev tested : List Frame → ℕ → Conn
tested frames ticks = calm (map arrived frames) (answers ticks acks ∷ []) [] []

abbrev ServerProcessesUncompressedBatch : Zlib → Type 0
ServerProcessesUncompressedBatch z =
    run_connection z quiet
      (tested (window 2 ∷ json 1 (codes "{\"a\":1}") ∷ json 2 (codes "{\"b\":2}") ∷ []) 0)
    ≡ (
      ok tt,
      calm [] [] (Frame.encode z (ack 2) [])
          (new (codes "{\"a\":1}" ∷ codes "{\"b\":2}" ∷ []) 2 sender ∷ []),
    )

server_processes_uncompressed_batch : (z : Zlib) → ServerProcessesUncompressedBatch z
unfolding run_connection next expect_window take_item take_event collect consume new Frame.encode
    send
server_processes_uncompressed_batch z = refl

abbrev ServerForwardsPayloadsWithoutParsing : Zlib → Type 0
ServerForwardsPayloadsWithoutParsing z =
    run_connection z quiet
      (tested (window 2 ∷ json 1 (codes "not json") ∷ json 2 (codes "{\"ok\":true}") ∷ []) 0)
    ≡ (
      ok tt,
      calm [] [] (Frame.encode z (ack 2) [])
          (new (codes "not json" ∷ codes "{\"ok\":true}" ∷ []) 2 sender ∷ []),
    )

server_forwards_payloads_without_parsing : (z : Zlib) → ServerForwardsPayloadsWithoutParsing z
unfolding run_connection next expect_window take_item take_event collect consume new Frame.encode
    send
server_forwards_payloads_without_parsing z = refl

abbrev ServerRejectsSeqOutOfOrder : Zlib → Type 0
ServerRejectsSeqOutOfOrder z =
    (run_connection z quiet
      (tested (window 2 ∷ json 5 (codes "{}") ∷ json 3 (codes "{}") ∷ []) 0)).0
    ≡ err (seq_out_of_order 3 5)

server_rejects_seq_out_of_order : (z : Zlib) → ServerRejectsSeqOutOfOrder z
unfolding run_connection next expect_window take_item take_event collect consume new Frame.encode
    send
server_rejects_seq_out_of_order z = refl

-- Two keepalives while the batch is held, and then the acknowledgement.
abbrev ServerSendsKeepaliveWhileUserHoldsBatch : Zlib → Type 0
ServerSendsKeepaliveWhileUserHoldsBatch z =
    run_connection z (record { max_frame_size = 1024; keepalive = some 20 })
      (tested (window 1 ∷ json 1 (codes "{}") ∷ []) 2)
    ≡ (
      ok tt,
      calm [] [] (Frame.encode z (ack 1) (Frame.encode z (ack 0) (Frame.encode z (ack 0) [])))
          (new (codes "{}" ∷ []) 1 sender ∷ []),
    )

server_sends_keepalive_while_user_holds_batch :
    (z : Zlib) → ServerSendsKeepaliveWhileUserHoldsBatch z
unfolding run_connection next expect_window take_item take_event collect consume new Frame.encode
    send
server_sends_keepalive_while_user_holds_batch z = refl
