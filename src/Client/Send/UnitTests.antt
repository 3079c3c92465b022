-- ===== src/Client/Send/UnitTests.antt =====
-- The unit tests of src/client.rs on `send`: what each of them asserts, as a statement on the model.
-- The peer's frames are the arrivals, and what it reads is what the client wrote.
use lumberjack_protocol.Client.Send.{Client, Serialized, bytes, send, await_ack}
use lumberjack_protocol.Client.Link.{item, healthy}
use lumberjack_protocol.Codec.{arrived, encode_all, LumberjackCodec}
use lumberjack_protocol.Codec
use lumberjack_protocol.Frame.{window, json, compressed, ack}
use lumberjack_protocol.Frame.Flate.{Zlib}
use lumberjack_protocol.Client.Send.Frames.{nothing, one_more, send-clean}
use lumberjack_protocol.Error.{ok, err, ack_timeout}
use lumberjack_protocol.Base.{ℕ, [], ◌∷◌, ◌≡◌, refl, some, none, Bytes, codes, arith, ap}

-- The clients of the tests.
abbrev client : (compression_level ack_limit : ℕ) → Client
client compression_level ack_limit = record {
  codec = Codec.new;
  compression_level = compression_level;
  write_timeout = none;
  ack_timeout = some ack_limit;
}

-- Events that are written as they are.
abbrev written_as : Bytes → Serialized
written_as b = bytes b

abbrev a1 : Bytes
a1 = codes "{\"a\":1}"

abbrev b2 : Bytes
b2 = codes "{\"b\":2}"

abbrev x1 : Bytes
x1 = codes "{\"x\":1}"

abbrev SendUncompressed : Zlib → Type 0
SendUncompressed z =
    send z written_as (client 0 5_000) (a1 ∷ b2 ∷ []) (healthy (item 0 (arrived (ack 2)) ∷ []) [])
    ≡ (ok 2, healthy [] (encode_all z (window 2 ∷ json 1 a1 ∷ json 2 b2 ∷ [])))

send_uncompressed : (z : Zlib) → SendUncompressed z
unfolding await_ack
send_uncompressed z =
    send-clean z written_as (client 0 5_000) (item 0 (arrived (ack 2)) ∷ []) a1 (b2 ∷ [])
      (a1 ∷ b2 ∷ []) [] (one_more a1 refl (one_more b2 refl nothing)) (omega arith)
      (omega arith, (omega arith, tt))

abbrev SendCompressed : Zlib → Type 0
SendCompressed z =
    send z written_as (client 3 5_000) (a1 ∷ b2 ∷ []) (healthy (item 0 (arrived (ack 2)) ∷ []) [])
    ≡ (
      ok 2,
      healthy []
          (encode_all z (window 2 ∷ compressed (encode_all z (json 1 a1 ∷ json 2 b2 ∷ [])) ∷ [])),
    )

send_compressed : (z : Zlib) → SendCompressed z
unfolding await_ack
send_compressed z =
    send-clean z written_as (client 3 5_000) (item 0 (arrived (ack 2)) ∷ []) a1 (b2 ∷ [])
      (a1 ∷ b2 ∷ []) [] (one_more a1 refl (one_more b2 refl nothing)) (omega arith)
      (omega arith, (omega arith, tt))

abbrev SendReturnsAckTimeoutWhenPeerSilent : Zlib → Type 0
SendReturnsAckTimeoutWhenPeerSilent z =
    (send z written_as (client 0 50) (x1 ∷ []) (healthy [] [])).0 ≡ err ack_timeout

send_returns_ack_timeout_when_peer_silent : (z : Zlib) → SendReturnsAckTimeoutWhenPeerSilent z
unfolding await_ack
send_returns_ack_timeout_when_peer_silent z =
    ap (λ r. r.0)
      (send-clean z written_as (client 0 50) [] x1 [] (x1 ∷ []) [] (one_more x1 refl nothing)
        (omega arith) (omega arith, tt))

-- Three keepalives and the acknowledgement, each 80 ms after the one before, with a limit of 200 ms.
abbrev SendToleratesKeepalives : Zlib → Type 0
SendToleratesKeepalives z =
    (send z written_as (client 0 200) (x1 ∷ []) (
      healthy
        (item 80 (arrived (ack 0))
          ∷ item 80 (arrived (ack 0))
          ∷ item 80 (arrived (ack 0))
          ∷ item 80 (arrived (ack 1))
          ∷ [])
        [])).0
    ≡ ok 1

send_tolerates_keepalives : (z : Zlib) → SendToleratesKeepalives z
unfolding await_ack
send_tolerates_keepalives z =
    ap (λ r. r.0)
      (send-clean z written_as (client 0 200)
        (item 80 (arrived (ack 0))
          ∷ item 80 (arrived (ack 0))
          ∷ item 80 (arrived (ack 0))
          ∷ item 80 (arrived (ack 1))
          ∷ [])
        x1 [] (x1 ∷ []) [] (one_more x1 refl nothing) (omega arith) (omega arith, tt))
