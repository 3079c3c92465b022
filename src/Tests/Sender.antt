-- ===== src/Tests/Sender.antt =====
-- The theorems on `Client` of src/client.rs at concrete inputs.
use lumberjack_protocol.Tests.Fixtures.{stored, sender_client, to_vec}
use lumberjack_protocol.Client.Link.{
  Arrival, Link, backpressure_boundary, item, for_ever, holding, healthy,
}
use lumberjack_protocol.Client.Send.{Client, Serialized, bytes, fault, send, await_ack}
use lumberjack_protocol.Client.Send.Ack.{await_ack_lem, Confirms}
use lumberjack_protocol.Client.Send.Frames.{
  Serializes, nothing, one_more, refused, later, payload_frames, send-frames, send_refused,
}
use lumberjack_protocol.Client.Send.Ends.{send-Returns}
use lumberjack_protocol.Client.Send.Late.{send_after_timeout, batch_bytes}
use lumberjack_protocol.Client.Send.Level.{send-with_level, with_level}
use lumberjack_protocol.Client.Send.Oversized.{send_oversized}
use lumberjack_protocol.Codec.{arrived, encode_all}
use lumberjack_protocol.Events.{number, json_frames}
use lumberjack_protocol.Frame.Inflate.{zlib_compress}
use lumberjack_protocol.Frame
use lumberjack_protocol.Frame.{ack, window, default_max_frame_size}
use lumberjack_protocol.Error.{Returns, err, ok, ack_timeout, serialization, frame_too_large}
use lumberjack_protocol.Base.{
  refl, arith, some, [], List, ◌∷◌, IsU32, Bytes, ◌≡◌, length, ◌≤◌, ◌↔◌, ◌++◌, ℕ, suc, ap, zero,
  ◌<◌,
}

abbrev pub event : Bytes
event = b'{' ∷ b'}' ∷ []

abbrev pub batch : List Bytes
batch = event ∷ event ∷ []

pub written : Serializes to_vec batch batch
written = one_more event refl (one_more event refl nothing)

-- A keepalive, then the acknowledgement.
abbrev answers_in_time : List Arrival
answers_in_time = item 15_000 (arrived (ack 0)) ∷ item 2_000 (arrived (ack 2)) ∷ []

pub admitted_sizes :
    IsU32 (length (zlib_compress stored (encode_all stored (json_frames (number 0 batch)))))
    × (length (encode_all stored (json_frames (number 0 batch))) ≤ 1024)
    × (length (zlib_compress stored (encode_all stored (json_frames (number 0 batch)))) ≤ 1024)
unfolding zlib_compress Frame.encode
admitted_sizes = (omega arith, omega arith, omega arith)

-- Four bytes are still in the write buffer.
send-frames_example :
    send stored to_vec sender_client batch (holding answers_in_time (event ++ event) event) ≡ (
      (await_ack (some 30_000) 2 answers_in_time).0,
      healthy (await_ack (some 30_000) 2 answers_in_time).1 (
          (event ++ (event ++ event))
          ++ encode_all stored (window 2 ∷ payload_frames stored 3 (number 0 batch))),
    )
send-frames_example =
    send-frames stored to_vec sender_client answers_in_time event (event ∷ []) batch
      (event ++ event) event written (omega arith) (omega arith, (omega arith, tt))

await_ack_example :
    (await_ack (some 30_000) 2 answers_in_time ≡ (ok 2, []))
    ↔ ((◌≡◌ {A = ℕ} 2 2) × Confirms (some 30_000) 2 [] answers_in_time)
await_ack_example = await_ack_lem (some 30_000) 2 answers_in_time [] 2

-- Keepalives for ever, each too late.
abbrev too_slow : List Arrival
too_slow = item 15_000 (arrived (ack 0)) ∷ for_ever 40_000 0 ∷ []

send-Returns_example : Returns (send stored to_vec sender_client batch (healthy too_slow [])).0
send-Returns_example =
    send-Returns stored to_vec sender_client 1_000 30_000 batch (healthy too_slow []) refl refl
      (tt, (omega arith, tt))

-- Keepalives for ever, each in time.
abbrev unending_keepalives : List Arrival
unending_keepalives = item 100 (arrived (ack 1)) ∷ for_ever 15_000 0 ∷ []

-- A serialiser that refuses the empty event.
abbrev picky : Bytes → Serialized
picky [] = fault "empty"
picky (b ∷ bs) = bytes (b ∷ bs)

send_refused_example :
    send stored picky sender_client (event ∷ [] ∷ []) (healthy [] [])
    ≡ (err (serialization "empty"), healthy [] [])
send_refused_example =
    send_refused stored picky sender_client (event ∷ [] ∷ []) "empty" (healthy [] [])
      (later event refl (refused refl))

send_after_timeout_example :
    let between =
      healthy
        (item 10_000 (arrived (ack 2)) ∷ [])
        (batch_bytes stored to_vec sender_client batch) in
    (send stored to_vec sender_client batch (healthy (item 40_000 (arrived (ack 2)) ∷ []) [])
      ≡ (err ack_timeout, between))
    × (send stored to_vec sender_client (event ∷ []) between ≡ (
      ok 1,
      healthy [] (
          batch_bytes stored to_vec sender_client batch
          ++ batch_bytes stored to_vec sender_client (event ∷ [])),
    ))
send_after_timeout_example =
    send_after_timeout stored to_vec sender_client event event (event ∷ []) [] batch (event ∷ [])
      40_000 2 [] written (one_more event refl nothing)
      (omega arith, (omega arith, (omega arith, tt))) (omega arith, (omega arith, tt)) refl refl
      (omega arith)

send-with_level_example :
    send stored to_vec (with_level 9 sender_client) batch (healthy answers_in_time [])
    ≡ send stored to_vec sender_client batch (healthy answers_in_time [])
send-with_level_example =
    send-with_level stored to_vec sender_client 9 batch (healthy answers_in_time []) (omega arith)
      (omega arith)

-- An event that is one byte over the limit, without the list written out.
replicate : ℕ → ℕ → Bytes
replicate zero b = []
replicate (suc n) b = b ∷ replicate n b

length-replicate : (n b : ℕ) → length (replicate n b) ≡ n
unfolding replicate
length-replicate zero b = refl
length-replicate (suc n) b = ap suc (length-replicate n b)

abbrev huge : Bytes
huge = replicate 16_777_217 b'x'

length-huge : length huge ≡ 16_777_217
length-huge = length-replicate 16_777_217 b'x'

abbrev plain_client : Client
plain_client = record sender_client { compression_level = 0 }

send_oversized_example :
    let stale = encode_all stored (window 2 ∷ json_frames (number 0 (event ∷ []))) in
    (t : Link) × (send stored to_vec plain_client (event ∷ huge ∷ []) (healthy [] [])
      ≡ (err (frame_too_large (length huge) default_max_frame_size), t))
    × (t.wire ++ t.buffer ≡ [] ++ stale)
    × (length stale < backpressure_boundary → t.wire ≡ [])
    × (send stored to_vec plain_client batch t ≡ (
      (await_ack plain_client.ack_timeout 2 []).0,
      healthy
          (await_ack plain_client.ack_timeout 2 []).1
          (([] ++ stale) ++ batch_bytes stored to_vec plain_client batch),
    ))
send_oversized_example =
    send_oversized stored to_vec plain_client [] event event (huge ∷ []) (event ∷ []) (event ∷ [])
      huge [] batch [] (one_more event refl (one_more huge refl nothing)) refl (omega arith)
      (omega arith, tt) (omega (arith, length-huge)) (omega (arith, length-huge)) written
      (omega arith, (omega arith, (omega arith, tt)))
