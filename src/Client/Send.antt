-- ===== src/Client/Send.antt =====
-- src/client.rs: `Client::send`. serde_json is the parameter `to_vec`.
pub mod Ack
pub mod Frames
pub mod Ends
pub mod Late
pub mod Level
pub mod Oversized
pub mod Waits
mod UnitTests
use lumberjack_protocol.Client.Link.{
  Link, Arrival, item, closes, for_ever, in_time, send_with_optional_timeout,
  flush_with_optional_timeout,
}
use lumberjack_protocol.Codec
use lumberjack_protocol.Frame
use lumberjack_protocol.Error.{
  ◌>>=◌, Result, hangs, ok, M, hang, err, return, connection_closed, ack_timeout, serialization,
  bind, unexpected_frame, lift, fail, panic, panics,
}
use lumberjack_protocol.Base.{
  refl, Option, Bytes, ℕ, List, String, some, Bool, if◌then◌else◌, suc, ltb, ◌∷◌, as_u32, false,
  none, leb, length, [], true, ◌+◌, zero, ◌-◌,
}
use lumberjack_protocol.Codec.{LumberjackCodec, Item, arrived, broken}
use lumberjack_protocol.Frame.Flate.{Zlib}
use lumberjack_protocol.Frame.{ack, compressed, window, json, Frame}

pub record Client : Type 0 where
  pub codec : LumberjackCodec
  pub compression_level : ℕ
  pub write_timeout : Option ℕ
  pub ack_timeout : Option ℕ

-- `serde_json::to_vec`: the bytes of the event, or the text of an error.
pub data Serialized : Type 0 where
  bytes : Bytes → Serialized
  fault : String → Serialized

abbrev pub serialize : Serialized → Result Bytes
serialize (bytes b) = ok b
serialize (fault m) = err (serialization m)

-- `frame.encode(&mut payload)`
abbrev encode_into : Zlib → Frame → M Bytes (Unit {0})
encode_into z f payload = (ok tt, Frame.encode z f payload)

module _ {T : Type 0} (z : Zlib) (to_vec : T → Serialized) where
  -- The `for` loop over the events, from index `i`; the state is `payload`.
  pub encode_events : ℕ → List T → M Bytes (Unit {0})
  encode_events i [] = return tt
  encode_events i (ev ∷ evs) = do
    data_bytes ← lift (serialize (to_vec ev))
    _ ← encode_into z (json (as_u32 (as_u32 i + 1)) data_bytes)
    encode_events (i + 1) evs

module _ (z : Zlib) (c : Client) where
  -- What the loop below does with the answer of the decoder; `again` is the rest of the loop.
  send_next : (Bytes → M Link (Unit {0})) → Result (Option Frame) × Bytes → M Link (Unit {0})
  send_next again (ok none, rest) = return tt
  send_next again (ok (some f), rest) =
      send_with_optional_timeout z c.codec c.write_timeout f >>= λ _. again rest
  send_next again (err e, rest) = fail e
  send_next again (panics, rest) = panic
  send_next again (hangs, rest) = hang

  -- `while let Some(frame) = Frame::decode(&mut buf)? { .. }`, on fuel.
  pub send_frames : ℕ → Bytes → M Link (Unit {0})
  unfolding send_next
  send_frames zero buf = hang
  send_frames (suc fuel) buf = send_next (λ rest. send_frames fuel rest) (Frame.decode z buf)

  -- The payload as one `C` frame, or frame by frame.
  pub send_payload : Bytes → M Link (Unit {0})
  unfolding send_frames
  send_payload payload =
      if ltb 0 c.compression_level
      then send_with_optional_timeout z c.codec c.write_timeout (compressed payload)
      else send_frames (suc (length payload)) payload

-- What `framed.next()` gave, and whether it is the acknowledgement of `n` events.
abbrev pub heard : ℕ → Item → Result Bool
heard n (arrived (ack seq)) = ok (leb n seq)
heard n (arrived (window m)) = err (unexpected_frame "expected Ack")
heard n (arrived (json seq payload)) = err (unexpected_frame "expected Ack")
heard n (arrived (compressed inner)) = err (unexpected_frame "expected Ack")
heard n (broken e) = err e

abbrev silence : Option ℕ → Result ℕ
silence none = hangs
silence (some t) = err ack_timeout

-- What is left of a wait that is given up.
abbrev pub remaining : Option ℕ → ℕ → ℕ
remaining none d = d
remaining (some t) d = d - t

-- The loop that waits for an acknowledgement of all `n` events; the list is what the peer does. An
-- acknowledgement of fewer that comes again and again in time keeps the loop going for ever.
pub await_ack : Option ℕ → ℕ → List Arrival → Result ℕ × List Arrival
await_ack limit n [] = (silence limit, [])
await_ack limit n (closes d ∷ rest) =
    if in_time limit d
    then (err connection_closed, rest)
    else (err ack_timeout, closes (remaining limit d) ∷ rest)
await_ack limit n (for_ever d seq ∷ rest) = elim (in_time limit d) [
  | false ↦ (err ack_timeout, item (remaining limit d) (arrived (ack seq)) ∷ for_ever d seq ∷ rest)
  | true ↦ elim (leb n seq) [
    | true ↦ (ok n, for_ever d seq ∷ rest)
    | false ↦ (hangs, for_ever d seq ∷ rest)
  ]
]
await_ack limit n (item d it ∷ rest) = elim (in_time limit d) [
  | false ↦ (err ack_timeout, item (remaining limit d) it ∷ rest)
  | true ↦
      bind (heard n it, rest)
        λ done _. elim done [ true ↦ (ok n, rest) | false ↦ await_ack limit n rest ]
]

receive : Option ℕ → ℕ → M Link ℕ
receive limit n s =
    let (r, rest) = await_ack limit n s.arrivals in (r, record s { arrivals = rest })

-- What follows the encoding of the events.
pub transmit : Zlib → Client → ℕ → Bytes → M Link ℕ
unfolding receive
transmit z c n payload = do
  _ ← send_with_optional_timeout z c.codec c.write_timeout (window n)
  _ ← send_payload z c payload
  _ ← flush_with_optional_timeout c.write_timeout
  receive c.ack_timeout n

module _ {T : Type 0} (z : Zlib) (to_vec : T → Serialized) (c : Client) where
  pub send : List T → M Link ℕ
  unfolding transmit
  send [] = return 0
  send (ev ∷ evs) = do
    let n = as_u32 (length (ev ∷ evs))
    let (r, payload) = encode_events z to_vec 0 (ev ∷ evs) []
    _ ← lift r
    transmit z c n payload
