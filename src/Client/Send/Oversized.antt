-- ===== src/Client/Send/Oversized.antt =====
-- src/client.rs: `Client::send` without compression, with an event that is too large for a frame.
use lumberjack_protocol.Client.Link.{
  Arrival, Link, holding, healthy, send_with_optional_timeout, backpressure_boundary,
}
use lumberjack_protocol.Client.Link.Fed.{Fed, Fed-nil, Fed-trans, send_healthy}
use lumberjack_protocol.Client.Send.{
  Client, Serialized, send_frames, send_next, send_payload, transmit, send, await_ack, Zlib, err,
  compressed,
}
use lumberjack_protocol.Client.Send.Late.{IsSmall, batch_bytes}
use lumberjack_protocol.Client.Send.Frames.{
  Feeds, send-frames, Serializes, Serializes-length, encode_events-ok, send_frames_step,
}
use lumberjack_protocol.Codec.{encode_all, length-json_frames}
use lumberjack_protocol.Events.{number, json_frames, Event, IsSendable, number-IsSendable}
use lumberjack_protocol.Frame.{window, json, default_max_frame_size}
use lumberjack_protocol.Frame
use lumberjack_protocol.Frame.Limits.{decode_oversized}
use lumberjack_protocol.Frame.RoundTrip.{json-Wire, encode-Within}
use lumberjack_protocol.Frame.Wire.{decode-Wire}
use lumberjack_protocol.Base.{
  refl, arith, List, ℕ, Bytes, ◌∷◌, length, ◌<◌, ◌++◌, ◌≡◌, All, IsU32, ◌^◌, ◌≤◌, [], suc,
  append-nil, zero, append_assoc, as_u32, ◌+◌, ap, ◌∙◌, Bool, sym, length-append, if◌then◌else◌,
  ltb,
}
use lumberjack_protocol.Error.{frame_too_large, Error, Result, M, bind}

-- With flushes that are done at once, this fails with that error, and has put these bytes behind
-- those that wait.
abbrev Stops : Error → List Arrival → Bytes → Bytes → Bytes → Result (Unit {0}) × Link → Type 0
Stops e arrivals buffer wire more r =
    (t : Link) × (r ≡ (err e, t)) × Fed arrivals buffer wire more t

Stops-bind :
    {e : Error} {arrivals : List Arrival} {buffer wire front back : Bytes}
    {r : Result (Unit {0}) × Link} (f : Unit {0} → M Link (Unit {0}))
    → Feeds arrivals buffer wire front r
    → ((buffer wire : Bytes)
        → Stops e arrivals buffer wire back (f tt (holding arrivals buffer wire)))
    → Stops e arrivals buffer wire (front ++ back) (bind r f)
Stops-bind {e} {arrivals} f (t, same, fed) k =
    let (u, same', fed') = k fed.buffer_then fed.wire_then in
    (u, rw (same, fed.holds) same', Fed-trans arrivals fed fed')

module _ (z : Zlib) (c : Client) (arrivals : List Arrival) where
  -- The loop over the frames of the payload stops at the one that is too large.
  send_frames_oversized :
      (fuel : ℕ) (es : List Event) (seq : ℕ) (big rest buffer wire : Bytes)
      → length es < fuel
      → All (IsSendable default_max_frame_size) es
      → IsU32 (length big)
      → default_max_frame_size < length big
      → Stops
          (frame_too_large (length big) default_max_frame_size)
          arrivals
          buffer
          wire
          (encode_all z (json_frames es))
          (send_frames z c fuel
            (encode_all z (json_frames es) ++ (Frame.encode z (json seq big) [] ++ rest))
            (holding arrivals buffer wire))
  unfolding send_frames send_next
  send_frames_oversized zero es seq big rest buffer wire h sendable short large =
      absurd (omega arith)
  send_frames_oversized (suc fuel) [] seq big rest buffer wire h sendable short large = (
    holding arrivals buffer wire,
    rw (decode_oversized z default_max_frame_size seq big rest short large) refl,
    Fed-nil arrivals buffer wire,
  )
  send_frames_oversized (suc fuel) ((k, payload) ∷ es) seq big rest buffer wire h
        ((is_u32, tiny, small), sendable) short large =
      let later = encode_all z (json_frames es) ++ (Frame.encode z (json seq big) [] ++ rest) in
      rw
        (append_assoc (Frame.encode z (json k payload) []) (encode_all z (json_frames es))
          (Frame.encode z (json seq big) [] ++ rest))
        (rw
          (send_frames_step z c fuel (Frame.encode z (json k payload) [] ++ later) later
            (holding arrivals buffer wire)
            (decode-Wire z default_max_frame_size later (json-Wire z k payload (is_u32, tiny))
              (encode-Within z default_max_frame_size (json k payload) small)))
          (Stops-bind _
            (send_healthy arrivals z c.codec c.write_timeout (json k payload) buffer wire)
            (λ buffer wire.
              send_frames_oversized fuel es seq big rest buffer wire (omega arith) sendable short
                large)))

-- The frames of the payloads, cut at one of them.
cut :
    (z : Zlib) (i : ℕ) (front : List Bytes) (big : Bytes) (back : List Bytes)
    → (seq : ℕ) × (rest : Bytes) × (encode_all z (json_frames (number i (front ++ big ∷ back)))
        ≡ encode_all z (json_frames (number i front)) ++ (Frame.encode z (json seq big) [] ++ rest))
cut z i [] big back = (i + 1, encode_all z (json_frames (number (i + 1) back)), refl)
cut z i (b ∷ front) big back =
    let (seq, rest, e) = cut z (i + 1) front big back in
    (
      seq,
      rest,
      ap (λ (t : Bytes). Frame.encode z (json (i + 1) b) [] ++ t) e
          ∙ sym (
              append_assoc (Frame.encode z (json (i + 1) b) [])
                (encode_all z (json_frames (number (i + 1) front))) _),
    )

send_payload-off :
    (z : Zlib) (c : Client) (payload : Bytes)
    → c.compression_level ≡ 0
    → send_payload z c payload ≡ send_frames z c (suc (length payload)) payload
unfolding send_payload
send_payload-off z c payload h =
    ap
      (λ (b : Bool).
        if b
        then send_with_optional_timeout z c.codec c.write_timeout (compressed payload)
        else send_frames z c (suc (length payload)) payload)
      (ap (λ (n : ℕ). ltb 0 n) h)

after_window :
    {e : Error} {arrivals : List Arrival} {buffer wire front back : Bytes} (z : Zlib) (c : Client)
    (n : ℕ) (payload : Bytes)
    → Feeds arrivals buffer wire front (
        send_with_optional_timeout z c.codec c.write_timeout
          (window n)
          (holding arrivals buffer wire))
    → ((buffer wire : Bytes)
        → Stops e arrivals buffer wire back
            (send_payload z c payload (holding arrivals buffer wire)))
    → (t : Link) × (transmit z c n payload (holding arrivals buffer wire) ≡ (err e, t))
      × Fed arrivals buffer wire (front ++ back) t
unfolding transmit
after_window {arrivals = arrivals} z c n payload (t, fine, fed) k =
    let (u, stops, fed') = k fed.buffer_then fed.wire_then in
    (u, rw (fine, fed.holds) (rw stops refl), Fed-trans arrivals fed fed')

module _ {T : Type 0} (z : Zlib) (to_vec : T → Serialized) (c : Client)
    (arrivals : List Arrival) where
  oversized :
      (ev : T) (evs : List T) (front : List Bytes) (big : Bytes) (back : List Bytes) (wire : Bytes)
      → Serializes to_vec (ev ∷ evs) (front ++ big ∷ back)
      → c.compression_level ≡ 0
      → length (front ++ big ∷ back) < 2 ^ 32
      → All (λ b. length b ≤ default_max_frame_size) front
      → IsU32 (length big)
      → default_max_frame_size < length big
      → (t : Link) × (send z to_vec c (ev ∷ evs) (healthy arrivals wire)
          ≡ (err (frame_too_large (length big) default_max_frame_size), t))
        × Fed arrivals [] wire
            (encode_all z (window (length (front ++ big ∷ back)) ∷ json_frames (number 0 front)))
            t
  unfolding send
  oversized ev evs front big back wire written off few small short large =
      let bs = front ++ big ∷ back in
      let counted : as_u32 (length (ev ∷ evs)) ≡ length bs =
        omega (arith, Serializes-length to_vec written) in
      let (seq, rest, e) = cut z 0 front big back in
      let payload =
        encode_all z (json_frames (number 0 front)) ++ (Frame.encode z (json seq big) [] ++ rest) in
      let enough : length (number 0 front) < suc (length payload) = omega (
        arith,
        length-json_frames z (number 0 front),
        length-append (encode_all z (json_frames (number 0 front)))
            (Frame.encode z (json seq big) [] ++ rest),
      ) in
      let short_front : 0 + length front < 2 ^ 32 =
        omega (arith, length-append front (big ∷ back)) in
      rw (encode_events-ok to_vec z 0 [] written (omega arith), counted, e)
        (after_window z c (length bs) payload
          (send_healthy arrivals z c.codec c.write_timeout (window (length bs)) [] wire)
          (λ buffer wire. rw (send_payload-off z c payload off) (
            send_frames_oversized z c arrivals (suc (length payload)) (number 0 front) seq big rest
              buffer wire enough
              (number-IsSendable default_max_frame_size 0 front short_front (omega arith) small)
              short large)))

  -- Without compression, with nothing in the write buffer and with flushes that succeed: if
  -- serde_json writes all the events and the first one that is over 16 MiB has a length of 32 bits,
  -- then `send` fails with `frame_too_large`; the window of all the events and the `J` frames
  -- before that one are then on the stream or in the write buffer, and if they are fewer than 8
  -- KiB, nothing of them is on the stream. The next call, with events that fit, puts them on the
  -- stream in front of its own window.
  pub send_oversized :
      (ev next : T) (evs nexts : List T) (front : List Bytes) (big : Bytes) (back bs : List Bytes)
      (wire : Bytes)
      → Serializes to_vec (ev ∷ evs) (front ++ big ∷ back)
      → c.compression_level ≡ 0
      → length (front ++ big ∷ back) < 2 ^ 32
      → All (λ b. length b ≤ default_max_frame_size) front
      → IsU32 (length big)
      → default_max_frame_size < length big
      → Serializes to_vec (next ∷ nexts) bs
      → IsSmall z to_vec c bs
      → let stale =
          encode_all z (window (length (front ++ big ∷ back)) ∷ json_frames (number 0 front)) in
        (t : Link) × (send z to_vec c (ev ∷ evs) (healthy arrivals wire)
          ≡ (err (frame_too_large (length big) default_max_frame_size), t))
        × (t.wire ++ t.buffer ≡ wire ++ stale)
        × (length stale < backpressure_boundary → t.wire ≡ wire)
        × (send z to_vec c (next ∷ nexts) t ≡ (
          (await_ack c.ack_timeout (length bs) arrivals).0,
          healthy
              (await_ack c.ack_timeout (length bs) arrivals).1
              ((wire ++ stale) ++ batch_bytes z to_vec c bs),
        ))
  send_oversized ev next evs nexts front big back bs wire written off few small short large written'
        (few', small') =
      let (t, stops, fed) =
        oversized ev evs front big back wire written off few small short large in
      let stale =
        encode_all z (window (length (front ++ big ∷ back)) ∷ json_frames (number 0 front)) in
      let total : fed.wire_then ++ fed.buffer_then ≡ wire ++ stale =
        fed.bytes ∙ ap (λ (x : Bytes). x ++ stale) (append-nil wire) in
      (
        t,
        stops,
        rw fed.holds total,
        λ h. rw fed.holds (fed.kept (omega arith)),
        rw fed.holds (
            send-frames z to_vec c arrivals next nexts bs fed.buffer_then fed.wire_then written'
              few' small'
            ∙ rw total refl),
      )
