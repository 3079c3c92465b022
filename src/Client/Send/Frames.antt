-- ===== src/Client/Send/Frames.antt =====
-- src/client.rs: which frames `Client::send` writes.
use lumberjack_protocol.Client.Link.{Link, Arrival, send_with_optional_timeout, healthy, holding}
use lumberjack_protocol.Client.Link.Fed.{send_healthy, flush_Fed, Fed, Fed-nil, Fed-trans}
use lumberjack_protocol.Client.Send.{
  Client, Serialized, bytes, fault, encode_events, send_frames, send_payload, await_ack, transmit,
  send, Zlib, err, serialization, ok, json, Frame, bind, window, compressed, Result, M,
}
use lumberjack_protocol.Codec.{encode_all, length-json_frames}
use lumberjack_protocol.Frame
use lumberjack_protocol.Base.{
  [], ◌∷◌, refl, List, String, Bytes, ◌≡◌, ℕ, length, ◌+◌, ◌<◌, ap, ◌^◌, suc, ◌++◌, append-nil,
  as_u32, arith, ◌∙◌, All, zero, append_assoc, some, Bool-cases, if◌then◌else◌, ltb, inl, inr, ◌≤◌,
}
use lumberjack_protocol.Events.{json_frames, number, Event, IsSendable, number-IsSendable}
use lumberjack_protocol.Frame.RoundTrip.{encode-append, json-Wire, encode-Within}
use lumberjack_protocol.Frame.{default_max_frame_size, decode_with_limit}
use lumberjack_protocol.Frame.Steps.{decode_short}
use lumberjack_protocol.Frame.Wire.{decode-Wire}

numbered : (i : ℕ) → i + 1 < 2 ^ 32 → as_u32 (as_u32 i + 1) ≡ i + 1
numbered i h = omega arith

module _ {T : Type 0} (to_vec : T → Serialized) where
  -- The events as serde_json writes them.
  pub data Serializes : List T → List Bytes → Type 0 where
    nothing : Serializes [] []
    one_more :
        {ev : T} {evs : List T} (b : Bytes) {bs : List Bytes}
        → to_vec ev ≡ bytes b
        → Serializes evs bs
        → Serializes (ev ∷ evs) (b ∷ bs)

  -- The first event that serde_json refuses, with its error.
  pub data Refuses (m : String) : List T → Type 0 where
    refused : {ev : T} {evs : List T} → to_vec ev ≡ fault m → Refuses m (ev ∷ evs)
    later :
        {ev : T} {evs : List T} (b : Bytes)
        → to_vec ev ≡ bytes b
        → Refuses m evs
        → Refuses m (ev ∷ evs)

  pub Serializes-length :
      {evs : List T} {bs : List Bytes} → Serializes evs bs → length bs ≡ length evs
  Serializes-length nothing = refl
  Serializes-length (one_more b e h) = ap suc (Serializes-length h)

  module _ (z : Zlib) where
    pub encode_events-ok :
        (i : ℕ) {evs : List T} {bs : List Bytes} (payload : Bytes)
        → Serializes evs bs
        → i + length bs < 2 ^ 32
        → encode_events z to_vec i evs payload
          ≡ (ok tt, payload ++ encode_all z (json_frames (number i bs)))
    unfolding encode_events
    encode_events-ok i payload nothing h = rw append-nil
    encode_events-ok i payload (one_more {evs = evs} b {bs} e rest) h =
        rw (e, encode_events)
          (encode_events-ok (i + 1) _ rest (omega arith)
            ∙ rw (numbered i (omega arith), encode-append z (json (i + 1) b) payload, append_assoc))

    encode_events_refused :
        (m : String) (i : ℕ) {evs : List T} (payload : Bytes)
        → Refuses m evs
        → (encode_events z to_vec i evs payload).0 ≡ err (serialization m)
    unfolding encode_events
    encode_events_refused m i payload (refused e) = rw (e, encode_events)
    encode_events_refused m i payload (later b e rest) =
        rw (e, encode_events) (encode_events_refused m (i + 1) _ rest)

module _ (z : Zlib) (c : Client) (fuel : ℕ) where
  -- The loop over the frames of the payload: its end, and one round.
  send_frames_end : (s : Link) → send_frames z c (suc fuel) [] s ≡ (ok tt, s)
  unfolding send_frames
  send_frames_end s = rw (decode_short z default_max_frame_size [] (omega arith))

  pub send_frames_step :
      (buf rest : Bytes) {f : Frame} (s : Link)
      → decode_with_limit z default_max_frame_size buf ≡ (ok (some f), rest)
      → send_frames z c (suc fuel) buf s
        ≡ bind
            (send_with_optional_timeout z c.codec c.write_timeout f s)
            (λ _. send_frames z c fuel rest)
  unfolding send_frames
  send_frames_step buf rest s h = rw (h, send_frames)

-- With flushes that are done at once, this ends well and puts these bytes behind those that wait.
abbrev pub Feeds : List Arrival → Bytes → Bytes → Bytes → Result (Unit {0}) × Link → Type 0
Feeds arrivals buffer wire more r = (t : Link) × (r ≡ (ok tt, t)) × Fed arrivals buffer wire more t

module _ (arrivals : List Arrival) where
  pub Feeds-bind :
      {buffer wire front back : Bytes} {r : Result (Unit {0}) × Link}
      (f : Unit {0} → M Link (Unit {0}))
      → Feeds arrivals buffer wire front r
      → ((buffer wire : Bytes)
          → Feeds arrivals buffer wire back (f tt (holding arrivals buffer wire)))
      → Feeds arrivals buffer wire (front ++ back) (bind r f)
  Feeds-bind f (t, e, fed) k =
      let (u, e', fed') = k fed.buffer_then fed.wire_then in
      (u, rw (e, fed.holds) e', Fed-trans arrivals fed fed')

module _ (z : Zlib) (c : Client) (arrivals : List Arrival) where
  send_frames-healthy :
      (fuel : ℕ) (es : List Event) (buffer wire : Bytes)
      → length es < fuel
      → All (IsSendable default_max_frame_size) es
      → Feeds arrivals buffer wire
          (encode_all z (json_frames es))
          (send_frames z c fuel (encode_all z (json_frames es)) (holding arrivals buffer wire))
  send_frames-healthy zero es buffer wire h sendable = absurd (omega arith)
  send_frames-healthy (suc fuel) [] buffer wire h sendable = (
    holding arrivals buffer wire,
    send_frames_end z c fuel (holding arrivals buffer wire),
    Fed-nil arrivals buffer wire,
  )
  send_frames-healthy (suc fuel) ((seq, payload) ∷ es) buffer wire h ((k, short, small), sendable) =
      let rest = encode_all z (json_frames es) in
      rw
        (send_frames_step z c fuel (Frame.encode z (json seq payload) [] ++ rest) rest
          (holding arrivals buffer wire)
          (decode-Wire z default_max_frame_size rest (json-Wire z seq payload (k, short))
            (encode-Within z default_max_frame_size (json seq payload) small)))
        (Feeds-bind arrivals _
          (send_healthy arrivals z c.codec c.write_timeout (json seq payload) buffer wire)
          (λ buffer wire. send_frames-healthy fuel es buffer wire (omega arith) sendable))

-- The frames behind the window: one `C` frame, or a `J` frame for each event.
abbrev pub payload_frames : Zlib → ℕ → List Event → List Frame
payload_frames z level es =
    if ltb 0 level then compressed (encode_all z (json_frames es)) ∷ [] else json_frames es

module _ (z : Zlib) (c : Client) (arrivals : List Arrival) where
  send_payload-healthy :
      (es : List Event) (buffer wire : Bytes)
      → All (IsSendable default_max_frame_size) es
      → Feeds arrivals buffer wire
          (encode_all z (payload_frames z c.compression_level es))
          (send_payload z c (encode_all z (json_frames es)) (holding arrivals buffer wire))
  unfolding send_payload
  send_payload-healthy es buffer wire sendable = elim (Bool-cases (ltb 0 c.compression_level)) [
    | inl on ↦ rw on (
        rw append-nil (
          send_healthy arrivals z c.codec c.write_timeout
            (compressed (encode_all z (json_frames es))) buffer wire))
    | inr off ↦ rw off (
        send_frames-healthy z c arrivals (suc (length (encode_all z (json_frames es)))) es buffer
          wire (omega (arith, length-json_frames z es)) sendable)
  ]

  transmit-healthy :
      (es : List Event) (n : ℕ) (buffer wire : Bytes)
      → All (IsSendable default_max_frame_size) es
      → transmit z c n (encode_all z (json_frames es)) (holding arrivals buffer wire) ≡ (
        (await_ack c.ack_timeout n arrivals).0,
        healthy
            (await_ack c.ack_timeout n arrivals).1
            ((wire ++ buffer) ++ encode_all z (window n ∷ payload_frames z c.compression_level es)),
      )
  unfolding transmit
  transmit-healthy es n buffer wire sendable =
      let (t, e, fed) = send_healthy arrivals z c.codec c.write_timeout (window n) buffer wire in
      let (u, e', fed') = send_payload-healthy es fed.buffer_then fed.wire_then sendable in
      let whole = Fed-trans arrivals fed fed' in
      rw (e, fed.holds) (rw e' (rw (flush_Fed c.write_timeout (Fed-trans arrivals fed fed')) refl))

module _ {T : Type 0} (z : Zlib) (to_vec : T → Serialized) (c : Client)
    (arrivals : List Arrival) where
  -- If serde_json writes all the events, which are one or more and fewer than 2 ^ 32, each at most
  -- 16 MiB long, and the flushes succeed, then `send` puts on the stream what was left in the write
  -- buffer, then the window, and then either one `C` frame with all the `J` frames or these `J`
  -- frames, numbered from 1 on, by whether the compression level is above 0; it leaves nothing in
  -- the buffer; and what it returns is what the wait for an acknowledgement of all of them comes
  -- to.
  pub send-frames :
      (ev : T) (evs : List T) (bs : List Bytes) (buffer wire : Bytes)
      → Serializes to_vec (ev ∷ evs) bs
      → length bs < 2 ^ 32
      → All (λ b. length b ≤ default_max_frame_size) bs
      → send z to_vec c (ev ∷ evs) (holding arrivals buffer wire) ≡ (
        (await_ack c.ack_timeout (length bs) arrivals).0,
        healthy (await_ack c.ack_timeout (length bs) arrivals).1 (
            (wire ++ buffer)
            ++ encode_all z
                (window (length bs) ∷ payload_frames z c.compression_level (number 0 bs))),
      )
  unfolding send
  send-frames ev evs bs buffer wire written few small =
      let counted : as_u32 (length (ev ∷ evs)) ≡ length bs =
        omega (arith, Serializes-length to_vec written) in
      rw (encode_events-ok to_vec z 0 [] written (omega arith), counted)
        (transmit-healthy z c arrivals (number 0 bs) (length bs) buffer wire
          (number-IsSendable default_max_frame_size 0 bs (omega arith) (omega arith) small))

  -- With nothing in the write buffer.
  pub send-clean :
      (ev : T) (evs : List T) (bs : List Bytes) (wire : Bytes)
      → Serializes to_vec (ev ∷ evs) bs
      → length bs < 2 ^ 32
      → All (λ b. length b ≤ default_max_frame_size) bs
      → send z to_vec c (ev ∷ evs) (healthy arrivals wire) ≡ (
        (await_ack c.ack_timeout (length bs) arrivals).0,
        healthy (await_ack c.ack_timeout (length bs) arrivals).1 (
            wire
            ++ encode_all z
                (window (length bs) ∷ payload_frames z c.compression_level (number 0 bs))),
      )
  send-clean ev evs bs wire written few small =
      rw (append-nil wire) at (send-frames ev evs bs [] wire written few small)

module _ {T : Type 0} (z : Zlib) (to_vec : T → Serialized) (c : Client) where
  -- If serde_json refuses an event, after it wrote those before it, then `send` fails with its
  -- error, and has written nothing and read nothing.
  pub send_refused :
      (evs : List T) (m : String) (s : Link)
      → Refuses to_vec m evs
      → send z to_vec c evs s ≡ (err (serialization m), s)
  unfolding send
  send_refused [] m s r = elim r [ ]
  send_refused (ev ∷ evs) m s r = rw (encode_events_refused to_vec z m 0 [] r)
