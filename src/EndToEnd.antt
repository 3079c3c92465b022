-- ===== src/EndToEnd.antt =====
-- src/client.rs and src/server.rs together: one `Client::send`, and what `run_connection` takes and
-- answers for it.
pub mod Groups
pub mod Calls
use lumberjack_protocol.EndToEnd.Groups.{
  groups_of, events_of-groups_of, frames-groups_of, All-groups_of, All-map, number-IsTaken,
}
use lumberjack_protocol.Server.Connection.Session.{
  Order, waited, IsProper, calm, run_connection-session,
}
use lumberjack_protocol.Server.Connection.{ConnectionConfig, run_connection, answers}
use lumberjack_protocol.Server.Connection.Trace.{keepalives}
use lumberjack_protocol.Server.Progress.Grouping.{
  Group, plain, packed, frame_of, members, events_of,
}
use lumberjack_protocol.Server.Batch.{Usage, new, sender}
use lumberjack_protocol.Client.Send.{Client, Serialized, send}
use lumberjack_protocol.Client.Send.Frames.{
  Serializes, payload_frames, send-clean, Serializes-length,
}
use lumberjack_protocol.Client.Send.Ack.{Confirms, confirmed, partial, await_ack_complete}
use lumberjack_protocol.Client.Link.{Arrival, item, in_time, healthy}
use lumberjack_protocol.Codec.{encode_all, Framed, items-encode_all, arrived, with_max_frame_size}
use lumberjack_protocol.Events.{
  Event, number, json_frames, IsSendable, number-Ascending, payloads-number, length-number,
  last_of-number,
}
use lumberjack_protocol.Frame.Flate.{Zlib, Inverts}
use lumberjack_protocol.Frame.Inflate.{chunk_size}
use lumberjack_protocol.Frame.RoundTrip.{IsEncodable, Fits}
use lumberjack_protocol.Frame.{window, ack, json, Frame, default_max_frame_size}
use lumberjack_protocol.Base.{
  refl, ℕ, List, Option, ◌<◌, ◌≡◌, map, All, ◌∷◌, ◌++◌, Bool-cases, if◌then◌else◌, [], ap, suc, ltb,
  true, inl, zero, inr, append-nil, Bytes, some, arith, none, length, ◌∙◌, ◌^◌, ◌≤◌, ◌+◌, IsU32,
  zero-add,
}
use lumberjack_protocol.Error.{ok}

-- Each of these frames reaches the client, within its limit after the one before it.
pub data Carries (limit : Option ℕ) : List Frame → List Arrival → Type 0 where
  none_left : Carries limit [] []
  carried :
      (d : ℕ) (f : Frame) {fs : List Frame} {arrivals : List Arrival}
      → in_time limit d ≡ true
      → Carries limit fs arrivals
      → Carries limit (f ∷ fs) (item d (arrived f) ∷ arrivals)

module _ (limit : Option ℕ) (n : ℕ) (some_events : 0 < n) where
  -- Of what the peer sends, the answers to one batch confirm it, and the rest comes after it.
  keepalives-Confirms :
      (k : ℕ) {more : List Frame} {arrivals : List Arrival}
      → Carries limit ((keepalives k ++ ack n ∷ []) ++ more) arrivals
      → (rest : List Arrival) × Confirms limit n rest arrivals × Carries limit more rest
  keepalives-Confirms zero (carried d f {arrivals} punctual c) =
      (arrivals, confirmed d n punctual (omega arith), c)
  keepalives-Confirms (suc k) (carried d f punctual c) =
      let (rest, confirms, c') = keepalives-Confirms k c in
      (rest, partial d 0 punctual some_events confirms, c')

  pub waited-Confirms :
      (keepalive : Option ℕ) (ticks : ℕ) {more : List Frame} {arrivals : List Arrival}
      → Carries limit ((waited keepalive ticks ++ ack n ∷ []) ++ more) arrivals
      → (rest : List Arrival) × Confirms limit n rest arrivals × Carries limit more rest
  waited-Confirms none ticks c = keepalives-Confirms 0 c
  waited-Confirms (some interval) ticks c = keepalives-Confirms ticks c

Carries-nil :
    {limit : Option ℕ} {arrivals : List Arrival} → Carries limit [] arrivals → arrivals ≡ []
Carries-nil none_left = refl

module _ {T : Type 0} (z : Zlib) (to_vec : T → Serialized) (c : Client)
    (cfg : ConnectionConfig) where
  -- What the client writes for these payloads, and what the server answers.
  abbrev pub sent : List Bytes → List Frame
  sent bs = window (length bs) ∷ payload_frames z c.compression_level (number 0 bs)

  abbrev pub answered : ℕ → List Bytes → List Frame
  answered ticks bs = waited cfg.keepalive ticks ++ ack (length bs) ∷ []

  -- What the protocol and the limits of the two sides admit.
  abbrev pub IsAdmitted : List Bytes → Type 0
  IsAdmitted bs =
      (length bs < 2 ^ 32)
      × All (λ b. (length b ≤ default_max_frame_size) × (length b ≤ cfg.max_frame_size)) bs
      × All (λ f. IsEncodable z f × Fits z cfg.max_frame_size f) (sent bs)

  abbrev pub order : List Bytes → ℕ → Usage → Order
  order bs ticks usage = record {
    groups = groups_of c.compression_level (number 0 bs);
    ticks = ticks;
    usage = usage;
  }

  pub client_side :
      (ev : T) (evs : List T) (bs : List Bytes) (ticks : ℕ) (more : List Frame)
      (arrivals : List Arrival) (wire : Bytes)
      → Serializes to_vec (ev ∷ evs) bs
      → IsAdmitted bs
      → Carries c.ack_timeout (answered ticks bs ++ more) arrivals
      → (rest : List Arrival) × (send z to_vec c (ev ∷ evs) (healthy arrivals wire)
          ≡ (ok (length bs), healthy rest (wire ++ encode_all z (sent bs))))
        × Carries c.ack_timeout more rest
  client_side ev evs bs ticks more arrivals wire written (few, small, fits) heard =
      let (rest, confirms, later) =
        waited-Confirms c.ack_timeout (length bs) (omega (arith, Serializes-length to_vec written))
          cfg.keepalive ticks heard in
      (
        rest,
        send-clean z to_vec c arrivals ev evs bs wire written few (All-map (λ b h. h.0) bs small)
            ∙ rw (await_ack_complete c.ack_timeout (length bs) confirms),
        later,
      )

  pub order-IsProper :
      (bs : List Bytes) (ticks : ℕ) (usage : Usage)
      → IsAdmitted bs
      → IsProper cfg.max_frame_size (order bs ticks usage)
  order-IsProper bs ticks usage (few, small, fits) =
      rw (events_of-groups_of c.compression_level (number 0 bs)) (
        omega (arith, length-number 0 bs),
        number-Ascending 0 bs,
        All-groups_of (IsSendable cfg.max_frame_size) c.compression_level (number 0 bs)
            (number-IsTaken cfg.max_frame_size 0 bs (omega arith) small),
      )

  pub waited-Fits :
      (ticks n : ℕ)
      → IsU32 n
      → All
          (λ f. IsEncodable z f × Fits z c.codec.max_frame_size f)
          (waited cfg.keepalive ticks ++ ack n ∷ [])
  waited-Fits ticks n h = on cfg.keepalive
    where
      keepalives-Fits :
          (k : ℕ)
          → All
              (λ f. IsEncodable z f × Fits z c.codec.max_frame_size f)
              (keepalives k ++ ack n ∷ [])
      keepalives-Fits zero = ((h, tt), tt)
      keepalives-Fits (suc k) = ((omega arith, tt), keepalives-Fits k)

      on :
          (keepalive : Option ℕ)
          → All
              (λ f. IsEncodable z f × Fits z c.codec.max_frame_size f)
              (waited keepalive ticks ++ ack n ∷ [])
      on none = keepalives-Fits 0
      on (some interval) = keepalives-Fits ticks
