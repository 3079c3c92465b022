-- ===== src/EndToEnd/Calls.antt =====
-- src/client.rs and src/server.rs together: any number of `Client::send` on one client against one
-- `run_connection`.
use lumberjack_protocol.EndToEnd.{
  Carries, sent, answered, IsAdmitted, order, client_side, order-IsProper, waited-Fits, Carries-nil,
}
use lumberjack_protocol.EndToEnd.Groups.{events_of-groups_of, frames-groups_of}
use lumberjack_protocol.Server.Connection.Session.{
  Order, calm, items_of, replies_to, batch_of, reaction_to, IsProper, run_connection-session,
}
use lumberjack_protocol.Server.Connection.{ConnectionConfig, run_connection, Reaction, answers}
use lumberjack_protocol.Server.Connection.Trace.{encode_all-append}
use lumberjack_protocol.Server.Batch.{Batch, Usage, new, sender}
use lumberjack_protocol.Client.Send.{Client, Serialized, send}
use lumberjack_protocol.Client.Send.Frames.{Serializes}
use lumberjack_protocol.Client.Link.{Link, Arrival, healthy}
use lumberjack_protocol.Codec.{encode_all, Framed, items-encode_all, arrived, with_max_frame_size}
use lumberjack_protocol.Events.{number, payloads-number, length-number, last_of-number}
use lumberjack_protocol.Frame.Flate.{Zlib, Inverts}
use lumberjack_protocol.Frame.Inflate.{chunk_size}
use lumberjack_protocol.Frame.RoundTrip.{IsEncodable, Fits}
use lumberjack_protocol.Frame.{Frame}
use lumberjack_protocol.Error.{M, ok, return, ◌>>=◌}
use mathlib.Core.List.{map-append}
use lumberjack_protocol.Base.{
  refl, ℕ, List, ◌≡◌, map, All, ◌∷◌, ◌++◌, [], ap, Bytes, arith, length, append-nil, append_assoc,
  zero-add, All-append,
}

-- A call with one event or more, as serde_json writes them, and how the consumer fares with the batch.
pub record Call (T : Type 0) : Type 0 where
  pub event : T
  pub events : List T
  pub payload : Bytes
  pub payloads : List Bytes
  pub ticks : ℕ
  pub usage : Usage

module _ {T : Type 0} where
  abbrev pub bytes_of : Call T → List Bytes
  bytes_of k = k.payload ∷ k.payloads

  abbrev pub reaction_of : Call T → Reaction
  reaction_of k = answers k.ticks k.usage

  -- One batch for each call: its events in their order, and their number as the last number.
  abbrev pub batch_for : Call T → Batch
  batch_for k = new (bytes_of k) (length (bytes_of k)) sender

module _ {T : Type 0} (z : Zlib) (to_vec : T → Serialized) (c : Client) where
  -- One call of `send` after the other; the first error ends it.
  pub send_all : List (Call T) → M Link (List ℕ)
  send_all [] = return []
  send_all (k ∷ ks) = do n ← send z to_vec c (k.event ∷ k.events); ns ← send_all ks; return (n ∷ ns)

  module _ (cfg : ConnectionConfig) where
    abbrev pub upstream : List (Call T) → List Frame
    upstream [] = []
    upstream (k ∷ ks) = sent z to_vec c cfg (bytes_of k) ++ upstream ks

    abbrev pub downstream : List (Call T) → List Frame
    downstream [] = []
    downstream (k ∷ ks) = answered z to_vec c cfg k.ticks (bytes_of k) ++ downstream ks

    -- serde_json writes the events, and the limits admit them.
    abbrev pub IsFine : Call T → Type 0
    IsFine k =
        Serializes to_vec (k.event ∷ k.events) (bytes_of k) × IsAdmitted z to_vec c cfg (bytes_of k)

    abbrev order_of : Call T → Order
    order_of k = order z to_vec c cfg (bytes_of k) k.ticks k.usage

    client_calls :
        (ks : List (Call T)) (arrivals : List Arrival) (wire : Bytes)
        → All IsFine ks
        → Carries c.ack_timeout (downstream ks) arrivals
        → send_all ks (healthy arrivals wire) ≡ (
          ok (map (λ k. length (bytes_of k)) ks),
          healthy [] (wire ++ encode_all z (upstream ks)),
        )
    unfolding send_all
    client_calls [] arrivals wire fine heard = rw (Carries-nil heard, append-nil) refl
    client_calls (k ∷ ks) arrivals wire ((written, admitted), fine) heard =
        let (rest, same, later) =
          client_side z to_vec c cfg k.event k.events (bytes_of k) k.ticks (downstream ks) arrivals
            wire written admitted heard in
        rw
          (
            same,
            client_calls ks rest (wire ++ encode_all z (sent z to_vec c cfg (bytes_of k))) fine
                later,
            encode_all-append z (sent z to_vec c cfg (bytes_of k)) (upstream ks),
            append_assoc,
          )
          refl

    items_of-order_of :
        (ks : List (Call T)) → items_of z (map order_of ks) ≡ map arrived (upstream ks)
    items_of-order_of [] = refl
    items_of-order_of (k ∷ ks) = rw (
      events_of-groups_of c.compression_level (number 0 (bytes_of k)),
      frames-groups_of z c.compression_level (1, k.payload) (number 1 k.payloads),
      length-number 0 (bytes_of k),
      items_of-order_of ks,
      map-append,
    )

    replies_to-order_of :
        (ks : List (Call T)) → replies_to cfg.keepalive (map order_of ks) ≡ downstream ks
    replies_to-order_of [] = refl
    replies_to-order_of (k ∷ ks) = rw (
      events_of-groups_of c.compression_level (number 0 (bytes_of k)),
      last_of-number 0 (bytes_of k),
      zero-add,
      replies_to-order_of ks,
      append_assoc,
    )

    batch_of-order_of : (ks : List (Call T)) → map batch_of (map order_of ks) ≡ map batch_for ks
    batch_of-order_of [] = refl
    batch_of-order_of (k ∷ ks) = rw (
      events_of-groups_of c.compression_level (number 0 (bytes_of k)),
      payloads-number 0 (bytes_of k),
      last_of-number 0 (bytes_of k),
      zero-add,
      batch_of-order_of ks,
    )

    reaction_to-order_of :
        (ks : List (Call T)) → map reaction_to (map order_of ks) ≡ map reaction_of ks
    reaction_to-order_of [] = refl
    reaction_to-order_of (k ∷ ks) = ap (◌∷◌ (reaction_of k)) (reaction_to-order_of ks)

    orders-IsProper :
        (ks : List (Call T)) → All IsFine ks → All (IsProper cfg.max_frame_size) (map order_of ks)
    orders-IsProper [] fine = tt
    orders-IsProper (k ∷ ks) ((written, admitted), fine) = (
      order-IsProper z to_vec c cfg (bytes_of k) k.ticks k.usage admitted,
      orders-IsProper ks fine,
    )

    server_calls :
        (ks : List (Call T))
        → All IsFine ks
        → run_connection z cfg (calm (map arrived (upstream ks)) (map reaction_of ks) [] [])
          ≡ (ok tt, calm [] [] (encode_all z (downstream ks)) (map batch_for ks))
    server_calls ks fine =
        rw
          (
            items_of-order_of ks,
            reaction_to-order_of ks,
            replies_to-order_of ks,
            batch_of-order_of ks,
          )
          at (run_connection-session z cfg (map order_of ks) [] [] (orders-IsProper ks fine))

    abbrev IsReadable : ℕ → Frame → Type 0
    IsReadable limit f = IsEncodable z f × Fits z limit f

    upstream-IsReadable :
        (ks : List (Call T)) → All IsFine ks → All (IsReadable cfg.max_frame_size) (upstream ks)
    upstream-IsReadable [] fine = tt
    upstream-IsReadable (k ∷ ks) ((written, admitted), fine) =
        All-append (IsReadable cfg.max_frame_size) (sent z to_vec c cfg (bytes_of k)) (upstream ks)
          admitted.2 (upstream-IsReadable ks fine)

    downstream-IsReadable :
        (ks : List (Call T))
        → All IsFine ks
        → All (IsReadable c.codec.max_frame_size) (downstream ks)
    downstream-IsReadable [] fine = tt
    downstream-IsReadable (k ∷ ks) ((written, admitted), fine) =
        All-append (IsReadable c.codec.max_frame_size)
          (answered z to_vec c cfg k.ticks (bytes_of k)) (downstream ks)
          (waited-Fits z to_vec c cfg k.ticks (length (bytes_of k)) (omega arith))
          (downstream-IsReadable ks fine)

    module _ (client_framed : Framed z c.codec)
        (server_framed : Framed z (with_max_frame_size cfg.max_frame_size))
        (inverts : Inverts z chunk_size) where
      -- Any number of calls of `send` on one client, one after the other, against one
      -- `run_connection`, with any flate2 that decompresses what it compressed, any reader in the
      -- manner of `Framed` on either side, and flushes that succeed. If each call has one event or
      -- more and fewer than 2 ^ 32, which fit the limits of both sides, the consumer is done with
      -- each batch after some keepalive intervals and in some way, and the frames that the server
      -- answers come in time: every call returns the number of its events; the server, on what the
      -- client wrote, hands over one batch for each call and in their order, each the events as
      -- serde_json wrote them, and answers each with its keepalives and one acknowledgement of all
      -- its events; and the client reads these frames, and no more, off the server's bytes.
      pub session :
          (ks : List (Call T)) (arrivals : List Arrival)
          → All IsFine ks
          → Carries c.ack_timeout (downstream ks) arrivals
          → (send_all ks (healthy arrivals [])
              ≡ (ok (map (λ k. length (bytes_of k)) ks), healthy [] (encode_all z (upstream ks))))
            × (run_connection z cfg (
                  calm
                    (server_framed.items (encode_all z (upstream ks)))
                    (map reaction_of ks)
                    []
                    [])
                ≡ (ok tt, calm [] [] (encode_all z (downstream ks)) (map batch_for ks)))
            × (client_framed.items (encode_all z (downstream ks)) ≡ map arrived (downstream ks))
      session ks arrivals fine heard = (
        client_calls ks arrivals [] fine heard,
        rw
            (items-encode_all z (with_max_frame_size cfg.max_frame_size) server_framed (upstream ks)
              inverts (upstream-IsReadable ks fine))
            (server_calls ks fine),
        items-encode_all z c.codec client_framed (downstream ks) inverts
            (downstream-IsReadable ks fine),
      )
