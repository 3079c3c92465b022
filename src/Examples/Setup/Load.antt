-- ===== src/Examples/Setup/Load.antt =====
-- src/examples/baseline.rs: one of the clients against the server that `main` started, with the
-- protocol between them.
use lumberjack_protocol.Examples.Args.{SyntheticEvent}
use lumberjack_protocol.Examples.Setup.{repeated, ℕ}
use lumberjack_protocol.Examples.Setup.Ready.{load_client, load_config}
use lumberjack_protocol.EndToEnd.{Carries, IsAdmitted}
use lumberjack_protocol.EndToEnd.Calls.{
  Call, bytes_of, batch_for, IsFine, reaction_of, send_all, upstream, downstream, session,
}
use lumberjack_protocol.Server.Connection.{run_connection, answers}
use lumberjack_protocol.Server.Connection.Session.{calm}
use lumberjack_protocol.Server.Batch.{acks, new, sender}
use lumberjack_protocol.Client.Send.{Serialized, bytes}
use lumberjack_protocol.Client.Send.Frames.{Serializes, nothing, one_more}
use lumberjack_protocol.Client.Link.{Arrival, healthy}
use lumberjack_protocol.Codec.{encode_all, Framed, with_max_frame_size}
use lumberjack_protocol.Codec
use lumberjack_protocol.Events.{number, json_frames}
use lumberjack_protocol.Frame.Flate.{Zlib, Inverts}
use lumberjack_protocol.Frame.Inflate.{chunk_size}
use lumberjack_protocol.Frame.RoundTrip.{IsEncodable, Fits}
use lumberjack_protocol.Frame.{ack, default_max_frame_size}
use lumberjack_protocol.Error.{ok}
use lumberjack_protocol.Base.{
  Bytes, map, All, ◌≡◌, length, List, suc, ◌+◌, zero, arith, ap, ◌<◌, ◌^◌, ◌∷◌, refl, ◌≤◌, some, [],
  ◌∙◌,
}

length-repeated : {A : Type 0} (n : ℕ) (a : A) → length (repeated n a) ≡ n
length-repeated zero a = refl
length-repeated (suc n) a = omega (arith, length-repeated n a)

map-repeated : {A B : Type 0} (f : A → B) (n : ℕ) (a : A) → map f (repeated n a) ≡ repeated n (f a)
map-repeated f zero a = refl
map-repeated f (suc n) a = ap (◌∷◌ (f a)) (map-repeated f n a)

All-repeated : {A : Type 0} (P : A → Type 0) (n : ℕ) (a : A) → P a → All P (repeated n a)
All-repeated P zero a h = tt
All-repeated P (suc n) a h = (h, All-repeated P n a h)

module _ (z : Zlib) (to_vec : SyntheticEvent → Serialized) (ev : SyntheticEvent)
    (written : Bytes) where
  -- A batch of one event and `more`, which the consumer acknowledges at once.
  abbrev pub load_call : ℕ → Call SyntheticEvent
  load_call more = record {
    event = ev;
    events = repeated more ev;
    payload = written;
    payloads = repeated more written;
    ticks = 0;
    usage = acks;
  }

  Serializes-repeated :
      (n : ℕ) → to_vec ev ≡ bytes written → Serializes to_vec (repeated n ev) (repeated n written)
  Serializes-repeated zero h = nothing
  Serializes-repeated (suc n) h = one_more written h (Serializes-repeated n h)

  frames-Fit :
      (i n : ℕ)
      → i + n < 2 ^ 32
      → length written ≤ default_max_frame_size
      → All
          (λ f. IsEncodable z f × Fits z default_max_frame_size f)
          (json_frames (number i (repeated n written)))
  frames-Fit i zero few small = tt
  frames-Fit i (suc n) few small =
      (((omega arith, omega arith), small), frames-Fit (i + 1) n (omega arith) small)

  call-IsAdmitted :
      (more : ℕ)
      → suc more < 2 ^ 32
      → length written ≤ default_max_frame_size
      → IsAdmitted z to_vec load_client load_config (bytes_of (load_call more))
  call-IsAdmitted more few small =
      let same = length-repeated (suc more) written in
      (
        omega arith,
        All-repeated
            (λ b. (length b ≤ default_max_frame_size) × (length b ≤ default_max_frame_size))
            (suc more) written (small, small),
        ((omega arith, tt), frames-Fit 0 (suc more) (omega arith) small),
      )

  downstream-repeated :
      (n more : ℕ)
      → downstream z to_vec load_client load_config (repeated n (load_call more))
        ≡ repeated n (ack (suc more))
  downstream-repeated zero more = refl
  downstream-repeated (suc n) more =
      rw (length-repeated more written, downstream-repeated n more) refl

  module _ (client_framed : Framed z Codec.new)
      (server_framed : Framed z (with_max_frame_size default_max_frame_size))
      (inverts : Inverts z chunk_size) where
    -- With a lossless flate2, readers in the manner of `Framed`, an event that serde_json writes in
    -- at most 16 MiB, batches of fewer than 2 ^ 32 events, writes that succeed and acknowledgements
    -- that come within 30 seconds: a client that sends its batch `n` times gets its size back each
    -- time, and the server hands over `n` times this batch and writes `n` acknowledgements of it.
    pub load_session :
        (n more : ℕ) (arrivals : List Arrival)
        → to_vec ev ≡ bytes written
        → suc more < 2 ^ 32
        → length written ≤ default_max_frame_size
        → Carries (some 30_000) (repeated n (ack (suc more))) arrivals
        → let calls = repeated n (load_call more) in
          let up = encode_all z (upstream z to_vec load_client load_config calls) in
          (send_all z to_vec load_client calls (healthy arrivals [])
            ≡ (ok (repeated n (suc more)), healthy [] up))
          × (run_connection z load_config
                (calm (server_framed.items up) (repeated n (answers 0 acks)) [] [])
              ≡ (
                ok tt,
                calm [] []
                    (encode_all z (repeated n (ack (suc more))))
                    (repeated n (new (repeated (suc more) written) (suc more) sender)),
              ))
    load_session n more arrivals writes few small heard =
        let call = load_call more in
        let fine : IsFine z to_vec load_client load_config (load_call more) =
          (Serializes-repeated (suc more) writes, call-IsAdmitted more few small) in
        let (client, server, _) =
          session z to_vec load_client load_config client_framed server_framed inverts
            (repeated n call) arrivals
            (All-repeated (IsFine z to_vec load_client load_config) n call fine)
            (rw (downstream-repeated n more) heard) in
        let sizes : map (λ (k : Call SyntheticEvent). length (bytes_of k)) (repeated n call)
            ≡ repeated n (suc more) =
          map-repeated _ n call ∙ ap (λ k. repeated n (suc k)) (length-repeated more written) in
        let batches : map batch_for (repeated n call)
            ≡ repeated n (new (repeated (suc more) written) (suc more) sender) =
          map-repeated batch_for n call
          ∙ ap (λ k. repeated n (new (repeated (suc more) written) (suc k) sender))
              (length-repeated more written) in
        let reactions : map reaction_of (repeated n call) ≡ repeated n (answers 0 acks) =
          map-repeated reaction_of n call in
        (rw sizes at client, rw (downstream-repeated n more, batches, reactions) at server)
