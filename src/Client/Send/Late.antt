-- ===== src/Client/Send/Late.antt =====
-- src/client.rs: a `Client` after `send` has given up on an acknowledgement.
use lumberjack_protocol.Client.Link.{Arrival, item, in_time, healthy}
use lumberjack_protocol.Client.Send.{
  Client, Serialized, send, remaining, Zlib, err, ack_timeout, ok,
}
use lumberjack_protocol.Client.Send.Frames.{Serializes, payload_frames, send-clean}
use lumberjack_protocol.Client.Send.Ack.{late, await_ack_complete, confirmed}
use lumberjack_protocol.Codec.{encode_all, arrived}
use lumberjack_protocol.Frame.{window, ack, default_max_frame_size}
use lumberjack_protocol.Events.{number}
use lumberjack_protocol.Base.{
  List, Bytes, ℕ, length, ◌<◌, ◌∷◌, ◌≡◌, ◌^◌, All, false, true, ◌≤◌, [], ◌++◌, ◌∙◌,
}

module _ {T : Type 0} (z : Zlib) (to_vec : T → Serialized) (c : Client) where
  -- What a batch of these payloads puts on the wire.
  abbrev pub batch_bytes : List Bytes → Bytes
  batch_bytes bs =
      encode_all z (window (length bs) ∷ payload_frames z c.compression_level (number 0 bs))

  -- The protocol can carry these payloads.
  abbrev pub IsSmall : List Bytes → Type 0
  IsSmall bs = (length bs < 2 ^ 32) × All (λ b. length b ≤ default_max_frame_size) bs

  -- Two calls of `send` on one client, with flushes that succeed and events that fit the protocol:
  -- if the acknowledgement of the first batch comes too late for the first call and in time for the
  -- second, and its number is not below the size of the second batch, then the first call fails
  -- with `ack_timeout`, and the second returns its number of events on that acknowledgement of the
  -- first batch.
  pub send_after_timeout :
      (ev₁ ev₂ : T) (evs₁ evs₂ : List T) (bs₁ bs₂ : List Bytes) (d seq : ℕ) (rest : List Arrival)
      → Serializes to_vec (ev₁ ∷ evs₁) bs₁
      → Serializes to_vec (ev₂ ∷ evs₂) bs₂
      → IsSmall bs₁
      → IsSmall bs₂
      → in_time c.ack_timeout d ≡ false
      → in_time c.ack_timeout (remaining c.ack_timeout d) ≡ true
      → length bs₂ ≤ seq
      → let between =
          healthy (item (remaining c.ack_timeout d) (arrived (ack seq)) ∷ rest) (batch_bytes bs₁) in
        (send z to_vec c (ev₁ ∷ evs₁) (healthy (item d (arrived (ack seq)) ∷ rest) [])
          ≡ (err ack_timeout, between))
        × (send z to_vec c (ev₂ ∷ evs₂) between
            ≡ (ok (length bs₂), healthy rest (batch_bytes bs₁ ++ batch_bytes bs₂)))
  send_after_timeout ev₁ ev₂ evs₁ evs₂ bs₁ bs₂ d seq rest w₁ w₂ small₁ small₂ tardy punctual
        enough =
      (
        send-clean z to_vec c _ ev₁ evs₁ bs₁ [] w₁ small₁.0 small₁.1
            ∙ rw (late c.ack_timeout (length bs₁) d (arrived (ack seq)) rest tardy),
        send-clean z to_vec c _ ev₂ evs₂ bs₂ (batch_bytes bs₁) w₂ small₂.0 small₂.1
            ∙ rw (
                await_ack_complete c.ack_timeout (length bs₂) {rest = rest}
                  (confirmed (remaining c.ack_timeout d) seq punctual enough)),
      )
