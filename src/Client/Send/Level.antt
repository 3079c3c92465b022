-- ===== src/Client/Send/Level.antt =====
-- src/client.rs: what the compression level of a client decides.
use lumberjack_protocol.Client.Link.{Link}
use lumberjack_protocol.Client.Send.{
  Client, Serialized, encode_events, send_payload, transmit, send, Zlib, bind,
}
use lumberjack_protocol.Base.{refl, ℕ, List, ◌<◌, ◌≡◌, Bytes, lt→ltb, ◌∷◌, [], ap, as_u32, length}

-- The same client with another level.
abbrev pub with_level : ℕ → Client → Client
with_level level c = record c { compression_level = level }

module _ (z : Zlib) (c : Client) (level : ℕ) (on : 0 < level) (on' : 0 < c.compression_level) where
  send_payload-with_level :
      (payload : Bytes) → send_payload z (with_level level c) payload ≡ send_payload z c payload
  unfolding send_payload
  send_payload-with_level payload = rw (lt→ltb _ _ on, lt→ltb _ _ on')

  transmit-with_level :
      (n : ℕ) (payload : Bytes) → transmit z (with_level level c) n payload ≡ transmit z c n payload
  unfolding transmit
  transmit-with_level n payload = rw (send_payload-with_level payload)

-- Two clients that differ only in their compression levels, which are both above 0, do the same:
-- the level makes no difference to what is written, read or returned.
pub send-with_level :
    {T : Type 0} (z : Zlib) (to_vec : T → Serialized) (c : Client) (level : ℕ) (evs : List T)
    (s : Link)
    → 0 < level
    → 0 < c.compression_level
    → send z to_vec (with_level level c) evs s ≡ send z to_vec c evs s
unfolding send
send-with_level z to_vec c level [] s h k = refl
send-with_level z to_vec c level (ev ∷ evs) s h k =
    ap (λ f. bind ((encode_events z to_vec 0 (ev ∷ evs) []).0, s) (λ (_ : Unit {0}). f))
      (transmit-with_level z c level h k (as_u32 (length (ev ∷ evs)))
        (encode_events z to_vec 0 (ev ∷ evs) []).1)
