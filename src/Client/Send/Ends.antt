-- ===== src/Client/Send/Ends.antt =====
-- src/client.rs: `Client::send` comes to an end.
use lumberjack_protocol.Client.Link.{
  Link, Arrival, item, closes, for_ever, in_time, send_with_optional_timeout-Goes,
  flush_with_optional_timeout-Goes, Goes, Goes-bind, send_with_optional_timeout,
  flush_with_optional_timeout,
}
use lumberjack_protocol.Client.Send.{
  Client, Serialized, encode_events, send_frames, send_next, send_payload, await_ack, receive,
  transmit, send, serialize, Zlib, bytes, fault, Frame, Item, window, arrived, json, compressed, ok,
  broken, ack, err, M, bind,
}
use lumberjack_protocol.Client.Send.Ack.{
  late, late_for_ever, closes-Returns, punctual_ack, unexpected, await_ack_complete, confirmed,
}
use lumberjack_protocol.Server.Progress.Invariant.{decode_shrinks}
use lumberjack_protocol.Frame.Incremental.{decode-Returns}
use lumberjack_protocol.Frame.{decode_with_limit, default_max_frame_size}
use lumberjack_protocol.Error.{Returns, Returns-bind, Result, panics, hangs}
use lumberjack_protocol.Base.{
  refl, arith, ℕ, List, ◌≡◌, Bytes, some, ◌∷◌, length, ◌+◌, [], Bool-cases, ltb, ◌<◌, true, inl,
  suc, Option, inr, lt_or_le, subst, zero, none, All, lt→leb_false,
}

-- The peer does not send for ever in time.
abbrev pub IsBounded : ℕ → Arrival → Type 0
IsBounded t (for_ever d seq) = t < d
IsBounded t (item d it) = Unit
IsBounded t (closes d) = Unit

await_ack-Returns :
    (t n : ℕ) (arrivals : List Arrival)
    → All (IsBounded t) arrivals
    → Returns (await_ack (some t) n arrivals).0
await_ack-Returns t n [] h = unfold await_ack in tt
await_ack-Returns t n (closes d ∷ rest) h = closes-Returns (some t) n d rest
await_ack-Returns t n (for_ever d seq ∷ rest) (slow, h) =
    rw (late_for_ever (some t) n d seq rest (lt→leb_false _ _ slow)) tt
await_ack-Returns t n (item d it ∷ rest) (_, h) = elim (Bool-cases (in_time (some t) d)) [
  | inr tardy ↦ rw (late (some t) n d it rest tardy) tt
  | inl punctual ↦ on_item it punctual (await_ack-Returns t n rest h)
]
  where
    on_item :
        (it : Item)
        → in_time (some t) d ≡ true
        → Returns (await_ack (some t) n rest).0
        → Returns (await_ack (some t) n (item d it ∷ rest)).0
    on_item (arrived (window k)) h ih = rw (unexpected (some t) n d _ _ rest h refl) tt
    on_item (arrived (json seq payload)) h ih = rw (unexpected (some t) n d _ _ rest h refl) tt
    on_item (arrived (compressed inner)) h ih = rw (unexpected (some t) n d _ _ rest h refl) tt
    on_item (broken e) h ih = rw (unexpected (some t) n d _ _ rest h refl) tt
    on_item (arrived (ack seq)) h ih = elim (lt_or_le seq n) [
      | inl few ↦ rw (punctual_ack (some t) n d seq rest h few) ih
      | inr enough ↦ rw (await_ack_complete (some t) n {rest = rest} (confirmed d seq h enough)) tt
    ]

serialize-Returns : (r : Serialized) → Returns (serialize r)
serialize-Returns (bytes b) = tt
serialize-Returns (fault m) = tt

module _ {T : Type 0} (z : Zlib) (to_vec : T → Serialized) where
  encode_events-Returns :
      (i : ℕ) (evs : List T) (payload : Bytes) → Returns (encode_events z to_vec i evs payload).0
  unfolding encode_events
  encode_events-Returns i [] payload = tt
  encode_events-Returns i (ev ∷ evs) payload =
      Returns-bind (serialize (to_vec ev), payload) _ (serialize-Returns (to_vec ev))
        (λ b. encode_events-Returns (i + 1) evs _)

module _ (z : Zlib) (c : Client) (t : ℕ) (limited : c.write_timeout ≡ some t)
    (arrivals : List Arrival) where
  sent-Goes :
      (f : Frame) (s : Link)
      → s.arrivals ≡ arrivals
      → Goes arrivals (send_with_optional_timeout z c.codec c.write_timeout f s)
  sent-Goes f s same = rw (limited, ← same) (send_with_optional_timeout-Goes z c.codec t f s)

  send_frames-Goes :
      (fuel : ℕ) (buf : Bytes) (s : Link)
      → length buf < fuel
      → s.arrivals ≡ arrivals
      → Goes arrivals (send_frames z c fuel buf s)
  unfolding send_frames send_next
  send_frames-Goes zero buf s h same = absurd (omega arith)
  send_frames-Goes (suc fuel) buf s h same =
      on (decode_with_limit z default_max_frame_size buf) refl
        (λ rest s shorter same. send_frames-Goes fuel rest s (omega arith) same)
    where
      on :
          (d : Result (Option Frame) × Bytes)
          → decode_with_limit z default_max_frame_size buf ≡ d
          → ((rest : Bytes) (s : Link)
              → length rest < length buf
              → s.arrivals ≡ arrivals
              → Goes arrivals (send_frames z c fuel rest s))
          → Goes arrivals (send_next z c (λ rest. send_frames z c fuel rest) d s)
      on (ok none, rest) e k = (tt, same)
      on (ok (some f), rest) e k =
          Goes-bind (send_with_optional_timeout z c.codec c.write_timeout f s) _
            (sent-Goes f s same)
            (λ _ u kept. k rest u (decode_shrinks z default_max_frame_size buf rest e) kept)
      on (err x, rest) e k = (tt, same)
      on (panics, rest) e k = absurd (
          subst (λ (r : Result (Option Frame) × Bytes). Returns r.0) e
            (decode-Returns z default_max_frame_size buf))
      on (hangs, rest) e k = absurd (
          subst (λ (r : Result (Option Frame) × Bytes). Returns r.0) e
            (decode-Returns z default_max_frame_size buf))

  send_payload-Goes :
      (payload : Bytes) (s : Link)
      → s.arrivals ≡ arrivals
      → Goes arrivals (send_payload z c payload s)
  unfolding send_payload
  send_payload-Goes payload s same = elim (Bool-cases (ltb 0 c.compression_level)) [
    | inl on ↦ rw on (sent-Goes (compressed payload) s same)
    | inr off ↦ rw off (send_frames-Goes (suc (length payload)) payload s (omega arith) same)
  ]

  flushed-Goes :
      (s : Link)
      → s.arrivals ≡ arrivals
      → Goes arrivals (flush_with_optional_timeout c.write_timeout s)
  flushed-Goes s same = rw (limited, ← same) (flush_with_optional_timeout-Goes t s)

Goes-Returns :
    {A B : Type 0} {arrivals : List Arrival} (r : Result A × Link) (f : A → M Link B)
    → Goes arrivals r
    → ((a : A) (t : Link) → t.arrivals ≡ arrivals → Returns (f a t).0)
    → Returns (bind r f).0
Goes-Returns (ok a, t) f (h, e) k = k a t e
Goes-Returns (err x, t) f (h, e) k = tt
Goes-Returns (panics, t) f (h, e) k = h
Goes-Returns (hangs, t) f (h, e) k = h

module _ {T : Type 0} (z : Zlib) (to_vec : T → Serialized) (c : Client) (t u : ℕ) where
  transmit-Returns :
      (n : ℕ) (payload : Bytes) (s : Link)
      → c.write_timeout ≡ some t
      → c.ack_timeout ≡ some u
      → All (IsBounded u) s.arrivals
      → Returns (transmit z c n payload s).0
  unfolding transmit receive
  transmit-Returns n payload s h k bounded =
      Goes-Returns (send_with_optional_timeout z c.codec c.write_timeout (window n) s) _
        (sent-Goes z c t h s.arrivals (window n) s refl)
        λ _ s1 e1.
          Goes-Returns (send_payload z c payload s1) _
            (send_payload-Goes z c t h s.arrivals payload s1 e1)
            λ _ s2 e2.
              Goes-Returns (flush_with_optional_timeout c.write_timeout s2) _
                (flushed-Goes z c t h s.arrivals s2 e2)
                λ _ s3 e3. rw k (await_ack-Returns u n s3.arrivals (rw e3 bounded))

  -- With both timeouts set, and unless the peer sends acknowledgements for ever that each come
  -- within the ack timeout, `send` comes to an end, with a value or an error of the crate, whatever
  -- the events, serde_json, flate2, the network and the peer are.
  pub send-Returns :
      (evs : List T) (s : Link)
      → c.write_timeout ≡ some t
      → c.ack_timeout ≡ some u
      → All (IsBounded u) s.arrivals
      → Returns (send z to_vec c evs s).0
  unfolding send
  send-Returns [] s h k bounded = tt
  send-Returns (ev ∷ evs) s h k bounded =
      Returns-bind ((encode_events z to_vec 0 (ev ∷ evs) []).0, s) _
        (encode_events-Returns z to_vec 0 (ev ∷ evs) []) (λ _. transmit-Returns _ _ s h k bounded)
