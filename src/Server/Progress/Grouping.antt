-- ===== src/Server/Progress/Grouping.antt =====
-- src/server.rs: which batch a window becomes. Whether a client sends its events as `J` frames or
-- puts any of them together in `C` frames makes no difference.
use lumberjack_protocol.Frame
use lumberjack_protocol.Server.Progress.{
  Progress, take_event, unpack, take_item, collect, start, Zlib, List, ℕ, Bytes, ◌++◌, Frame, json,
  compressed, ok, is_empty, Result,
}
use lumberjack_protocol.Base.{
  ◌≡◌, [], append_assoc, IsU32, ◌+◌, ◌∙◌, length, ap, ◌≤◌, ◌∷◌, refl, ◌<◌, length-append, suc,
  add_assoc, arith, mod-eq_of_lt, ◌^◌, All, lt→ltb, false, zero, append-nil, add-zero, map,
  zero-add,
}
use lumberjack_protocol.Codec.{encode_all, arrived, Item, length-json_frames}
use lumberjack_protocol.Server.Progress.Steps.{
  take_event_fresh, unpack_more, unpack_done, collect_full, collect_more,
}
use lumberjack_protocol.Frame.Wire.{decode-Wire}
use lumberjack_protocol.Frame.RoundTrip.{json-Wire, encode-Within}
use lumberjack_protocol.Events.{
  Event, json_frames, IsSendable, Ascending, payloads-append, payloads, Ascending-append,
  last_of-append, last_of,
}

-- What goes into one frame: one event, or one and more of them compressed together.
pub data Group : Type 0 where
  plain : Event → Group
  packed : Event → List Event → Group

abbrev pub frame_of : Zlib → Group → Frame
frame_of z (plain e) = json e.0 e.1
frame_of z (packed e es) = compressed (encode_all z (json_frames (e ∷ es)))

abbrev pub members : Group → List Event
members (plain e) = e ∷ []
members (packed e es) = e ∷ es

abbrev pub events_of : List Group → List Event
events_of [] = []
events_of (g ∷ gs) = members g ++ events_of gs

-- A window that has taken these events too.
abbrev pub absorb : Progress → List Event → Progress
absorb p es = record {
  events = p.events ++ payloads es;
  received = p.received + length es;
  last_seq = last_of p.last_seq es;
  prev_seq = last_of p.prev_seq es;
}

pub absorb-append :
    (p : Progress) (es fs : List Event) → absorb (absorb p es) fs ≡ absorb p (es ++ fs)
absorb-append p es fs =
    simp (payloads-append, last_of-append, length-append, append_assoc, add_assoc)

-- A progress that fits this window, before these events.
abbrev pub HasRoom : ℕ → Progress → List Event → Type 0
HasRoom size p es = IsU32 size × (p.received + length es ≤ size) × Ascending p.prev_seq es

take_event-absorb :
    (size : ℕ) (p : Progress) (seq : ℕ) (payload : Bytes) (es : List Event)
    → HasRoom size p ((seq, payload) ∷ es)
    → take_event seq payload p ≡ ok (absorb p ((seq, payload) ∷ []))
take_event-absorb size p seq payload es (is_u32, room, (fresh, _)) =
    take_event_fresh seq payload p fresh
    ∙ rw (mod-eq_of_lt {n = p.received + 1} {m = 2 ^ 32} (omega arith))

is_empty-encode :
    (z : Zlib) (seq : ℕ) (payload rest : Bytes)
    → is_empty (Frame.encode z (json seq payload) [] ++ rest) ≡ false
unfolding Frame.encode
is_empty-encode z seq payload rest = refl

length-members : (g : Group) → 0 < length (members g)
length-members (plain e) = omega arith
length-members (packed e es) = omega arith

module _ (z : Zlib) (max size : ℕ) where
  -- One round of the inner loop reads one event.
  pub unpack_event :
      (fuel : ℕ) (p : Progress) (seq : ℕ) (payload : Bytes) (es : List Event) (rest : Bytes)
      → HasRoom size p ((seq, payload) ∷ es)
      → IsSendable max (seq, payload)
      → unpack z max size (suc fuel) p (Frame.encode z (json seq payload) [] ++ rest)
        ≡ unpack z max size fuel (absorb p ((seq, payload) ∷ [])) rest
  unpack_event fuel p seq payload es rest room (h, short, small) =
      unpack_more z max size fuel p (Frame.encode z (json seq payload) [] ++ rest)
        (rw (is_empty-encode z seq payload rest) (lt→ltb _ _ (omega arith)))
      ∙ rw
          (decode-Wire z max rest (json-Wire z seq payload (h, short))
            (encode-Within z max (json seq payload) small))
          (rw (take_event-absorb size p seq payload es room))

  unpack_events :
      (fuel : ℕ) (p : Progress) (es : List Event)
      → length es < fuel
      → HasRoom size p es
      → All (IsSendable max) es
      → unpack z max size fuel p (encode_all z (json_frames es)) ≡ (ok (absorb p es), [])
  unpack_events zero p es h room sendable = absurd (omega arith)
  unpack_events (suc fuel) p [] h room sendable =
      unpack_done z max size fuel p [] refl ∙ rw (append-nil p.events, add-zero)
  unpack_events (suc fuel) p ((seq, payload) ∷ es) h room sendable =
      unpack_event fuel p seq payload es (encode_all z (json_frames es)) room sendable.0
      ∙ unpack_events fuel (absorb p ((seq, payload) ∷ [])) es (omega arith)
          (room.0, omega arith, room.2.1) sendable.1
      ∙ rw (absorb-append p ((seq, payload) ∷ []) es)

  take_item-absorb :
      (p : Progress) (g : Group) (fs : List Event)
      → HasRoom size p (members g ++ fs)
      → All (IsSendable max) (members g)
      → take_item z max size (arrived (frame_of z g)) p ≡ ok (absorb p (members g))
  unfolding take_item
  take_item-absorb p (plain (seq, payload)) fs room sendable =
      take_event-absorb size p seq payload fs room
  take_item-absorb p (packed e es) fs (is_u32, room, rising) sendable =
      ap (λ (r : Result Progress × Bytes). r.0)
        (unpack_events (suc (length (encode_all z (json_frames (e ∷ es))))) p (e ∷ es)
          (omega (arith, length-json_frames z (e ∷ es)))
          (
            is_u32,
            omega (arith, length-append es fs),
            (Ascending-append p.prev_seq (e ∷ es) fs rising).0,
          )
          sendable)

  -- The groups go by, and leave their events in the window.
  pub collect-pass :
      (p : Progress) (gs : List Group) (more : List Item)
      → HasRoom size p (events_of gs)
      → All (λ g. All (IsSendable max) (members g)) gs
      → collect z max size p (map (λ g. arrived (frame_of z g)) gs ++ more)
        ≡ collect z max size (absorb p (events_of gs)) more
  collect-pass p [] more room sendable = rw (append-nil p.events, add-zero)
  collect-pass p (g ∷ gs) more room sendable =
      collect_more z max size p (arrived (frame_of z g)) _
        (omega (arith, length-append (members g) (events_of gs), length-members g))
      ∙ rw (take_item-absorb p g (events_of gs) room sendable.0) (
          collect-pass (absorb p (members g)) gs more
            (
              room.0,
              omega (arith, length-append (members g) (events_of gs)),
              (Ascending-append p.prev_seq (members g) (events_of gs) room.2).1,
            )
            sendable.1
          ∙ rw (absorb-append p (members g) (events_of gs)))

-- If the events behind a window are as many as it says, have rising numbers and are within the
-- limit, then the window becomes their payloads, in their order, and their last number, in whatever
-- way they are spread over `J` frames and `C` frames; what follows stays in the stream.
pub collect-groups :
    (z : Zlib) (max : ℕ) (gs : List Group) (more : List Item)
    → IsU32 (length (events_of gs))
    → Ascending 0 (events_of gs)
    → All (λ g. All (IsSendable max) (members g)) gs
    → collect z max (length (events_of gs)) start (map (λ g. arrived (frame_of z g)) gs ++ more) ≡ (
      ok (record {
        events = payloads (events_of gs);
        received = length (events_of gs);
        last_seq = last_of 0 (events_of gs);
        prev_seq = last_of 0 (events_of gs);
      }),
      more,
    )
collect-groups z max gs more is_u32 rising sendable =
    collect-pass z max (length (events_of gs)) start gs more (is_u32, omega arith, rising) sendable
    ∙ collect_full z max (length (events_of gs)) (absorb start (events_of gs)) more (omega arith)
    ∙ rw zero-add
