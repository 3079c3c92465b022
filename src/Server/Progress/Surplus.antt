-- ===== src/Server/Progress/Surplus.antt =====
-- src/server.rs: what a `C` frame holds beyond its window.
use lumberjack_protocol.Server.Progress.Grouping.{HasRoom, absorb, unpack_event, absorb-append}
use lumberjack_protocol.Server.Progress.{
  Progress, unpack, take_item, collect, start, Zlib, List, ℕ, Bytes, ◌++◌, compressed, ok, is_empty,
}
use lumberjack_protocol.Base.{
  ◌≡◌, [], append_assoc, IsU32, ◌+◌, ◌∙◌, length, ◌∷◌, refl, ◌<◌, length-append, suc, arith, All,
  false, zero, append-nil, add-zero, zero-add, le→ltb_false, Bool, not, ◌&&◌, true,
}
use lumberjack_protocol.Codec.{encode_all, arrived, Item, length-json_frames}
use lumberjack_protocol.Server.Progress.Steps.{unpack_done, collect_full, collect_more}
use lumberjack_protocol.Events.{Event, json_frames, IsSendable, Ascending, payloads, last_of}

and-false : (b : Bool) → (b && false) ≡ false
and-false true = refl
and-false false = refl

-- A window that is full takes nothing more out of a `C` frame.
unpack_full :
    (z : Zlib) (max size fuel : ℕ) (p : Progress) (es : List Event) (rest : Bytes)
    → length es < fuel
    → HasRoom size p es
    → p.received + length es ≡ size
    → All (IsSendable max) es
    → unpack z max size fuel p (encode_all z (json_frames es) ++ rest) ≡ (ok (absorb p es), rest)
unpack_full z max size zero p es rest h room full sendable = absurd (omega arith)
unpack_full z max size (suc fuel) p [] rest h room full sendable =
    unpack_done z max size fuel p rest
      (rw (le→ltb_false p.received size (omega arith)) (and-false (not (is_empty rest))))
    ∙ rw (append-nil p.events, add-zero)
unpack_full z max size (suc fuel) p ((seq, payload) ∷ es) rest h room full sendable =
    rw append_assoc (
      unpack_event z max size fuel p seq payload es (encode_all z (json_frames es) ++ rest) room
        sendable.0
      ∙ unpack_full z max size fuel (absorb p ((seq, payload) ∷ [])) es rest (omega arith)
          (room.0, omega arith, room.2.1) (omega arith) sendable.1
      ∙ rw (absorb-append p ((seq, payload) ∷ []) es))

-- A `C` frame that fills its window may go on with any bytes: they are dropped unread, and the
-- window becomes the same batch as without them.
pub collect_surplus :
    (z : Zlib) (max : ℕ) (es : List Event) (surplus : Bytes) (more : List Item)
    → IsU32 (length es)
    → Ascending 0 es
    → All (IsSendable max) es
    → 0 < length es
    → collect z max
        (length es)
        start
        (arrived (compressed (encode_all z (json_frames es) ++ surplus)) ∷ more)
      ≡ (
        ok (record {
          events = payloads es;
          received = length es;
          last_seq = last_of 0 es;
          prev_seq = last_of 0 es;
        }),
        more,
      )
unfolding take_item
collect_surplus z max es surplus more is_u32 rising sendable some_events =
    collect_more z max (length es) start _ more some_events
    ∙ rw
        (
          unpack_full z max (length es) (suc (length (encode_all z (json_frames es) ++ surplus)))
              start es surplus
              (omega (
                arith,
                length-json_frames z es,
                length-append (encode_all z (json_frames es)) surplus,
              ))
              (is_u32, omega arith, rising) (omega arith) sendable,
          take_item,
        )
        (collect_full z max (length es) (absorb start es) more (omega arith) ∙ rw zero-add)
