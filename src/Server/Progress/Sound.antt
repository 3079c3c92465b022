-- ===== src/Server/Progress/Sound.antt =====
-- src/server.rs: whatever the peer sends, a window holds what came over the stream and nothing else.
use lumberjack_protocol.Server.Progress.{
  Progress, start, take_event, unpack, take_item, collect, only_json, is_empty, Result, Zlib, ok,
  bind, err,
}
use lumberjack_protocol.Server.Progress.Invariant.{IsFull, collect-IsFull, start-IsFilling}
use lumberjack_protocol.Server.Progress.Extends.{
  Extends, OnOk, OnOk-bind, OnOk-map, OnOk-value, length-payloads, Extends-refl, Extends-trans,
  take_event-Extends,
}
use lumberjack_protocol.Server.Progress.Steps.{
  unpack_done, unpack_more, collect_full, collect_closed, collect_more,
}
use lumberjack_protocol.Frame.Sound.{decode-Reads}
use lumberjack_protocol.Frame.Wire.{Wire}
use lumberjack_protocol.Events.{Event, Ascending, payloads, last_of}
use lumberjack_protocol.Codec.{Item, arrived, broken}
use lumberjack_protocol.Frame.{Frame, window, json, compressed, ack, decode_with_limit}
use lumberjack_protocol.Base.{
  refl, arith, List, [], ℕ, ◌++◌, ◌≡◌, Bytes, ◌∷◌, suc, lt_or_le, ◌∙◌, inl, Option, inr, some,
  Bool-cases, subst, not, ◌&&◌, ltb, zero, none, ap, length, sym, IsU32,
}
use lumberjack_protocol.Error.{panics, hangs, Ensures}

-- `J` frames in the wire format at the front of a buffer, and the events that they are.
pub data Unpacks (z : Zlib) : Bytes → List Event → Type 0 where
  no_more : (buf : Bytes) → Unpacks z buf []
  next_event :
      (seq : ℕ) (payload bytes rest : Bytes) {es : List Event}
      → Wire z (json seq payload) bytes
      → Unpacks z rest es
      → Unpacks z (bytes ++ rest) ((seq, payload) ∷ es)

-- The events that these items of the stream carry.
pub data Carries (z : Zlib) : List Item → List Event → Type 0 where
  nothing : Carries z [] []
  in_json :
      (seq : ℕ) (payload : Bytes) {items : List Item} {es : List Event}
      → Carries z items es
      → Carries z (arrived (json seq payload) ∷ items) ((seq, payload) ∷ es)
  in_compressed :
      (inner : Bytes) (fs : List Event) {items : List Item} {es : List Event}
      → Unpacks z inner fs
      → Carries z items es
      → Carries z (arrived (compressed inner) ∷ items) (fs ++ es)

module _ (z : Zlib) (max size : ℕ) where
  abbrev Unpacked : Progress → Bytes → Progress → Bytes → Type 0
  Unpacked p buf p' left = (es : List Event) × Unpacks z buf es × Extends p es p'

  unpack-Unpacked :
      (fuel : ℕ) (p : Progress) (buf : Bytes) → OnOk (Unpacked p buf) (unpack z max size fuel p buf)
  unfolding unpack
  unpack-Unpacked zero p buf = tt
  unpack-Unpacked (suc fuel) p buf = elim (Bool-cases (not (is_empty buf) && ltb p.received size)) [
    | inr done ↦ rw (unpack_done z max size fuel p buf done) ([], no_more buf, Extends-refl p)
    | inl more ↦
        rw (unpack_more z max size fuel p buf more)
          (on (decode_with_limit z max buf) refl (λ p' rest. unpack-Unpacked fuel p' rest))
  ]
    where
      on :
          (d : Result (Option Frame) × Bytes)
          → decode_with_limit z max buf ≡ d
          → ((p' : Progress) (rest : Bytes)
              → OnOk (Unpacked p' rest) (unpack z max size fuel p' rest))
          → OnOk (Unpacked p buf) (
              bind d λ frame buf'.
                bind
                  (only_json frame, buf')
                  λ event buf''.
                    bind (take_event event.0 event.1 p, buf'') λ p'. unpack z max size fuel p')
      on (ok (some (json seq payload)), rest) e ih =
          let (bytes, cut, w, _) = decode-Reads z max e in
          OnOk-bind (λ p'. Extends p ((seq, payload) ∷ []) p') (Unpacked p buf)
            (take_event seq payload p) rest (λ p'. unpack z max size fuel p')
            (take_event-Extends seq payload p rest)
            (λ p' one.
              OnOk-map (Unpacked p' rest) (Unpacked p buf) (unpack z max size fuel p' rest)
                (λ q left (es, u, ext). (
                  (seq, payload) ∷ es,
                  subst (λ b. Unpacks z b ((seq, payload) ∷ es)) (sym cut)
                      (next_event seq payload bytes rest w u),
                  Extends-trans p p' q ((seq, payload) ∷ []) es one ext,
                ))
                (ih p' rest))
      on (ok (some (window n)), rest) e ih = tt
      on (ok (some (ack n)), rest) e ih = tt
      on (ok (some (compressed n)), rest) e ih = tt
      on (ok none, rest) e ih = tt
      on (err x, rest) e ih = tt
      on (panics, rest) e ih = tt
      on (hangs, rest) e ih = tt

  abbrev Collected : Progress → List Item → Progress → List Item → Type 0
  Collected p items p' rest =
      (used : List Item) × (es : List Event) × (items ≡ used ++ rest)
      × Carries z used es
      × Extends p es p'

  -- What one item adds.
  abbrev Added : Progress → Item → Progress → Type 0
  Added p item p' =
      (fs : List Event) × ((items : List Item) (es : List Event)
        → Carries z items es
        → Carries z (item ∷ items) (fs ++ es))
      × Extends p fs p'

  take_item-Added :
      (p : Progress) (item : Item) (rest : List Item)
      → OnOk (λ p' _. Added p item p') (take_item z max size item p, rest)
  unfolding take_item
  take_item-Added p (broken e) rest = tt
  take_item-Added p (arrived (window n)) rest = tt
  take_item-Added p (arrived (ack n)) rest = tt
  take_item-Added p (arrived (json seq payload)) rest =
      OnOk-map (λ p' _. Extends p ((seq, payload) ∷ []) p') _ (take_event seq payload p, rest)
        (λ p' _ ext. ((seq, payload) ∷ [], (λ items es c. in_json seq payload c), ext))
        (take_event-Extends seq payload p rest)
  take_item-Added p (arrived (compressed inner)) rest =
      OnOk-value (Unpacked p inner) (Added p (arrived (compressed inner)))
        (unpack z max size (suc (length inner)) p inner) rest
        (λ p' _ (fs, u, ext). (fs, (λ items es c. in_compressed inner fs u c), ext))
        (unpack-Unpacked (suc (length inner)) p inner)

  collect-Collected :
      (p : Progress) (items : List Item) → OnOk (Collected p items) (collect z max size p items)
  collect-Collected p [] = elim (lt_or_le p.received size) [
    | inr done ↦ rw (collect_full z max size p [] done) ([], [], refl, nothing, Extends-refl p)
    | inl more ↦ rw (collect_closed z max size p more) tt
  ]
  collect-Collected p (item ∷ rest) = elim (lt_or_le p.received size) [
    | inr done ↦
        rw (collect_full z max size p (item ∷ rest) done) ([], [], refl, nothing, Extends-refl p)
    | inl more ↦ rw (collect_more z max size p item rest more) (
        OnOk-bind (Added p item) (Collected p (item ∷ rest)) (take_item z max size item p) rest
          (λ p' _. collect z max size p' rest) (take_item-Added p item rest)
          (λ p' (fs, put, one).
            OnOk-map (Collected p' rest) (Collected p (item ∷ rest)) (collect z max size p' rest)
              (λ q left (used, es, cut, c, ext). (
                item ∷ used,
                fs ++ es,
                ap (◌∷◌ item) cut,
                put used es c,
                Extends-trans p p' q fs es one ext,
              ))
              (collect-Collected p' rest)))
  ]

  -- Whatever the peer sends behind a window of `size` events, `size` being a 32-bit number: if the
  -- loop that fills the window ends well, then it took the front of the stream, `J` and `C` frames
  -- that carry exactly `size` events with rising numbers (in a `C` frame, as `J` frames in the wire
  -- format at its front), and the batch is the payloads of these events, in their order, and the
  -- last of their numbers.
  pub collect-Carries :
      (p : Progress) (items rest : List Item)
      → IsU32 size
      → collect z max size start items ≡ (ok p, rest)
      → (used : List Item) × (es : List Event) × (items ≡ used ++ rest)
        × Carries z used es
        × Ascending 0 es
        × (length es ≡ size)
        × (p.events ≡ payloads es)
        × (p.last_seq ≡ last_of 0 es)
  collect-Carries p items rest is_u32 h =
      let (used, es, cut, c, (same, latest, rising)) =
        subst (OnOk (Collected start items)) h (collect-Collected start items) in
      let (whole, _, last, _) =
        subst (λ (r : Result Progress × List Item). Ensures (IsFull size) r.0) h
          (collect-IsFull z max size is_u32 start items (start-IsFilling size)) in
      (
        used,
        es,
        cut,
        c,
        rising,
        omega (arith, whole, ap length same, length-payloads es),
        same,
        last ∙ latest,
      )
