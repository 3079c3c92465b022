-- ===== src/Server/Progress/Invariant.antt =====
-- src/server.rs: what holds of a window while it is filled, whatever the peer sends.
use lumberjack_protocol.Server.Progress.{
  Progress, take_event, unpack, take_item, collect, Zlib, ℕ, Bytes, Frame, decode_with_limit, ok,
  Item, broken, is_empty, arrived, json, only_json, compressed, window, ack, start,
}
use lumberjack_protocol.Frame.Wire.{Wire-length}
use lumberjack_protocol.Base.{
  ◌≡◌, IsU32, length, ◌<◌, ◌≤◌, some, lt_or_le, inr, le→leb, arith, ap, inl, length-append,
  lt→leb_false, ◌∷◌, [], refl, suc, Bool-cases, List, not, ltb, Option, ◌&&◌, zero, subst, none,
  All,
}
use lumberjack_protocol.Error.{Ensures, M, Result, bind, Ensures-bind, err, Returns, panics, hangs}
use lumberjack_protocol.Frame.Sound.{decode-Reads}
use lumberjack_protocol.Frame.Incremental.{decode-Returns}
use lumberjack_protocol.Server.Progress.Steps.{
  unpack_done, collect_full, unpack_more, collect_closed, collect_more,
}

-- `size` is the size of the window. Each event raises the sequence number, which begins above 0.
pub record IsFilling (size : ℕ) (p : Progress) : Type 0 where
  pub counted : p.received ≡ length p.events
  pub within : p.received ≤ size
  pub spaced : p.received ≤ p.prev_seq
  pub latest : p.last_seq ≡ p.prev_seq

take_event-IsFilling :
    (size seq : ℕ) (payload : Bytes) (p : Progress)
    → IsU32 size
    → IsFilling size p
    → p.received < size
    → Ensures (IsFilling size) (take_event seq payload p)
unfolding take_event
take_event-IsFilling size seq payload p h v more = elim (lt_or_le p.prev_seq seq) [
  | inr old ↦ rw (le→leb _ _ old) tt
  | inl fresh ↦ rw (lt→leb_false _ _ fresh) (record {
    counted = omega (arith, v.counted, length-append p.events (payload ∷ []));
    within = omega arith;
    spaced = omega (arith, v.spaced);
    latest = refl;
  })
]

-- A frame that is read shortens the buffer.
pub decode_shrinks :
    (z : Zlib) (max : ℕ) (src rest : Bytes) {f : Frame}
    → decode_with_limit z max src ≡ (ok (some f), rest)
    → length rest < length src
decode_shrinks z max src rest h =
    let (bytes, cut, w, _) = decode-Reads z max h in
    omega (arith, Wire-length w, ap length cut, length-append bytes rest)

-- The window is full when the loop ends with a value.
abbrev pub IsFull : ℕ → Progress → Type 0
IsFull size p =
    (length p.events ≡ size) × (p.received ≡ size) × (p.last_seq ≡ p.prev_seq) × (size ≤ p.last_seq)

pub start-IsFilling : (size : ℕ) → IsFilling size start
start-IsFilling size = omega arith

module _ (z : Zlib) (max size : ℕ) (is_u32 : IsU32 size) where
  -- One round of the inner loop, before whatever it goes on with.
  round-IsFilling :
      (p : Progress) (buf : Bytes) (next : Progress → M Bytes Progress)
      → IsFilling size p
      → p.received < size
      → ((p' : Progress) (rest : Bytes)
          → length rest < length buf
          → IsFilling size p'
          → Ensures (IsFilling size) (next p' rest).0)
      → (d : Result (Option Frame) × Bytes) → decode_with_limit z max buf ≡ d
      → Ensures
          (IsFilling size)
          (bind d λ frame buf'.
            bind
              (only_json frame, buf')
              λ event buf''. bind (take_event event.0 event.1 p, buf'') next).0
  round-IsFilling p buf next v room go (ok none, rest) e = tt
  round-IsFilling p buf next v room go (ok (some (window n)), rest) e = tt
  round-IsFilling p buf next v room go (ok (some (ack n)), rest) e = tt
  round-IsFilling p buf next v room go (ok (some (compressed n)), rest) e = tt
  round-IsFilling p buf next v room go (ok (some (json seq payload)), rest) e =
      Ensures-bind (IsFilling size) _ rest next
        (take_event-IsFilling size seq payload p is_u32 v room)
        (λ p' v'. go p' rest (decode_shrinks z max buf rest e) v')
  round-IsFilling p buf next v room go (err x, rest) e = tt
  round-IsFilling p buf next v room go (panics, rest) e =
      subst (λ (r : Result (Option Frame) × Bytes). Returns r.0) e (decode-Returns z max buf)
  round-IsFilling p buf next v room go (hangs, rest) e =
      subst (λ (r : Result (Option Frame) × Bytes). Returns r.0) e (decode-Returns z max buf)

  -- The inner loop, on a buffer shorter than its fuel.
  unpack-IsFilling :
      (fuel : ℕ) (p : Progress) (buf : Bytes)
      → length buf < fuel
      → IsFilling size p
      → Ensures (IsFilling size) (unpack z max size fuel p buf).0
  unfolding unpack
  unpack-IsFilling zero p buf h v = absurd (omega arith)
  unpack-IsFilling (suc fuel) p buf h v =
      elim (Bool-cases (not (is_empty buf) && ltb p.received size)) [
        | inr done ↦ rw (unpack_done z max size fuel p buf done) v
        | inl more ↦ rw (unpack_more z max size fuel p buf more) (
            round-IsFilling p buf (λ p'. unpack z max size fuel p') v (ground arith)
              (λ p' rest shorter v'. unpack-IsFilling fuel p' rest (omega arith) v')
              (decode_with_limit z max buf) refl)
      ]

  take_item-IsFilling :
      (item : Item) (p : Progress)
      → IsFilling size p
      → p.received < size
      → Ensures (IsFilling size) (take_item z max size item p)
  unfolding take_item
  take_item-IsFilling (broken e) p v room = tt
  take_item-IsFilling (arrived (json seq payload)) p v room =
      take_event-IsFilling size seq payload p is_u32 v room
  take_item-IsFilling (arrived (compressed inner)) p v room =
      unpack-IsFilling (suc (length inner)) p inner (omega arith) v
  take_item-IsFilling (arrived (window n)) p v room = tt
  take_item-IsFilling (arrived (ack n)) p v room = tt

  -- Whatever the peer sends behind a window of `size` events, `size` being a 32-bit number: the
  -- loop that fills the window, from a state that it can be in, comes to an end, and if it ends
  -- well then there are exactly `size` events, the counter is `size`, and the last sequence number
  -- is at least `size`.
  pub collect-IsFull :
      (p : Progress) (items : List Item)
      → IsFilling size p
      → Ensures (IsFull size) (collect z max size p items).0
  collect-IsFull p [] v = elim (lt_or_le p.received size) [
    | inr done ↦ rw (collect_full z max size p [] done) (omega (arith, v))
    | inl more ↦ rw (collect_closed z max size p more) tt
  ]
  collect-IsFull p (item ∷ rest) v = elim (lt_or_le p.received size) [
    | inr done ↦ rw (collect_full z max size p (item ∷ rest) done) (omega (arith, v))
    | inl more ↦ rw (collect_more z max size p item rest more) (
        Ensures-bind (IsFull size) _ rest (λ p' _. collect z max size p' rest)
          (take_item-IsFilling item p v more) (λ p' v'. collect-IsFull p' rest v'))
  ]

bind-All :
    {A : Type 0} (P : Item → Type 0) (r : Result A) (rest : List Item)
    (f : A → List Item → Result A × List Item)
    → All P rest
    → ((a : A) → All P (f a rest).1)
    → All P (bind (r, rest) f).1
bind-All P (ok a) rest f h k = k a
bind-All P (err e) rest f h k = h
bind-All P panics rest f h k = h
bind-All P hangs rest f h k = h

-- What is left of the stream is an end of it.
pub collect-All :
    (P : Item → Type 0) (z : Zlib) (max size : ℕ) (p : Progress) (items : List Item)
    → All P items
    → All P (collect z max size p items).1
collect-All P z max size p [] h = elim (lt_or_le p.received size) [
  | inr done ↦ rw (collect_full z max size p [] done) tt
  | inl more ↦ rw (collect_closed z max size p more) tt
]
collect-All P z max size p (item ∷ rest) h = elim (lt_or_le p.received size) [
  | inr done ↦ rw (collect_full z max size p (item ∷ rest) done) h
  | inl more ↦ rw (collect_more z max size p item rest more) (
      bind-All P (take_item z max size item p) rest (λ p' _. collect z max size p' rest) h.1
        (λ p'. collect-All P z max size p' rest h.1))
]

bind-length :
    {A : Type 0} (r : Result A) (rest : List Item) (n : ℕ)
    (f : A → List Item → Result A × List Item)
    → length rest ≤ n
    → ((a : A) → length (f a rest).1 ≤ n)
    → length (bind (r, rest) f).1 ≤ n
bind-length (ok a) rest n f h k = k a
bind-length (err e) rest n f h k = h
bind-length panics rest n f h k = h
bind-length hangs rest n f h k = h

pub length-collect :
    (z : Zlib) (max size : ℕ) (p : Progress) (items : List Item)
    → length (collect z max size p items).1 ≤ length items
length-collect z max size p [] = elim (lt_or_le p.received size) [
  | inr done ↦ rw (collect_full z max size p [] done) (omega arith)
  | inl more ↦ rw (collect_closed z max size p more) (omega arith)
]
length-collect z max size p (item ∷ rest) = elim (lt_or_le p.received size) [
  | inr done ↦ rw (collect_full z max size p (item ∷ rest) done) (omega arith)
  | inl more ↦ rw (collect_more z max size p item rest more) (
      bind-length (take_item z max size item p) rest _ (λ p' _. collect z max size p' rest)
        (omega arith) (λ p'. omega (arith, length-collect z max size p' rest)))
]
