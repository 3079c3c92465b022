-- ===== src/Server/Progress.antt =====
-- src/server.rs: the two loops of `run_connection` that fill one window.
pub mod Steps
pub mod Invariant
pub mod Grouping
pub mod Faults
pub mod Extends
pub mod Sound
pub mod Surplus
use lumberjack_protocol.Base.{
  refl, Option, Bytes, List, ℕ, [], Bool, if◌then◌else◌, some, true, leb, ◌∷◌, suc, ltb, not, false,
  ◌&&◌, ◌++◌, length, as_u32, ◌+◌, none, zero,
}
use lumberjack_protocol.Frame.Flate.{Zlib}
use lumberjack_protocol.Frame.{Frame, json, compressed, window, decode_with_limit, ack}
use lumberjack_protocol.Codec.{Item, broken, arrived}
use lumberjack_protocol.Error.{
  Result, M, hang, err, ok, connection_closed, seq_out_of_order, panics, unexpected_frame, bind,
  invalid_frame, hangs,
}

-- The local variables of the loop.
pub record Progress : Type 0 where
  pub events : List Bytes
  pub received : ℕ
  pub last_seq : ℕ
  pub prev_seq : ℕ

abbrev pub start : Progress
start = record { events = []; received = 0; last_seq = 0; prev_seq = 0 }

-- What both loops do with a `J` frame.
unfoldable pub take_event : ℕ → Bytes → Progress → Result Progress
take_event seq payload p =
    if leb seq p.prev_seq
    then err (seq_out_of_order seq p.prev_seq)
    else ok (record {
      events = p.events ++ payload ∷ [];
      received = as_u32 (p.received + 1);
      last_seq = seq;
      prev_seq = seq;
    })

-- The `match inner_frame`.
abbrev pub only_json : Option Frame → Result (ℕ × Bytes)
only_json (some (json seq payload)) = ok (seq, payload)
only_json (some (window n)) = err (unexpected_frame "compressed payload must contain only J frames")
only_json (some (ack n)) = err (unexpected_frame "compressed payload must contain only J frames")
only_json (some (compressed inner)) =
    err (unexpected_frame "compressed payload must contain only J frames")
only_json none = err (invalid_frame "compressed payload truncated")

abbrev pub is_empty : Bytes → Bool
is_empty [] = true
is_empty (b ∷ bs) = false

-- `while !buf.is_empty() && received < window`, on fuel; the state is `buf`.
pub unpack : Zlib → ℕ → ℕ → ℕ → Progress → M Bytes Progress
unpack z max_frame_size size zero p = hang
unpack z max_frame_size size (suc fuel) p = λ buf.
    elim (not (is_empty buf) && ltb p.received size) [
      | false ↦ (ok p, buf)
      | true ↦ bind (decode_with_limit z max_frame_size buf) λ frame buf'.
          bind (only_json frame, buf')
            λ event buf''.
              bind (take_event event.0 event.1 p, buf'') λ p'. unpack z max_frame_size size fuel p'
    ]

-- The `match frame`. A frame takes at least a byte of the buffer, so its length is enough fuel.
unfoldable pub take_item : Zlib → ℕ → ℕ → Item → Progress → Result Progress
unfolding unpack
take_item z max_frame_size size (broken e) p = err e
take_item z max_frame_size size (arrived (json seq payload)) p = take_event seq payload p
take_item z max_frame_size size (arrived (compressed inner)) p =
    (unpack z max_frame_size size (suc (length inner)) p inner).0
take_item z max_frame_size size (arrived (window n)) p =
    err (unexpected_frame "expected J or C inside window")
take_item z max_frame_size size (arrived (ack n)) p =
    err (unexpected_frame "expected J or C inside window")

-- `while received < window`; the list is what `framed.next()` still gives.
unfoldable pub collect : Zlib → ℕ → ℕ → Progress → List Item → Result Progress × List Item
unfolding take_item
collect z max_frame_size size p [] =
    if ltb p.received size then (err connection_closed, []) else (ok p, [])
collect z max_frame_size size p (item ∷ rest) = elim (ltb p.received size) [
  | false ↦ (ok p, item ∷ rest)
  | true ↦
      bind (take_item z max_frame_size size item p, rest)
        λ p' _. collect z max_frame_size size p' rest
]
