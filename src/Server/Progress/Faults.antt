-- ===== src/Server/Progress/Faults.antt =====
-- src/server.rs: what can go wrong inside a window.
use lumberjack_protocol.Server.Progress.{Progress, collect, take_item, Zlib}
use lumberjack_protocol.Server.Progress.Steps.{collect_more, collect_closed, take_event_old}
use lumberjack_protocol.Codec.{Item, arrived, broken}
use lumberjack_protocol.Frame.{window, json, ack}
use lumberjack_protocol.Error.{Error, connection_closed, err, seq_out_of_order, unexpected_frame}
use lumberjack_protocol.Base.{refl, ℕ, List, [], ◌<◌, ◌≡◌, ◌∷◌, ◌∙◌, Bytes, ◌≤◌}

-- What can go wrong where a window is not full and its last sequence number is `prev`: the stream
-- ends or cannot be decoded, or it goes on with a number that does not rise or with another frame.
pub data Fault (prev : ℕ) : List Item → Error → Type 0 where
  closed : Fault prev [] connection_closed
  undecodable : (e : Error) (more : List Item) → Fault prev (broken e ∷ more) e
  out_of_order :
      (seq : ℕ) (payload : Bytes) (more : List Item)
      → seq ≤ prev
      → Fault prev (arrived (json seq payload) ∷ more) (seq_out_of_order seq prev)
  window_inside :
      (n : ℕ) (more : List Item)
      → Fault prev (arrived (window n) ∷ more) (unexpected_frame "expected J or C inside window")
  ack_inside :
      (n : ℕ) (more : List Item)
      → Fault prev (arrived (ack n) ∷ more) (unexpected_frame "expected J or C inside window")

module _ (z : Zlib) (max size : ℕ) where
  item_fault :
      (p : Progress) (item : Item) (more : List Item) (e : Error)
      → p.received < size
      → take_item z max size item p ≡ err e
      → collect z max size p (item ∷ more) ≡ (err e, more)
  item_fault p item more e room h = collect_more z max size p item more room ∙ rw h

  pub collect-Fault :
      (p : Progress) (items : List Item) (e : Error)
      → p.received < size
      → Fault p.prev_seq items e
      → (collect z max size p items).0 ≡ err e
  unfolding take_item
  collect-Fault p items e room closed = rw (collect_closed z max size p room)
  collect-Fault p items e room (undecodable e' more) = rw (item_fault p _ more e' room refl)
  collect-Fault p items e room (out_of_order seq payload more old) = rw (
      item_fault p _ more (seq_out_of_order seq p.prev_seq) room (take_event_old seq payload p old))
  collect-Fault p items e room (window_inside n more) = rw (item_fault p _ more _ room refl)
  collect-Fault p items e room (ack_inside n more) = rw (item_fault p _ more _ room refl)
