-- ===== src/Client/Send/Waits.antt =====
-- src/client.rs: when `Client::send` waits for ever.
use lumberjack_protocol.Client.Link.{Arrival, item, for_ever, in_time}
use lumberjack_protocol.Client.Send.{Client, Option, ℕ, some, List}
use lumberjack_protocol.Codec.{arrived}
use lumberjack_protocol.Frame.{ack}
use lumberjack_protocol.Base.{◌≡◌, ◌∷◌, true, ◌<◌}

-- In time, each time, come acknowledgements of fewer than `n` events, without an end.
pub data Keeps (limit : Option ℕ) (n : ℕ) : List Arrival → Type 0 where
  unending :
      (d seq : ℕ) {more : List Arrival}
      → in_time limit d ≡ true
      → seq < n
      → Keeps limit n (for_ever d seq ∷ more)
  once_more :
      (d seq : ℕ) {arrivals : List Arrival}
      → in_time limit d ≡ true
      → seq < n
      → Keeps limit n arrivals
      → Keeps limit n (item d (arrived (ack seq)) ∷ arrivals)

module _ (t n : ℕ) where
  abbrev limit : Option ℕ
  limit = some t
