-- ===== src/Server/Batch.antt =====
-- src/server.rs: `Batch`, and the oneshot channel over which it is acknowledged.
use lumberjack_protocol.Base.{
  refl, List, Bool, ℕ, ◌++◌, ◌==◌, Bytes, length, [], some, Option, ◌∷◌, ◌≡◌, none,
}

-- The sending half of `oneshot::channel()`. What the receiving half gets is a list: it is empty
-- until the one value is sent.
pub data Sender : Type 0 where
  sender : Sender

abbrev pub Channel : Type 0
Channel = List ℕ

abbrev pub tx_send : ℕ → Channel → Channel
tx_send v ch = ch ++ v ∷ []

pub record Batch : Type 0 where
  pub events : List Bytes
  pub last_seq : ℕ
  pub ack : Option Sender

unfoldable pub new : List Bytes → ℕ → Sender → Batch
new events last_seq tx = record { events = events; last_seq = last_seq; ack = some tx }

abbrev pub len : Batch → ℕ
len b = length b.events

abbrev pub is_empty : Batch → Bool
is_empty b = len b == 0

-- `if let Some(tx) = self.ack.take() { let _ = tx.send(self.last_seq); }`
abbrev take_and_send : Batch → Channel → Batch × Channel
take_and_send b ch = elim b.ack [
  | none ↦ (b, ch)
  | some tx ↦ (record b { ack = none }, tx_send b.last_seq ch)
]

-- `Drop::drop`
pub drop : Batch → Channel → Channel
drop b ch = (take_and_send b ch).1

-- `ack(mut self)`: the batch goes out of scope at the end, so it is dropped too.
pub acknowledge : Batch → Channel → Channel
unfolding drop
acknowledge b ch = let (b', ch') = take_and_send b ch in drop b' ch'

-- `into_events(mut self)` leaves an empty list behind, and drops the batch.
pub into_events : Batch → Channel → List Bytes × Channel
unfolding drop
into_events b ch = (b.events, drop (record b { events = [] }) ch)

-- The ways in which a consumer can be done with a batch.
pub data Usage : Type 0 where
  acks drops takes_events : Usage

unfoldable pub consume : Usage → Batch → Channel → Channel
unfolding acknowledge drop into_events
consume acks b ch = acknowledge b ch
consume drops b ch = drop b ch
consume takes_events b ch = (into_events b ch).1

-- Whether a batch is acknowledged, dropped or turned into its events: its last sequence number is
-- sent to the connection, and it is sent once.
pub consume-once :
    (u : Usage) (events : List Bytes) (last_seq : ℕ) (tx : Sender)
    → consume u (new events last_seq tx) [] ≡ last_seq ∷ []
unfolding consume new
consume-once acks events last_seq tx = refl
consume-once drops events last_seq tx = refl
consume-once takes_events events last_seq tx = refl
