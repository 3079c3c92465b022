-- ===== src/Server/Queue/Promise.antt =====
-- What one connection is promised of the channel, without the channel: one batch at a time goes
-- to the application and is acknowledged. No other connection, no queue and no capacity is in it.
use lumberjack_protocol.Server.Batch.{Batch}
use lumberjack_protocol.Server.Queue.{
  Act, spawns, offers, submits, is_refused, keeps_alive, acknowledges, leaves, receives,
  receives_none, finishes, drops_receiver, stops_listening,
}
use lumberjack_protocol.Base.{
  ℕ, List, [], ◌∷◌, ◌++◌, ◌≡◌, Option, some, none, if◌then◌else◌, ◌==◌, Bool, true, false,
}

-- How far the connection is. One that has ended may leave a batch that no one has taken.
pub data Stage : Type 0 where
  not_yet : Stage
  reading : Stage
  offered : Batch → Stage
  queued : Batch → Stage
  in_use : Batch → Stage
  answered : ℕ → Stage
  ended : Option Batch → Stage

-- What can be seen of it: its batch is complete, the application gets a batch from `recv`, the
-- peer is sent a keepalive or an acknowledgement, and the server is dropped.
pub data Sight : Type 0 where
  batch_complete : Batch → Sight
  batch_received : Batch → Sight
  keepalive_written : Sight
  ack_written : ℕ → Sight
  server_dropped : Sight

-- A batch that is in the channel when the server is dropped counts as acknowledged.
abbrev pub after_drop : Stage → Stage
after_drop (queued b) = answered b.last_seq
after_drop (ended (some b)) = ended none
after_drop a = a

-- One thing that may happen at a connection, what is seen of it, and whether the server is there
-- before and after. A batch that was taken is acknowledged with its last sequence number;
-- keepalives come only while there is no answer; only without a server is a batch refused.
pub data Move : Bool → Stage → List Sight → Bool → Stage → Type 0 where
  stay : {o : Bool} {a : Stage} → Move o a [] o a
  begin : {o : Bool} → Move o not_yet [] o reading
  complete : {o : Bool} {b : Batch} → Move o reading (batch_complete b ∷ []) o (offered b)
  admit : {b : Batch} → Move true (offered b) [] true (queued b)
  refuse : {b : Batch} → Move false (offered b) [] false (ended none)
  take : {b : Batch} → Move true (queued b) (batch_received b ∷ []) true (in_use b)
  take_late : {b : Batch} → Move true (ended (some b)) (batch_received b ∷ []) true (ended none)
  wait_queued : {o : Bool} {b : Batch} → Move o (queued b) (keepalive_written ∷ []) o (queued b)
  wait_in_use : {o : Bool} {b : Batch} → Move o (in_use b) (keepalive_written ∷ []) o (in_use b)
  done_with : {o : Bool} {b : Batch} → Move o (in_use b) [] o (answered b.last_seq)
  confirm : {o : Bool} {n : ℕ} → Move o (answered n) (ack_written n ∷ []) o reading
  leave_reading : {o : Bool} → Move o reading [] o (ended none)
  leave_queued : {o : Bool} {b : Batch} → Move o (queued b) [] o (ended (some b))
  leave_in_use : {o : Bool} {b : Batch} → Move o (in_use b) [] o (ended none)
  leave_answered : {o : Bool} {n : ℕ} → Move o (answered n) [] o (ended none)
  lose_server : {a b : Stage} → b ≡ after_drop a → Move true a (server_dropped ∷ []) false b

pub data Journey : Bool → Stage → List Sight → Bool → Stage → Type 0 where
  here : {o : Bool} (a : Stage) → Journey o a [] o a
  onward :
      {o o' o'' : Bool} {a b c : Stage} {now later all : List Sight}
      → Move o a now o' b
      → Journey o' b later o'' c
      → all ≡ now ++ later
      → Journey o a all o'' c

-- What is seen at connection `i` of an act, and of a sequence of acts.
abbrev pub seen : ℕ → Act → List Sight
seen i (spawns j) = []
seen i (offers j b) = if j == i then batch_complete b ∷ [] else []
seen i (submits j b) = []
seen i (is_refused j) = []
seen i (keeps_alive j) = if j == i then keepalive_written ∷ [] else []
seen i (acknowledges j n) = if j == i then ack_written n ∷ [] else []
seen i (leaves j) = []
seen i (receives j b) = if j == i then batch_received b ∷ [] else []
seen i receives_none = []
seen i (finishes j b) = []
seen i drops_receiver = server_dropped ∷ []
seen i stops_listening = []

abbrev pub seen_all : ℕ → List Act → List Sight
seen_all i [] = []
seen_all i (a ∷ acts) = seen i a ++ seen_all i acts
