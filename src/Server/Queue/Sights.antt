-- ===== src/Server/Queue/Sights.antt =====
-- What is seen of a connection of src/server.rs: its batches, and the acknowledgements written.
use lumberjack_protocol.Server.Batch.{Batch}
use lumberjack_protocol.Server.Queue.Promise.{
  Sight, batch_complete, batch_received, ack_written, keepalive_written, server_dropped,
}
use lumberjack_protocol.Base.{ℕ, List, [], ◌∷◌, ◌++◌, ◌≡◌, refl}

abbrev pub completed : List Sight → List Batch
completed [] = []
completed (batch_complete b ∷ w) = b ∷ completed w
completed (batch_received b ∷ w) = completed w
completed (keepalive_written ∷ w) = completed w
completed (ack_written n ∷ w) = completed w
completed (server_dropped ∷ w) = completed w

abbrev pub received : List Sight → List Batch
received [] = []
received (batch_complete b ∷ w) = received w
received (batch_received b ∷ w) = b ∷ received w
received (keepalive_written ∷ w) = received w
received (ack_written n ∷ w) = received w
received (server_dropped ∷ w) = received w

abbrev pub acks_written : List Sight → List ℕ
acks_written [] = []
acks_written (batch_complete b ∷ w) = acks_written w
acks_written (batch_received b ∷ w) = acks_written w
acks_written (keepalive_written ∷ w) = acks_written w
acks_written (ack_written n ∷ w) = n ∷ acks_written w
acks_written (server_dropped ∷ w) = acks_written w

pub completed-append : (v w : List Sight) → completed (v ++ w) ≡ completed v ++ completed w
completed-append [] w = refl
completed-append (batch_complete b ∷ v) w = rw (completed-append v w)
completed-append (batch_received b ∷ v) w = completed-append v w
completed-append (keepalive_written ∷ v) w = completed-append v w
completed-append (ack_written n ∷ v) w = completed-append v w
completed-append (server_dropped ∷ v) w = completed-append v w

pub received-append : (v w : List Sight) → received (v ++ w) ≡ received v ++ received w
received-append [] w = refl
received-append (batch_complete b ∷ v) w = received-append v w
received-append (batch_received b ∷ v) w = rw (received-append v w)
received-append (keepalive_written ∷ v) w = received-append v w
received-append (ack_written n ∷ v) w = received-append v w
received-append (server_dropped ∷ v) w = received-append v w

pub acks_written-append :
    (v w : List Sight) → acks_written (v ++ w) ≡ acks_written v ++ acks_written w
acks_written-append [] w = refl
acks_written-append (batch_complete b ∷ v) w = acks_written-append v w
acks_written-append (batch_received b ∷ v) w = acks_written-append v w
acks_written-append (keepalive_written ∷ v) w = acks_written-append v w
acks_written-append (ack_written n ∷ v) w = rw (acks_written-append v w)
acks_written-append (server_dropped ∷ v) w = acks_written-append v w
