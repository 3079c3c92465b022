-- ===== src/Server/Queue/Script.antt =====
-- src/server.rs: the frames that a connection of the shared channel is sent.
use lumberjack_protocol.Server.Queue.Promise.{
  Stage, not_yet, reading, offered, queued, in_use, answered, ended, Sight, batch_complete,
  batch_received, ack_written, keepalive_written, server_dropped, Move, stay, begin, complete,
  admit, refuse, take, take_late, wait_queued, wait_in_use, done_with, confirm, leave_reading,
  leave_queued, leave_in_use, leave_answered, lose_server, Journey, here, onward, after_drop,
}
use lumberjack_protocol.Server.Queue.Sights.{acks_written}
use lumberjack_protocol.Server.Connection.Trace.{keepalives}
use lumberjack_protocol.Frame.{Frame, ack}
use lumberjack_protocol.Base.{
  ℕ, zero, suc, List, [], ◌∷◌, ◌++◌, ◌≡◌, refl, some, none, Bool, length, append-nil, append_assoc,
  ◌∙◌, sym, ap,
}

-- The frames that a connection was sent.
abbrev pub frames_of : List Sight → List Frame
frames_of [] = []
frames_of (batch_complete b ∷ w) = frames_of w
frames_of (batch_received b ∷ w) = frames_of w
frames_of (keepalive_written ∷ w) = ack 0 ∷ frames_of w
frames_of (ack_written n ∷ w) = ack n ∷ frames_of w
frames_of (server_dropped ∷ w) = frames_of w

-- How many keepalives there were before each acknowledgement, and after the last one; `k` more
-- before the first.
abbrev pub ticks_of : ℕ → List Sight → List ℕ
ticks_of k [] = []
ticks_of k (batch_complete b ∷ w) = ticks_of k w
ticks_of k (batch_received b ∷ w) = ticks_of k w
ticks_of k (keepalive_written ∷ w) = ticks_of (suc k) w
ticks_of k (ack_written n ∷ w) = k ∷ ticks_of 0 w
ticks_of k (server_dropped ∷ w) = ticks_of k w

abbrev pub trail : ℕ → List Sight → ℕ
trail k [] = k
trail k (batch_complete b ∷ w) = trail k w
trail k (batch_received b ∷ w) = trail k w
trail k (keepalive_written ∷ w) = trail (suc k) w
trail k (ack_written n ∷ w) = trail 0 w
trail k (server_dropped ∷ w) = trail k w

abbrev pub weave : List ℕ → List ℕ → List Frame
weave (k ∷ ks) (n ∷ ns) = keepalives k ++ ack n ∷ weave ks ns
weave ks ns = []

keepalives-suc : (k : ℕ) (fs : List Frame) → keepalives k ++ ack 0 ∷ fs ≡ keepalives (suc k) ++ fs
keepalives-suc zero fs = refl
keepalives-suc (suc k) fs = ap (◌∷◌ (ack 0)) (keepalives-suc k fs)

pub frames_of-weave :
    (k : ℕ) (w : List Sight)
    → keepalives k ++ frames_of w ≡ weave (ticks_of k w) (acks_written w) ++ keepalives (trail k w)
frames_of-weave k [] = append-nil (keepalives k)
frames_of-weave k (batch_complete b ∷ w) = frames_of-weave k w
frames_of-weave k (batch_received b ∷ w) = frames_of-weave k w
frames_of-weave k (keepalive_written ∷ w) =
    keepalives-suc k (frames_of w) ∙ frames_of-weave (suc k) w
frames_of-weave k (ack_written n ∷ w) =
    rw (frames_of-weave 0 w) (sym (append_assoc (keepalives k) _ _))
frames_of-weave k (server_dropped ∷ w) = frames_of-weave k w

pub length-ticks_of : (k : ℕ) (w : List Sight) → length (ticks_of k w) ≡ length (acks_written w)
length-ticks_of k [] = refl
length-ticks_of k (batch_complete b ∷ w) = length-ticks_of k w
length-ticks_of k (batch_received b ∷ w) = length-ticks_of k w
length-ticks_of k (keepalive_written ∷ w) = length-ticks_of (suc k) w
length-ticks_of k (ack_written n ∷ w) = ap suc (length-ticks_of 0 w)
length-ticks_of k (server_dropped ∷ w) = length-ticks_of k w

trail-append : (k : ℕ) (v w : List Sight) → trail k (v ++ w) ≡ trail (trail k v) w
trail-append k [] w = refl
trail-append k (batch_complete b ∷ v) w = trail-append k v w
trail-append k (batch_received b ∷ v) w = trail-append k v w
trail-append k (keepalive_written ∷ v) w = trail-append (suc k) v w
trail-append k (ack_written n ∷ v) w = trail-append 0 v w
trail-append k (server_dropped ∷ v) w = trail-append k v w

-- No keepalive stands alone where no batch is under way.
abbrev pub IsQuiet : Stage → ℕ → Type 0
IsQuiet not_yet k = k ≡ 0
IsQuiet reading k = k ≡ 0
IsQuiet (offered b) k = k ≡ 0
IsQuiet _ k = Unit

after_drop-IsQuiet : (a : Stage) (k : ℕ) → IsQuiet a k → IsQuiet (after_drop a) k
after_drop-IsQuiet not_yet k h = h
after_drop-IsQuiet reading k h = h
after_drop-IsQuiet (offered b) k h = h
after_drop-IsQuiet (queued b) k h = tt
after_drop-IsQuiet (in_use b) k h = tt
after_drop-IsQuiet (answered n) k h = tt
after_drop-IsQuiet (ended none) k h = tt
after_drop-IsQuiet (ended (some b)) k h = tt

Move-IsQuiet :
    {o o' : Bool} {a b : Stage} {w : List Sight} (k : ℕ)
    → Move o a w o' b
    → IsQuiet a k
    → IsQuiet b (trail k w)
Move-IsQuiet k stay h = h
Move-IsQuiet k begin h = h
Move-IsQuiet k complete h = h
Move-IsQuiet k admit h = tt
Move-IsQuiet k refuse h = tt
Move-IsQuiet k take h = tt
Move-IsQuiet k take_late h = tt
Move-IsQuiet k wait_queued h = tt
Move-IsQuiet k wait_in_use h = tt
Move-IsQuiet k done_with h = tt
Move-IsQuiet k confirm h = refl
Move-IsQuiet k leave_reading h = tt
Move-IsQuiet k leave_queued h = tt
Move-IsQuiet k leave_in_use h = tt
Move-IsQuiet k leave_answered h = tt
Move-IsQuiet k (lose_server {a} {b} e) h = rw e (after_drop-IsQuiet a k h)

pub Journey-IsQuiet :
    {o o' : Bool} {a b : Stage} {w : List Sight} (k : ℕ)
    → Journey o a w o' b
    → IsQuiet a k
    → IsQuiet b (trail k w)
Journey-IsQuiet k (here a) h = h
Journey-IsQuiet k (onward {now} {later} m path all) h =
    rw (all, trail-append k now later) (Journey-IsQuiet (trail k now) path (Move-IsQuiet k m h))
