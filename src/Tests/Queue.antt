-- ===== src/Tests/Queue.antt =====
-- The channel between two connections and the application, with room for one batch.
use lumberjack_protocol.Server.Batch.{Batch, new, sender, acks, consume}
use lumberjack_protocol.Server.Queue.{
  System, Act, History, new_system, move, offer, submit, recv, release, drop_receiver, filling,
  over, spawns, offers, submits, keeps_alive, acknowledges, leaves, receives, finishes,
  drops_receiver, stops_listening, spawn, offer_batch, send_ok, keepalive, ack_batch, leave_filling,
  recv_some, recv_none, finish_batch, lose_receiver, stop_listening, no_acts, and_then, HasNoSender,
}
use lumberjack_protocol.Server.Queue.Promise.{Stage, Journey, not_yet, seen_all}
use lumberjack_protocol.Server.Queue.Stages.{Views}
use lumberjack_protocol.Server.Queue.Refines.{new_system_refines}
use lumberjack_protocol.Server.Queue.Sights.{completed, received, acks_written}
use lumberjack_protocol.Server.Queue.Delivery.{delivered_in_order}
use lumberjack_protocol.Server.Queue.Order.{submitted, taken, all_of}
use lumberjack_protocol.Server.Queue.Close.{IsLate, recv_none_final}
use lumberjack_protocol.Base.{
  ℕ, List, [], ◌∷◌, ◌++◌, ◌≡◌, refl, true, false, ◌≤◌, length, map, arith, All, inr, suc, inl, zero,
}

-- One connection has a batch of one event, the other of two.
abbrev first : Batch
first = new ((1 ∷ []) ∷ []) 1 sender

abbrev second : Batch
second = new ((2 ∷ []) ∷ (3 ∷ []) ∷ []) 2 sender

abbrev opened : System
opened = move 1 filling (move 0 filling (new_system 1))

abbrev complete : System
complete = offer 1 second.events 2 (offer 0 first.events 1 opened)

-- The channel is full, and the second task waits for room.
abbrev full : System
full = submit 0 first complete

abbrev pub full_acts : List Act
full_acts = spawns 0 ∷ spawns 1 ∷ offers 0 first ∷ offers 1 second ∷ submits 0 first ∷ []

full_acts-History : History full_acts (new_system 1) full
unfolding new_system new offer submit
full_acts-History = and_then (spawn (new_system 1) 0 refl refl) (
    and_then (spawn (move 0 filling (new_system 1)) 1 refl refl) (
      and_then (offer_batch opened 0 first.events 1 refl) (
        and_then (offer_batch (offer 0 first.events 1 opened) 1 second.events 2 refl)
          (and_then (send_ok complete 0 first refl refl (omega arith)) (no_acts full)))))

-- The application takes the first batch, which makes room for the second, and is done with it; the
-- first task sends a keepalive before that, and the acknowledgement after it.
abbrev given : System
given = recv (0, first) [] full

abbrev both : System
both = submit 1 second given

abbrev answered : System
answered = release acks (0, first) [] both

abbrev pub acknowledged : System
acknowledged = move 0 filling answered

abbrev pub acked_acts : List Act
acked_acts =
    receives 0 first ∷ submits 1 second ∷ keeps_alive 0 ∷ finishes 0 first ∷ acknowledges 0 1 ∷ []

acked_after : History acked_acts full acknowledged
unfolding new_system new offer submit recv release consume
acked_after = and_then (recv_some full 0 first [] refl refl) (
    and_then (send_ok given 1 second refl refl (omega arith)) (
      and_then (keepalive both 0 1 refl refl) (
        and_then (finish_batch both acks [] 0 first [] refl)
          (and_then (ack_batch answered 0 1 1 [] refl refl) (no_acts acknowledged)))))

History-append :
    {before after : List Act} {s t u : System}
    → History before s t
    → History after t u
    → History (before ++ after) s u
History-append (no_acts s) k = k
History-append (and_then act h) k = and_then act (History-append h k)

pub acknowledged-History : History (full_acts ++ acked_acts) (new_system 1) acknowledged
acknowledged-History = History-append full_acts-History acked_after

new_system_refines_example :
    (stage : Stage) × Journey true not_yet
      (seen_all 0 (full_acts ++ acked_acts))
      acknowledged.is_open
      stage
    × Views 0 acknowledged stage
new_system_refines_example =
    new_system_refines 1 0 (full_acts ++ acked_acts) acknowledged acknowledged-History

delivered_in_order_example :
    let w = seen_all 0 (full_acts ++ acked_acts) in
    (waiting : List Batch) × (owed : List ℕ) × (completed w ≡ received w ++ waiting)
    × (map (λ b. b.last_seq) (received w) ≡ acks_written w ++ owed)
    × (length waiting ≤ 1)
    × (length owed ≤ 1)
    × ((acknowledged.tasks 0).pc ≡ filling → (waiting ≡ []) × (owed ≡ []))
unfolding new_system new offer submit recv release
delivered_in_order_example =
    delivered_in_order 1 0 (full_acts ++ acked_acts) acknowledged acknowledged-History refl

-- The second batch is received and acknowledged, both connections and the accept loop end, and
-- `recv` gives `None`.
abbrev taken_too : System
taken_too = recv (1, second) [] acknowledged

abbrev answered_too : System
answered_too = release acks (1, second) [] taken_too

abbrev acked_too : System
acked_too = move 1 filling answered_too

abbrev left : System
left = move 1 over (move 0 over acked_too)

abbrev closed : System
closed = record left { is_listening = false }

abbrev closed_acts : List Act
closed_acts =
    receives 1 second
    ∷ finishes 1 second
    ∷ acknowledges 1 2
    ∷ leaves 0
    ∷ leaves 1
    ∷ stops_listening
    ∷ []

closed_after : History closed_acts acknowledged closed
unfolding new_system new offer submit recv release consume
closed_after = and_then (recv_some acknowledged 1 second [] refl refl) (
    and_then (finish_batch taken_too acks [] 1 second [] refl) (
      and_then (ack_batch answered_too 1 2 2 [] refl refl) (
        and_then (leave_filling acked_too 0 refl) (
          and_then (leave_filling (move 0 over acked_too) 1 refl)
            (and_then (stop_listening left) (no_acts closed))))))

abbrev all_acts : List Act
all_acts = (full_acts ++ acked_acts) ++ closed_acts

all_acts-History : History all_acts (new_system 1) closed
all_acts-History = History-append acknowledged-History closed_after

closed_quiet : (i : ℕ) → HasNoSender (closed.tasks i)
unfolding new_system new offer submit recv release
closed_quiet zero = inr refl
closed_quiet (suc zero) = inr refl
closed_quiet (suc (suc i)) = inl (ground arith)

recv_none_final_example :
    (all_of submitted all_acts ≡ all_of taken all_acts) × All IsLate (drops_receiver ∷ [])
unfolding new_system new offer submit recv release
recv_none_final_example =
    recv_none_final 1 all_acts (drops_receiver ∷ []) closed closed (drop_receiver closed)
      all_acts-History (recv_none closed refl refl refl closed_quiet)
      (and_then (lose_receiver closed refl) (no_acts (drop_receiver closed)))
