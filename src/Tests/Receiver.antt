-- ===== src/Tests/Receiver.antt =====
-- The theorems on src/server.rs at concrete inputs.
use lumberjack_protocol.Tests.Fixtures.{stored, cfg}
use lumberjack_protocol.Server.Accept.{
  Hub, Label, Run, Step, new_hub, accept, drop_server, active_connections, looks, sees_shutdown,
  accepts, drops, look, see_shutdown, accept_ok, done, more, stopped, at_accept,
}
use lumberjack_protocol.Server.Accept.Gauge.{
  active_connections_lem, accepted_by, finished_by, total,
}
use lumberjack_protocol.Server.Accept.Shutdown.{drop_server_stops, looped_by}
use lumberjack_protocol.Server.Batch.{Batch, acks, drops, takes_events, new, sender}
use lumberjack_protocol.Server.Progress.{start, collect}
use lumberjack_protocol.Server.Progress.Invariant.{IsFull, collect-IsFull, start-IsFilling}
use lumberjack_protocol.Server.Progress.Grouping.{
  Group, plain, packed, collect-groups, events_of, members,
}
use lumberjack_protocol.Server.Progress.Surplus.{collect_surplus}
use lumberjack_protocol.Server.Connection.{Conn, fails, answers, run_connection}
use lumberjack_protocol.Server.Connection.Replies.{Served, run_connection-Replies}
use lumberjack_protocol.Server.Connection.Origin.{HandedOver, run_connection-HandedOver}
use lumberjack_protocol.Server.Connection.Ends.{run_connection-Returns}
use lumberjack_protocol.Server.Connection.Session.{Order, calm, run_connection-session}
use lumberjack_protocol.Codec.{Item, arrived, encode_all}
use lumberjack_protocol.Events.{Event, json_frames, Ascending, IsSendable}
use lumberjack_protocol.Frame.{window, json, compressed, ack}
use lumberjack_protocol.Error.{Returns, Ensures, ok}
use lumberjack_protocol.Base.{
  refl, arith, [], List, ◌∷◌, ◌++◌, ◌≡◌, All, ◌-◌, ◌≤◌, ◌⊎◌, ◌<◌, none, some,
}

abbrev first_event : Event
first_event = (1, b'a' ∷ [])

abbrev second_event : Event
second_event = (2, b'b' ∷ [])

abbrev third_event : Event
third_event = (3, b'c' ∷ [])

abbrev groups : List Group
groups = plain first_event ∷ packed second_event (third_event ∷ []) ∷ []

rising : Ascending 0 (events_of groups)
rising = (omega arith, (omega arith, (omega arith, tt)))

fits_first : IsSendable 1024 first_event
fits_first = (omega arith, omega arith, omega arith)

sendable : All (λ g. All (IsSendable 1024) (members g)) groups
sendable = (
  (fits_first, tt),
  (((omega arith, omega arith, omega arith), ((omega arith, omega arith, omega arith), tt)), tt),
)

-- One batch in two frames, which the consumer acknowledges in the second keepalive interval.
abbrev order : Order
order = record { groups = groups; ticks = 1; usage = acks }

abbrev batch : Batch
batch = new ((b'a' ∷ []) ∷ (b'b' ∷ []) ∷ (b'c' ∷ []) ∷ []) 3 sender

abbrev items : List Item
items =
    arrived (window 3)
    ∷ arrived (json 1 (b'a' ∷ []))
    ∷ arrived (compressed (encode_all stored (json_frames (second_event ∷ third_event ∷ []))))
    ∷ []

run_connection-session_example :
    run_connection stored cfg (calm items (answers 1 acks ∷ []) [] [])
    ≡ (ok tt, calm [] [] (encode_all stored (ack 0 ∷ ack 3 ∷ [])) (batch ∷ []))
run_connection-session_example =
    run_connection-session stored cfg (order ∷ []) [] [] ((omega arith, rising, sendable), tt)

-- The acknowledgement is cut: only three of its bytes are out.
abbrev cut_off : Conn
cut_off = record (calm items (answers 1 acks ∷ []) [] []) {
  faults = none ∷ some (fails "broken pipe" 3) ∷ [];
}

run_connection-Replies_example : Served stored cut_off (run_connection stored cfg cut_off)
run_connection-Replies_example =
    run_connection-Replies stored cfg cut_off (omega arith, (tt, (tt, tt)))

run_connection-HandedOver_example :
    HandedOver stored cfg items
      (calm items (answers 1 acks ∷ []) [] [])
      (run_connection stored cfg (calm items (answers 1 acks ∷ []) [] [])).1
run_connection-HandedOver_example =
    run_connection-HandedOver stored cfg (calm items (answers 1 acks ∷ []) [] [])
      (omega arith, (tt, (tt, tt)))

run_connection-Returns_example :
    Returns
      (run_connection stored cfg
        (calm items (answers 1 acks ∷ answers 0 drops ∷ answers 0 takes_events ∷ []) [] [])).0
run_connection-Returns_example =
    run_connection-Returns stored cfg
      (calm items (answers 1 acks ∷ answers 0 drops ∷ answers 0 takes_events ∷ []) [] [])
      ((omega arith, (tt, (tt, tt))), omega arith, tt)

collect-IsFull_example :
    Ensures
      (IsFull 2)
      (collect stored 1024 2 start (arrived (json 4 []) ∷ arrived (json 9 []) ∷ [])).0
collect-IsFull_example =
    collect-IsFull stored 1024 2 (omega arith) start
      (arrived (json 4 []) ∷ arrived (json 9 []) ∷ []) (start-IsFilling 2)

collect-groups_example :
    collect stored 1024 3 start (
      arrived (json 1 (b'a' ∷ []))
      ∷ arrived (compressed (encode_all stored (json_frames (second_event ∷ third_event ∷ []))))
      ∷ arrived (window 7)
      ∷ [])
    ≡ (
      ok (record {
        events = (b'a' ∷ []) ∷ (b'b' ∷ []) ∷ (b'c' ∷ []) ∷ [];
        received = 3;
        last_seq = 3;
        prev_seq = 3;
      }),
      arrived (window 7) ∷ [],
    )
collect-groups_example =
    collect-groups stored 1024 groups (arrived (window 7) ∷ []) (omega arith) rising sendable

collect_surplus_example :
    collect stored 1024 1 start
      (arrived (compressed (encode_all stored (json_frames (first_event ∷ [])) ++ 255 ∷ [])) ∷ [])
    ≡ (ok (record { events = (b'a' ∷ []) ∷ []; received = 1; last_seq = 1; prev_seq = 1 }), [])
collect_surplus_example =
    collect_surplus stored 1024 (first_event ∷ []) (255 ∷ []) [] (omega arith) (omega arith, tt)
      (fits_first, tt) (omega arith)

abbrev looked : Hub
looked = record new_hub { phase = at_accept }

abbrev looked_again : Hub
looked_again = record (accept looked) { phase = at_accept }

before_drop : Run (looks ∷ accepts ∷ looks ∷ []) new_hub looked_again
unfolding new_hub accept
before_drop =
    more (look new_hub refl refl)
      (more (accept_ok looked refl) (more (look (accept looked) refl refl) (done looked_again)))

-- The loop still accepts a connection after the drop, then it sees the message.
after_drop :
    Run
      (accepts ∷ sees_shutdown ∷ [])
      (drop_server looked_again)
      (record (accept (drop_server looked_again)) { phase = stopped })
unfolding new_hub accept drop_server
after_drop =
    more (accept_ok (drop_server looked_again) refl)
      (more (see_shutdown (accept (drop_server looked_again)) refl refl) (done _))

active_connections_example :
    (active_connections looked_again
      ≡ total accepted_by (looks ∷ accepts ∷ looks ∷ [])
        - total finished_by (looks ∷ accepts ∷ looks ∷ []))
    × (total finished_by (looks ∷ accepts ∷ looks ∷ [])
        ≤ total accepted_by (looks ∷ accepts ∷ looks ∷ []))
active_connections_example =
    active_connections_lem (looks ∷ accepts ∷ looks ∷ []) looked_again before_drop (omega arith)

drop_server_example :
    let t = record (accept (drop_server looked_again)) { phase = stopped } in
    (total accepted_by (accepts ∷ sees_shutdown ∷ []) ≤ 1)
    × ((t.phase ≡ stopped)
        ⊎ ((total looped_by (accepts ∷ sees_shutdown ∷ []) < 2)
            × ((l : Label) × (u : Hub) × Step l t u × (looped_by l ≡ 1))))
drop_server_example =
    drop_server_stops (looks ∷ accepts ∷ looks ∷ []) (accepts ∷ sees_shutdown ∷ []) looked_again
      (record (accept (drop_server looked_again)) { phase = stopped }) before_drop after_drop
