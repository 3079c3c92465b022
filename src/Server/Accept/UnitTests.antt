-- ===== src/Server/Accept/UnitTests.antt =====
-- The unit tests of src/server.rs on the accept loop: what each of them asserts, as a statement on
-- the model. The tests wait for a while; here it is said how far the run has come by then.
use lumberjack_protocol.Server.Accept.{
  Hub, Label, Run, new_hub, drop_server, active_connections, stopped, List, ◌≡◌,
}
use lumberjack_protocol.Server.Accept.Gauge.{
  accepted_by, finished_by, total, active_connections_lem,
}
use lumberjack_protocol.Server.Accept.Shutdown.{looped_by, drop_server_stops}
use lumberjack_protocol.Base.{arith, inl, refl, ◌≤◌, inr}

-- Once the loop has polled twice after the drop.
abbrev ServerDropStopsAcceptLoop : Type 0
ServerDropStopsAcceptLoop =
    (before after : List Label) (s t : Hub)
    → Run before new_hub s
    → Run after (drop_server s) t
    → 2 ≤ total looped_by after
    → t.phase ≡ stopped

server_drop_stops_accept_loop : ServerDropStopsAcceptLoop
server_drop_stops_accept_loop before after s t r k polled =
    elim (drop_server_stops before after s t r k).1 [
      | inl e ↦ e
      | inr (few, goes_on) ↦ absurd (omega arith)
    ]

-- Once three connections are accepted, and once their tasks have ended.
abbrev ActiveConnectionsTracksOpenAndClosed : Type 0
ActiveConnectionsTracksOpenAndClosed =
    (active_connections new_hub ≡ 0)
    × ((ls : List Label) (t : Hub)
        → Run ls new_hub t
        → total accepted_by ls ≡ 3
        → (total finished_by ls ≡ 0 → active_connections t ≡ 3)
          × (total finished_by ls ≡ 3 → active_connections t ≡ 0))

active_connections_tracks_open_and_closed : ActiveConnectionsTracksOpenAndClosed
unfolding new_hub
active_connections_tracks_open_and_closed = (
  refl,
  λ ls t r three.
      let (gauge, few) = active_connections_lem ls t r (omega arith) in
      (λ none_ended. omega arith, λ all_ended. omega arith),
)
