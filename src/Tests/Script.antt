-- ===== src/Tests/Script.antt =====
-- A connection of the shared channel, and `run_connection` with its script, at concrete inputs.
use lumberjack_protocol.Tests.Queue.{full_acts, acked_acts, acknowledged, acknowledged-History}
use lumberjack_protocol.Tests.Fixtures.{stored, cfg}
use lumberjack_protocol.Server.Batch.{acks, new, consume}
use lumberjack_protocol.Server.Queue.{new_system, offer, submit, recv, release}
use lumberjack_protocol.Server.Queue.Promise.{seen_all}
use lumberjack_protocol.Server.Queue.Sights.{received}
use lumberjack_protocol.Server.Queue.Script.{frames_of, ticks_of}
use lumberjack_protocol.Server.Queue.Adequate.{timed, served_by_script}
use lumberjack_protocol.Server.Connection.{run_connection}
use lumberjack_protocol.Server.Connection.Session.{Order, calm, items_of, reaction_to}
use lumberjack_protocol.Server.Progress.Grouping.{plain}
use lumberjack_protocol.Codec.{encode_all}
use lumberjack_protocol.Error.{ok}
use lumberjack_protocol.Base.{List, [], ◌∷◌, ◌++◌, ◌≡◌, refl, map, arith}

abbrev orders : List Order
orders = record { groups = plain (1, 1 ∷ []) ∷ []; ticks = 0; usage = acks } ∷ []

served_by_script_example :
    let w = seen_all 0 (full_acts ++ acked_acts) in
    let script = map reaction_to (timed (ticks_of 0 w) orders) in
    run_connection stored cfg (calm (items_of stored orders) script [] [])
    ≡ (ok tt, calm [] [] (encode_all stored (frames_of w)) (received w))
unfolding new_system new offer submit recv release consume
served_by_script_example =
    served_by_script stored cfg 15_000 1 0 (full_acts ++ acked_acts) acknowledged orders refl
      (omega arith, tt) acknowledged-History refl refl refl
