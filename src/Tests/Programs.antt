-- ===== src/Tests/Programs.antt =====
-- The theorems on src/examples/ at concrete inputs.
use lumberjack_protocol.Examples.Harness.{
  Harness, Tick, Working, idle, working, Measured, spawned, step_to, count_events, count_batch,
  load_start, load_events, load_batches, store_stop, IsJoined, sending, sent, returned, go_on,
  stop_now, send_ok, add_events, add_batch, goes_on, stops, sends, counts_events, counts_batch,
}
use lumberjack_protocol.Examples.Harness.Report.{report_lem}
use lumberjack_protocol.Base.{zero, suc, List, [], ◌∷◌, ◌≡◌, refl, arith, ◌*◌}

-- One client sends a batch of 128 events while the program warms up, and one in the measured time.
abbrev a_batch : List Tick
a_batch = goes_on ∷ sends ∷ counts_events ∷ counts_batch ∷ []

abbrev sent_one : Harness → Harness
sent_one h = count_batch 0 (count_events 0 (step_to 0 sent (step_to 0 sending h)))

abbrev warm : Harness
warm = sent_one (spawned 1 128)

abbrev measured : Harness
measured = sent_one (load_start warm)

abbrev finished : Harness
finished = step_to 0 returned (store_stop (load_batches (load_events measured)))

warm_up : Working a_batch (spawned 1 128) warm
unfolding spawned count_events count_batch
warm_up = working (go_on (spawned 1 128) 0 (omega arith) refl refl) (
    working (send_ok (step_to 0 sending (spawned 1 128)) 0 (omega arith) refl) (
      working (add_events (step_to 0 sent (step_to 0 sending (spawned 1 128))) 0 (omega arith) refl)
        (working
          (add_batch (count_events 0 (step_to 0 sent (step_to 0 sending (spawned 1 128)))) 0
            (omega arith) refl)
          (idle warm))))

window : Working a_batch (load_start warm) measured
unfolding spawned count_events count_batch load_start
window =
    let from = load_start warm in
    working (go_on from 0 (omega arith) refl refl) (
      working (send_ok (step_to 0 sending from) 0 (omega arith) refl) (
        working (add_events (step_to 0 sent (step_to 0 sending from)) 0 (omega arith) refl) (
          working
            (add_batch (count_events 0 (step_to 0 sent (step_to 0 sending from))) 0 (omega arith)
              refl)
            (idle measured))))

wind_down : Working (stops ∷ []) (store_stop (load_batches (load_events measured))) finished
unfolding spawned count_events count_batch load_start load_events load_batches store_stop
wind_down =
    working (stop_now (store_stop (load_batches (load_events measured))) 0 (omega arith) refl refl)
      (idle finished)

all_returned : IsJoined finished
unfolding spawned count_events count_batch load_start load_events load_batches store_stop
all_returned zero lt = refl
all_returned (suc i) lt = absurd (omega arith)

abbrev run : Measured 1 128
run = record {
  warm_up = a_batch;
  window = a_batch;
  between = [];
  wind_down = stops ∷ [];
  started = warm;
  ended = measured;
  loaded = load_events measured;
  joined = finished;
  warming = warm_up;
  measuring = window;
  loading = idle (load_events measured);
  joining = wind_down;
  all_joined = all_returned;
}

-- One batch is measured, and two are reported.
report_example :
    (run.joined.events ≡ 128)
    × (run.joined.batches ≡ 2)
    × (run.joined.total_batches ≡ 2)
    × (run.joined.total_events ≡ run.joined.total_batches * 128)
report_example = report_lem 1 128 run (omega arith) (omega arith)
