-- ===== src/Examples/Harness.antt =====
-- src/examples/baseline.rs: the client tasks that count what they sent, and the `main` that reads
-- the counters. The tasks run side by side: what they do while `main` sleeps or waits is any
-- sequence of their steps.
pub mod Counters
pub mod Report
use lumberjack_protocol.Base.{
  ℕ, List, [], ◌∷◌, Bool, true, false, ◌≡◌, ◌<◌, ◌+◌, ◌-◌, ◌%◌, ◌^◌, ◌==◌, ltb, if◌then◌else◌,
}

-- Where a client task stands: at `stop.load`, in `client.send`, before either `fetch_add`, or
-- it has returned.
pub data Stand : Type 0 where
  checking sending sent half_counted returned : Stand

-- `len` is the length of the batch, which all tasks send; `events_start`, `events` and `batches` are
-- the variables of `main`.
pub record Harness : Type 0 where
  pub clients : ℕ
  pub len : ℕ
  pub stop : Bool
  pub total_events : ℕ
  pub total_batches : ℕ
  pub stands : ℕ → Stand
  pub events_start : ℕ
  pub events : ℕ
  pub batches : ℕ

-- The clients are connected and their tasks spawned.
unfoldable pub spawned : ℕ → ℕ → Harness
spawned clients len = record {
  clients = clients;
  len = len;
  stop = false;
  total_events = 0;
  total_batches = 0;
  stands = λ i. checking;
  events_start = 0;
  events = 0;
  batches = 0;
}

-- `fetch_add` on an `AtomicU64`, which wraps.
abbrev pub fetch_add : ℕ → ℕ → ℕ
fetch_add n k = (n + k) % 2 ^ 64

abbrev pub stand_at : (ℕ → Stand) → ℕ → Stand → ℕ → Stand
stand_at stands i x j = if i == j then x else stands j

abbrev pub step_to : ℕ → Stand → Harness → Harness
step_to i x h = record h { stands = stand_at h.stands i x }

-- `total_events.fetch_add(batch.len() as u64, ..)` and `total_batches.fetch_add(1, ..)`
unfoldable pub count_events : ℕ → Harness → Harness
count_events i h = record (step_to i half_counted h) {
  total_events = fetch_add h.total_events h.len;
}

unfoldable pub count_batch : ℕ → Harness → Harness
count_batch i h = record (step_to i checking h) { total_batches = fetch_add h.total_batches 1 }

pub data Tick : Type 0 where
  goes_on stops sends fails counts_events counts_batch : Tick

-- One step of one task. Whether a `send` succeeds is left open.
pub data Works : Tick → Harness → Harness → Type 0 where
  go_on :
      (h : Harness) (i : ℕ)
      → i < h.clients
      → h.stands i ≡ checking
      → h.stop ≡ false
      → Works goes_on h (step_to i sending h)
  stop_now :
      (h : Harness) (i : ℕ)
      → i < h.clients
      → h.stands i ≡ checking
      → h.stop ≡ true
      → Works stops h (step_to i returned h)
  send_ok :
      (h : Harness) (i : ℕ)
      → i < h.clients
      → h.stands i ≡ sending
      → Works sends h (step_to i sent h)
  send_err :
      (h : Harness) (i : ℕ)
      → i < h.clients
      → h.stands i ≡ sending
      → Works fails h (step_to i returned h)
  add_events :
      (h : Harness) (i : ℕ)
      → i < h.clients
      → h.stands i ≡ sent
      → Works counts_events h (count_events i h)
  add_batch :
      (h : Harness) (i : ℕ)
      → i < h.clients
      → h.stands i ≡ half_counted
      → Works counts_batch h (count_batch i h)

pub data Working : List Tick → Harness → Harness → Type 0 where
  idle : (h : Harness) → Working [] h h
  working :
      {x : Tick} {xs : List Tick} {h k l : Harness}
      → Works x h k
      → Working xs k l
      → Working (x ∷ xs) h l

-- What `main` does with the counters, between its waits.
unfoldable pub load_start : Harness → Harness
load_start h = record h { events_start = h.total_events }

unfoldable pub load_events : Harness → Harness
load_events h = record h { events = (h.total_events + 2 ^ 64 - h.events_start) % 2 ^ 64 }

unfoldable pub load_batches : Harness → Harness
load_batches h = record h { batches = h.total_batches }

unfoldable pub store_stop : Harness → Harness
store_stop h = record h { stop = true }

-- `while clients_set.join_next().await.is_some() {}` ends.
abbrev pub IsJoined : Harness → Type 0
IsJoined h = (i : ℕ) → i < h.clients → h.stands i ≡ returned

-- `main` from the spawning of the clients to the report: the warm-up, the measured time, what goes
-- on between the two loads behind it, and the join.
pub record Measured (clients len : ℕ) : Type 0 where
  pub warm_up : List Tick
  pub window : List Tick
  pub between : List Tick
  pub wind_down : List Tick
  pub started : Harness
  pub ended : Harness
  pub loaded : Harness
  pub joined : Harness
  pub warming : Working warm_up (spawned clients len) started
  pub measuring : Working window (load_start started) ended
  pub loading : Working between (load_events ended) loaded
  pub joining : Working wind_down (store_stop (load_batches loaded)) joined
  pub all_joined : IsJoined joined
