-- ===== src/Server/Accept/Gauge.antt =====
-- src/server.rs: the gauge of live connections is right in every run.
use lumberjack_protocol.Server.Accept.{
  Hub, Step, Run, Label, new_hub, accept, finish, guard_new, guard_drop, drop_server,
  active_connections, accepts, finishes, done, look, see_shutdown, more, accept_ok, wait,
  accept_err, task_ends, dropped,
}
use lumberjack_protocol.Base.{
  refl, arith, length-append, length, List, ◌≡◌, ℕ, ◌+◌, ◌<◌, ◌++◌, ◌%◌, ◌∷◌, ◌^◌, [], ◌-◌, ◌≤◌,
  Bool, ◌∙◌, if◌then◌else◌, ap, sym, false, true,
}

-- How many steps of a run accept a connection, and how many end a task.
abbrev pub accepted_by : Label → ℕ
accepted_by accepts = 1
accepted_by _ = 0

abbrev pub finished_by : Label → ℕ
finished_by finishes = 1
finished_by _ = 0

abbrev pub total : (Label → ℕ) → List Label → ℕ
total f [] = 0
total f (l ∷ ls) = f l + total f ls

-- The gauge counts the tasks that have not ended, as far as it can.
abbrev IsCounted : Hub → Type 0
IsCounted s = s.active ≡ length s.open_tasks % 2 ^ 64

gauge_up : (a n : ℕ) → a ≡ n % 2 ^ 64 → (a + 1) % 2 ^ 64 ≡ (n + 1) % 2 ^ 64
gauge_up a n h = omega arith

gauge_down : (a n : ℕ) → a ≡ (n + 1) % 2 ^ 64 → (a + 2 ^ 64 - 1) % 2 ^ 64 ≡ n % 2 ^ 64
gauge_down a n h = omega arith

length-remove :
    (before : List ℕ) (task : ℕ) (after : List ℕ)
    → length (before ++ task ∷ after) ≡ length (before ++ after) + 1
length-remove before task after =
    rw (length-append before (task ∷ after), length-append before after) (omega arith)

drop_server-tasks :
    (s : Hub) → (drop_server s).active ≡ s.active × ((drop_server s).open_tasks ≡ s.open_tasks)
unfolding drop_server
drop_server-tasks s = kept s.is_held
  where
    kept :
        (b : Bool)
        → let t = if b then record s { is_held = false; is_signalled = true } else s in
          t.active ≡ s.active × (t.open_tasks ≡ s.open_tasks)
    kept true = (refl, refl)
    kept false = (refl, refl)

-- What a step does to the tasks and to the gauge.
step-tasks :
    {l : Label} {s t : Hub}
    → Step l s t
    → IsCounted s
    → IsCounted t × (length t.open_tasks + finished_by l ≡ length s.open_tasks + accepted_by l)
step-tasks (look s e k) h = (h, refl)
step-tasks (see_shutdown s e k) h = (h, refl)
step-tasks (accept_ok s e) h =
    unfold accept guard_new in
    (
      gauge_up s.active (length s.open_tasks) h
          ∙ ap (λ (n : ℕ). n % 2 ^ 64) (sym (length-append s.open_tasks _)),
      rw (length-append s.open_tasks (s.accepted ∷ [])) (omega arith),
    )
step-tasks (wait s e) h = (h, refl)
step-tasks (accept_err s e) h = (h, refl)
step-tasks (task_ends s before task after e) h =
    let one = ap length e ∙ length-remove before task after in
    unfold finish guard_drop in
    (
      gauge_down s.active (length (before ++ after)) (h ∙ ap (λ (n : ℕ). n % 2 ^ 64) one),
      omega (arith, one),
    )
step-tasks (dropped s) h =
    let (same, same') = drop_server-tasks s in (rw (same, same') h, rw same' refl)

Run-tasks :
    {ls : List Label} {s t : Hub}
    → Run ls s t
    → IsCounted s
    → IsCounted t
      × (length t.open_tasks + total finished_by ls ≡ length s.open_tasks + total accepted_by ls)
Run-tasks (done s) h = (h, refl)
Run-tasks (more st r) h =
    let (now, one) = step-tasks st h in
    let (later, all) = Run-tasks r now in (later, omega (arith, one, all))

-- Whatever the accept loop, the handler tasks and the holder of a new server do, and in whatever
-- order: as long as fewer than 2 ^ 64 connections were accepted, the number of active connections
-- is that of the connections accepted less that of the handler tasks that ended.
pub active_connections_lem :
    (ls : List Label) (t : Hub)
    → Run ls new_hub t
    → total accepted_by ls < 2 ^ 64
    → (active_connections t ≡ total accepted_by ls - total finished_by ls)
      × (total finished_by ls ≤ total accepted_by ls)
unfolding new_hub
active_connections_lem ls t r h = let (now, all) = Run-tasks r refl in (omega arith, omega arith)
