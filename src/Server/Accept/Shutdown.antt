-- ===== src/Server/Accept/Shutdown.antt =====
-- src/server.rs: the drop of the server ends the accept loop.
use lumberjack_protocol.Server.Accept.{
  Hub, Step, Run, Label, Phase, at_shutdown, at_accept, stopped, new_hub, accept, finish,
  drop_server, finishes, drops, look, done, see_shutdown, more, accept_ok, wait, accept_err,
  task_ends, dropped, waits, sees_shutdown, looks,
}
use lumberjack_protocol.Server.Accept.Gauge.{accepted_by, total}
use lumberjack_protocol.Base.{
  refl, arith, List, ◌≡◌, ℕ, true, ◌+◌, ◌≤◌, Bool, inr, ◌⊎◌, if◌then◌else◌, ◌<◌, false, inl,
  Bool-cases,
}

-- The steps that the loop takes.
abbrev pub looped_by : Label → ℕ
looped_by finishes = 0
looped_by drops = 0
looped_by _ = 1

-- How many steps the loop can still take, and how many connections accept, once it is told to stop.
abbrev steps_left : Phase → ℕ
steps_left at_accept = 2
steps_left at_shutdown = 1
steps_left stopped = 0

abbrev accepts_left : Phase → ℕ
accepts_left at_accept = 1
accepts_left _ = 0

drop_server-signals :
    (s : Hub)
    → ((drop_server s).phase ≡ s.phase)
      × (s.is_signalled ≡ true → (drop_server s).is_signalled ≡ true)
unfolding drop_server
drop_server-signals s = kept s.is_held
  where
    kept :
        (b : Bool)
        → let t = if b then record s { is_held = false; is_signalled = true } else s in
          (t.phase ≡ s.phase) × (s.is_signalled ≡ true → t.is_signalled ≡ true)
    kept true = (refl, λ h. refl)
    kept false = (refl, λ h. h)

step_signalled :
    {l : Label} {s t : Hub}
    → Step l s t
    → s.is_signalled ≡ true
    → (t.is_signalled ≡ true)
      × (steps_left t.phase + looped_by l ≤ steps_left s.phase)
      × (accepts_left t.phase + accepted_by l ≤ accepts_left s.phase)
step_signalled (look s e k) h = ground arith
step_signalled (see_shutdown s e k) h = ground arith
step_signalled (accept_ok s e) h = unfold accept in ground arith
step_signalled (wait s e) h = ground arith
step_signalled (accept_err s e) h = ground arith
step_signalled (task_ends s before task after e) h = unfold finish in (h, omega arith, omega arith)
step_signalled (dropped s) h =
    let (same, told) = drop_server-signals s in
    (told h, rw same (omega arith), rw same (omega arith))

Run-signalled :
    {ls : List Label} {s t : Hub}
    → Run ls s t
    → s.is_signalled ≡ true
    → (steps_left t.phase + total looped_by ls ≤ steps_left s.phase)
      × (total accepted_by ls ≤ accepts_left s.phase)
Run-signalled (done s) h = (omega arith, omega arith)
Run-signalled (more st r) h =
    let (now, fewer, fewer') = step_signalled st h in
    let (later, later') = Run-signalled r now in (omega arith, omega arith)

-- The sender is there until it has been used.
abbrev IsKept : Hub → Type 0
IsKept s = (s.is_held ≡ true) ⊎ (s.is_signalled ≡ true)

drop_server-signalled : (s : Hub) → IsKept s → (drop_server s).is_signalled ≡ true
unfolding drop_server
drop_server-signalled s h = ground arith

step-IsKept : {l : Label} {s t : Hub} → Step l s t → IsKept s → IsKept t
step-IsKept (look s e k) h = h
step-IsKept (see_shutdown s e k) h = h
step-IsKept (accept_ok s e) h = unfold accept in h
step-IsKept (wait s e) h = h
step-IsKept (accept_err s e) h = h
step-IsKept (task_ends s before task after e) h = unfold finish in h
step-IsKept (dropped s) h = inr (drop_server-signalled s h)

Run-IsKept : {ls : List Label} {s t : Hub} → Run ls s t → IsKept s → IsKept t
Run-IsKept (done s) h = h
Run-IsKept (more st r) h = Run-IsKept r (step-IsKept st h)

-- The loop can always take a step until it has stopped.
loop_step :
    (t : Hub)
    → (t.phase ≡ stopped)
      ⊎ ((0 < steps_left t.phase) × ((l : Label) × (u : Hub) × Step l t u × (looped_by l ≡ 1)))
loop_step t = at t.phase refl (Bool-cases t.is_signalled)
  where
    at :
        (p : Phase)
        → t.phase ≡ p
        → (t.is_signalled ≡ true) ⊎ (t.is_signalled ≡ false)
        → (p ≡ stopped)
          ⊎ ((0 < steps_left p) × ((l : Label) × (u : Hub) × Step l t u × (looped_by l ≡ 1)))
    at stopped e b = inl refl
    at at_accept e b = inr (omega arith, (waits, _, wait t e, refl))
    at at_shutdown e (inl k) = inr (omega arith, (sees_shutdown, _, see_shutdown t e k, refl))
    at at_shutdown e (inr k) = inr (omega arith, (looks, _, look t e k, refl))

few_left : (p : Phase) → (steps_left p ≤ 2) × (accepts_left p ≤ 1)
few_left p = ground arith

-- In any run of a new server, once it has been dropped: at most one more connection is accepted,
-- and the accept loop has stopped, or else it has taken fewer than two steps since then and can
-- take another.
pub drop_server_stops :
    (before after : List Label) (s t : Hub)
    → Run before new_hub s
    → Run after (drop_server s) t
    → (total accepted_by after ≤ 1)
      × ((t.phase ≡ stopped)
          ⊎ ((total looped_by after < 2)
              × ((l : Label) × (u : Hub) × Step l t u × (looped_by l ≡ 1))))
drop_server_stops before after s t r k =
    let kept = Run-IsKept r (unfold new_hub in inl refl) in
    let (few, one) = Run-signalled k (drop_server-signalled s kept) in
    let (few', one') = few_left (drop_server s).phase in
    (
      omega arith,
      elim (loop_step t) [ inl e ↦ inl e | inr (some_left, step) ↦ inr (omega arith, step) ],
    )
