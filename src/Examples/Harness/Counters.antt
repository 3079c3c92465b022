-- ===== src/Examples/Harness/Counters.antt =====
-- src/examples/baseline.rs: what the two counters count.
use lumberjack_protocol.Examples.Harness.{
  Stand, checking, sending, sent, half_counted, returned, Harness, stand_at, step_to, count_events,
  count_batch, Tick, counts_events, counts_batch, Works, go_on, stop_now, send_ok, send_err,
  add_events, add_batch, Working, idle, working,
}
use lumberjack_protocol.Base.{
  ℕ, zero, suc, List, [], ◌∷◌, ◌≡◌, refl, ◌<◌, ◌≤◌, ◌+◌, ◌*◌, ◌%◌, ◌^◌, ◌==◌, arith, inl, inr,
  Bool-cases, ap, ◌∙◌, zero-add,
}

-- How many batches a step, and a sequence of steps, puts into each counter.
abbrev pub by_events : Tick → ℕ
by_events counts_events = 1
by_events _ = 0

abbrev pub by_batches : Tick → ℕ
by_batches counts_batch = 1
by_batches _ = 0

abbrev pub counted : (Tick → ℕ) → List Tick → ℕ
counted f [] = 0
counted f (x ∷ xs) = f x + counted f xs

abbrev half : Stand → ℕ
half half_counted = 1
half _ = 0

-- The tasks that are between the two counters.
abbrev pub halves : ℕ → (ℕ → Stand) → ℕ
halves zero stands = 0
halves (suc n) stands = half (stands n) + halves n stands

halves-beyond :
    (n i : ℕ) (stands : ℕ → Stand) (x : Stand)
    → n ≤ i
    → halves n (stand_at stands i x) ≡ halves n stands
halves-beyond zero i stands x h = refl
halves-beyond (suc n) i stands x h = ground (arith, halves-beyond n i stands x)

halves-stand_at :
    (n i : ℕ) (stands : ℕ → Stand) (x : Stand)
    → i < n
    → halves n (stand_at stands i x) + half (stands i) ≡ halves n stands + half x
halves-stand_at zero i stands x h = absurd (omega arith)
halves-stand_at (suc n) i stands x h = elim (Bool-cases (i == n)) [
  | inl e ↦ rw e (
      let same : i ≡ n = ground arith in
      rw same (omega (arith, halves-beyond n n stands x (omega arith))))
  | inr e ↦ rw e (omega (arith, halves-stand_at n i stands x (ground arith)))
]

-- Before `h`, `e` and `b` batches went into the counters.
pub record IsCounted (e b : ℕ) (h : Harness) : Type 0 where
  pub in_events : h.total_events ≡ e * h.len % 2 ^ 64
  pub in_batches : h.total_batches ≡ b % 2 ^ 64
  pub in_both : e ≡ b + halves h.clients h.stands

-- A step that goes past no `fetch_add`.
step_to-IsCounted :
    (h : Harness) (i : ℕ) (x : Stand) {e b : ℕ}
    → i < h.clients
    → half (h.stands i) ≡ 0
    → half x ≡ 0
    → IsCounted e b h
    → IsCounted (0 + e) (0 + b) (step_to i x h)
step_to-IsCounted h i x {e} {b} lt was is c = record {
  in_events = rw (zero-add e) c.in_events;
  in_batches = rw (zero-add b) c.in_batches;
  in_both = omega (arith, c.in_both, halves-stand_at h.clients i h.stands x lt);
}

one_more : (e len : ℕ) → (e * len % 2 ^ 64 + len) % 2 ^ 64 ≡ (1 + e) * len % 2 ^ 64
one_more e len = let split : (1 + e) * len ≡ e * len + len = grind arith in rw split (omega arith)

Works-IsCounted :
    {x : Tick} {h k : Harness} {e b : ℕ}
    → Works x h k
    → IsCounted e b h
    → IsCounted (by_events x + e) (by_batches x + b) k
unfolding count_events count_batch
Works-IsCounted (go_on h i lt at on) c = step_to-IsCounted h i sending lt (rw at refl) refl c
Works-IsCounted (stop_now h i lt at off) c = step_to-IsCounted h i returned lt (rw at refl) refl c
Works-IsCounted (send_ok h i lt at) c = step_to-IsCounted h i sent lt (rw at refl) refl c
Works-IsCounted (send_err h i lt at) c = step_to-IsCounted h i returned lt (rw at refl) refl c
Works-IsCounted {e} {b} (add_events h i lt at) c = record {
  in_events = rw c.in_events (one_more e h.len);
  in_batches = rw (zero-add b) c.in_batches;
  in_both =
      omega (arith, c.in_both, ap half at, halves-stand_at h.clients i h.stands half_counted lt);
}
Works-IsCounted {e} {b} (add_batch h i lt at) c = record {
  in_events = rw (zero-add e) c.in_events;
  in_batches = omega (arith, c.in_batches);
  in_both = omega (arith, c.in_both, ap half at, halves-stand_at h.clients i h.stands checking lt);
}

-- No step changes what `main` keeps, the number of tasks or the batch.
abbrev pub IsKept : Harness → Harness → Type 0
IsKept h k =
    (k.clients ≡ h.clients)
    × (k.len ≡ h.len)
    × (k.events_start ≡ h.events_start)
    × (k.events ≡ h.events)
    × (k.batches ≡ h.batches)

Works-IsKept : {x : Tick} {h k : Harness} → Works x h k → IsKept h k
unfolding count_events count_batch
Works-IsKept (go_on h i lt at on) = (refl, refl, refl, refl, refl)
Works-IsKept (stop_now h i lt at off) = (refl, refl, refl, refl, refl)
Works-IsKept (send_ok h i lt at) = (refl, refl, refl, refl, refl)
Works-IsKept (send_err h i lt at) = (refl, refl, refl, refl, refl)
Works-IsKept (add_events h i lt at) = (refl, refl, refl, refl, refl)
Works-IsKept (add_batch h i lt at) = (refl, refl, refl, refl, refl)

pub Working-IsKept : {xs : List Tick} {h k : Harness} → Working xs h k → IsKept h k
Working-IsKept (idle h) = (refl, refl, refl, refl, refl)
Working-IsKept (working x later) =
    let (a, b, c, d, e) = Works-IsKept x in
    let (a', b', c', d', e') = Working-IsKept later in (a' ∙ a, b' ∙ b, c' ∙ c, d' ∙ d, e' ∙ e)

pub Working-IsCounted :
    {xs : List Tick} {h k : Harness} {e b : ℕ}
    → Working xs h k
    → IsCounted e b h
    → IsCounted (counted by_events xs + e) (counted by_batches xs + b) k
Working-IsCounted {e} {b} (idle h) c = rw (zero-add e, zero-add b) c
Working-IsCounted {e} {b} (working {x} {xs} now later) c =
    let d = Working-IsCounted later (Works-IsCounted now c) in
    let same : counted by_events (x ∷ xs) + e ≡ counted by_events xs + (by_events x + e) =
      omega arith in
    let same' : counted by_batches (x ∷ xs) + b ≡ counted by_batches xs + (by_batches x + b) =
      omega arith in
    rw (same, same') d
