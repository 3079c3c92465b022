-- ===== src/Examples/Harness/Report.antt =====
-- src/examples/baseline.rs: the two totals that `main` prints.
use lumberjack_protocol.Examples.Harness.{
  Stand, checking, returned, Harness, spawned, Tick, Measured, load_start, load_events,
  load_batches, store_stop,
}
use lumberjack_protocol.Examples.Harness.Counters.{
  by_events, by_batches, counted, halves, IsCounted, Working-IsKept, Working-IsCounted,
}
use lumberjack_protocol.Base.{
  ℕ, zero, suc, ◌≡◌, refl, ◌<◌, ◌≤◌, ◌+◌, ◌-◌, ◌*◌, ◌%◌, ◌^◌, arith, ◌∙◌, add-zero, mod-eq_of_lt,
}

halves-checking : (n : ℕ) → halves n (λ i. checking) ≡ 0
halves-checking zero = refl
halves-checking (suc n) = omega (arith, halves-checking n)

halves-returned :
    (n : ℕ) (stands : ℕ → Stand) → ((i : ℕ) → i < n → stands i ≡ returned) → halves n stands ≡ 0
halves-returned zero stands h = refl
halves-returned (suc n) stands h =
    let later = halves-returned n stands (λ i lt. h i (omega arith)) in
    rw (h n (omega arith)) (omega arith)

spawned-IsCounted : (clients len : ℕ) → IsCounted 0 0 (spawned clients len)
unfolding spawned
spawned-IsCounted clients len = record {
  in_events = omega arith;
  in_batches = refl;
  in_both = omega (arith, halves-checking clients);
}

module _ {e b : ℕ} (h : Harness) (c : IsCounted e b h) where
  load_start-IsCounted : IsCounted e b (load_start h)
  unfolding load_start
  load_start-IsCounted = record {
    in_events = c.in_events;
    in_batches = c.in_batches;
    in_both = c.in_both;
  }

  load_events-IsCounted : IsCounted e b (load_events h)
  unfolding load_events
  load_events-IsCounted = record {
    in_events = c.in_events;
    in_batches = c.in_batches;
    in_both = c.in_both;
  }

  stopped-IsCounted : IsCounted e b (store_stop (load_batches h))
  unfolding store_stop load_batches
  stopped-IsCounted = record {
    in_events = c.in_events;
    in_batches = c.in_batches;
    in_both = c.in_both;
  }

-- A difference of two readings that have not wrapped.
window_events :
    (e e' len : ℕ)
    → (e' + e) * len < 2 ^ 64
    → ((e' + e) * len % 2 ^ 64 + 2 ^ 64 - e * len % 2 ^ 64) % 2 ^ 64 ≡ e' * len
window_events e e' len h =
    let split : (e' + e) * len ≡ e' * len + e * len = grind arith in omega arith

-- Fewer batches, fewer events.
fewer : (d e len : ℕ) → 0 < len → (d + e) * len < 2 ^ 64 → (e * len < 2 ^ 64) × (d + e < 2 ^ 64)
fewer d e len positive h =
    let split : (d + e) * len ≡ d * len + e * len = grind arith in
    let grows : d + e ≤ (d + e) * len = grind arith in (omega arith, omega arith)

module _ (clients len : ℕ) (m : Measured clients len) where
  -- The batches that went into each counter, at each of the four times.
  abbrev pub sent_in : (Tick → ℕ) → ℕ
  sent_in f = counted f m.window

  abbrev pub sent_before_end : (Tick → ℕ) → ℕ
  sent_before_end f = counted f m.between + (counted f m.window + counted f m.warm_up)

  abbrev pub sent_in_all : (Tick → ℕ) → ℕ
  sent_in_all f = counted f m.wind_down + sent_before_end f

  -- Any run of the measuring program, with any number of client tasks that send and count side by
  -- side, from their spawning over the warm-up, the measured time and the loads of the counters to
  -- the join, in which the batch is not empty and the events that are counted are fewer than 2 ^
  -- 64: the events that it reports are those of the batches that were counted in the measured time
  -- alone; the batches that it reports are all that were counted up to the load, those of the
  -- warm-up included; and after the join the two counters agree, as many events as the batches
  -- have.
  pub report_lem :
      0 < len
      → sent_in_all by_events * len < 2 ^ 64
      → (m.joined.events ≡ sent_in by_events * len)
        × (m.joined.batches ≡ sent_before_end by_batches)
        × (m.joined.total_batches ≡ sent_in_all by_batches)
        × (m.joined.total_events ≡ m.joined.total_batches * len)
  unfolding spawned load_start load_events load_batches store_stop
  report_lem positive fits =
      let c_started : IsCounted (counted by_events m.warm_up) (counted by_batches m.warm_up)
          m.started =
        rw (add-zero, add-zero) at (Working-IsCounted m.warming (spawned-IsCounted clients len)) in
      let c_ended = Working-IsCounted m.measuring (load_start-IsCounted m.started c_started) in
      let c_loaded = Working-IsCounted m.loading (load_events-IsCounted m.ended c_ended) in
      let c_joined = Working-IsCounted m.joining (stopped-IsCounted m.loaded c_loaded) in
      let (n1, l1, _, _, _) = Working-IsKept m.warming in
      let (n2, l2, s2, _, _) = Working-IsKept m.measuring in
      let (n3, l3, _, e3, _) = Working-IsKept m.loading in
      let (n4, l4, _, e4, b4) = Working-IsKept m.joining in
      let (few, all_few) =
        fewer (counted by_events m.wind_down) (sent_before_end by_events) len positive fits in
      let (few', _) =
        fewer (counted by_events m.between)
          (counted by_events m.window + counted by_events m.warm_up) len positive few in
      let quiet = halves-returned m.joined.clients m.joined.stands m.all_joined in
      let both : sent_in_all by_events ≡ sent_in_all by_batches = omega (arith, c_joined.in_both) in
      let batches : m.joined.total_batches ≡ sent_in_all by_batches =
        omega (arith, c_joined.in_batches) in
      let elapsed : (m.ended.total_events + 2 ^ 64 - m.ended.events_start) % 2 ^ 64
          ≡ sent_in by_events * len =
        rw (c_ended.in_events, s2, c_started.in_events, l2, l1)
          (window_events (counted by_events m.warm_up) (counted by_events m.window) len few') in
      let length_kept : m.joined.len ≡ len = l4 ∙ l3 ∙ l2 ∙ l1 in
      let total : m.joined.total_events ≡ m.joined.total_batches * len =
        rw (c_joined.in_events, batches, ← both, length_kept) (mod-eq_of_lt fits) in
      (e4 ∙ e3 ∙ elapsed, omega (arith, c_loaded.in_batches, c_loaded.in_both), batches, total)
