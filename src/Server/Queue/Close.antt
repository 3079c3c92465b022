-- ===== src/Server/Queue/Close.antt =====
-- src/server.rs: the `None` of `Server::recv`.
use lumberjack_protocol.Server.Batch.{Batch}
use lumberjack_protocol.Server.Queue.{
  System, Task, Act, Acts, History, HasNoSender, new_system, filling, offering, awaiting, release,
  drop_receiver, put, respond, receives_none, finishes, drops_receiver, stops_listening, spawn,
  offer_batch, send_ok, send_err, keepalive, ack_batch, leave_filling, leave_awaiting, recv_some,
  recv_none, finish_batch, lose_receiver, stop_listening, no_acts, and_then,
}
use lumberjack_protocol.Server.Queue.Owned.{same_or_not}
use lumberjack_protocol.Server.Queue.Order.{submitted, taken, all_of, received_in_order}
use lumberjack_protocol.Base.{
  ℕ, List, [], ◌≡◌, refl, true, false, All, ◌⊎◌, inl, inr, append-nil, ==_refl, ◌==◌,
}

-- No task does anything any more: what is left are the application's own acts, and the accept
-- loop, which may end again.
abbrev pub IsLate : Act → Type 0
IsLate receives_none = Unit
IsLate (finishes i b) = Unit
IsLate drops_receiver = Unit
IsLate stops_listening = Unit
IsLate _ = ⊥

record IsClosed (s : System) : Type 0 where
  deaf : s.is_listening ≡ false
  empty : s.queue ≡ []
  quiet : (i : ℕ) → HasNoSender (s.tasks i)

no_filling : (t : Task) → HasNoSender t → t.pc ≡ filling → ⊥
no_filling t (inl h) e = cc
no_filling t (inr h) e = cc

no_offering : (t : Task) (b : Batch) → HasNoSender t → t.pc ≡ offering b → ⊥
no_offering t b (inl h) e = cc
no_offering t b (inr h) e = cc

no_awaiting : (t : Task) (n : ℕ) → HasNoSender t → t.pc ≡ awaiting n → ⊥
no_awaiting t n (inl h) e = cc
no_awaiting t n (inr h) e = cc

Acts-IsClosed : {a : Act} {s t : System} → Acts a s t → IsClosed s → IsLate a × IsClosed t
unfolding release drop_receiver
Acts-IsClosed (spawn s i on e) c = absurd (cc (c.deaf))
Acts-IsClosed (offer_batch s i events n e) c = absurd (no_filling (s.tasks i) (c.quiet i) e)
Acts-IsClosed (send_ok s i b e on room) c = absurd (no_offering (s.tasks i) b (c.quiet i) e)
Acts-IsClosed (send_err s i b e off) c = absurd (no_offering (s.tasks i) b (c.quiet i) e)
Acts-IsClosed (keepalive s i n e none_yet) c = absurd (no_awaiting (s.tasks i) n (c.quiet i) e)
Acts-IsClosed (ack_batch s i n seq more e got) c = absurd (no_awaiting (s.tasks i) n (c.quiet i) e)
Acts-IsClosed (leave_filling s i e) c = absurd (no_filling (s.tasks i) (c.quiet i) e)
Acts-IsClosed (leave_awaiting s i n e) c = absurd (no_awaiting (s.tasks i) n (c.quiet i) e)
Acts-IsClosed (recv_some s i b rest on e) c = absurd (cc (c.empty))
Acts-IsClosed (recv_none s on off e gone) c = (tt, c)
Acts-IsClosed (finish_batch s u before i b after e) c =
    (tt, record { deaf = c.deaf; empty = c.empty; quiet = λ k. at k (same_or_not i k) })
  where
    at :
        (k : ℕ)
        → (i ≡ k) ⊎ ((i == k) ≡ false)
        → HasNoSender (put s.tasks i (respond u b (s.tasks i)) k)
    at k (inl h) = rw (h, ==_refl k) (c.quiet k)
    at k (inr h) = rw h (c.quiet k)
Acts-IsClosed (lose_receiver s on) c =
    (tt, record { deaf = c.deaf; empty = refl; quiet = rw c.empty c.quiet })
Acts-IsClosed (stop_listening s) c = (tt, record { deaf = refl; empty = c.empty; quiet = c.quiet })

History-IsLate : {acts : List Act} {s t : System} → History acts s t → IsClosed s → All IsLate acts
History-IsLate (no_acts s) c = tt
History-IsLate (and_then act later) c =
    let (late, c') = Acts-IsClosed act c in (late, History-IsLate later c')

recv_none-IsClosed :
    {s t : System} → Acts receives_none s t → IsClosed t × (t.is_open ≡ true) × (s ≡ t)
recv_none-IsClosed (recv_none s on off e gone) =
    (record { deaf = off; empty = e; quiet = gone }, on, refl)

-- When `recv` gives `None` to the holder of a new server, it has given every batch that went into
-- the channel, in their order; and whatever is done after that, no connection is accepted and no
-- task does anything: there are no more batches and no more writes.
pub recv_none_final :
    (capacity : ℕ) (before after : List Act) (s t u : System)
    → History before (new_system capacity) s
    → Acts receives_none s t
    → History after t u
    → (all_of submitted before ≡ all_of taken before) × All IsLate after
recv_none_final capacity before after s t u h none later =
    let (closed, on, same) = recv_none-IsClosed none in
    let order = received_in_order capacity before s h (rw same on) in
    (rw (same, closed.empty, append-nil) at order, History-IsLate later closed)
