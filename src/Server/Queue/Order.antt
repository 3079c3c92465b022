-- ===== src/Server/Queue/Order.antt =====
-- src/server.rs: what the channel of tokio does to the batches of all connections, as the acts have it.
use lumberjack_protocol.Server.Batch.{Batch}
use lumberjack_protocol.Server.Queue.{
  System, Act, Acts, History, new_system, submit, recv, offer, release, drop_receiver, submits,
  receives, spawn, offer_batch, send_ok, send_err, keepalive, ack_batch, leave_filling,
  leave_awaiting, recv_some, recv_none, finish_batch, lose_receiver, stop_listening, no_acts,
  and_then,
}
use lumberjack_protocol.Base.{
  ℕ, List, [], ◌∷◌, ◌++◌, ◌≡◌, refl, true, append-nil, append_assoc, ◌∙◌, sym, ap,
}

-- The batches that went into the channel, and those that `recv` gave.
abbrev pub submitted : Act → List (ℕ × Batch)
submitted (submits i b) = (i, b) ∷ []
submitted _ = []

abbrev pub taken : Act → List (ℕ × Batch)
taken (receives i b) = (i, b) ∷ []
taken _ = []

abbrev pub all_of : (Act → List (ℕ × Batch)) → List Act → List (ℕ × Batch)
all_of f [] = []
all_of f (a ∷ acts) = f a ++ all_of f acts

abbrev Passes : List (ℕ × Batch) → List (ℕ × Batch) → System → System → Type 0
Passes ins outs s t = (s.is_open ≡ true) × (s.queue ++ ins ≡ outs ++ t.queue)

Acts-Passes :
    {a : Act} {s t : System} → Acts a s t → t.is_open ≡ true → Passes (submitted a) (taken a) s t
unfolding offer submit recv release drop_receiver
Acts-Passes (spawn s i on e) h = (h, append-nil s.queue)
Acts-Passes (offer_batch s i events n e) h = (h, append-nil s.queue)
Acts-Passes (send_ok s i b e on room) h = (h, refl)
Acts-Passes (send_err s i b e off) h = (h, append-nil s.queue)
Acts-Passes (keepalive s i n e none_yet) h = (h, append-nil s.queue)
Acts-Passes (ack_batch s i n seq more e got) h = (h, append-nil s.queue)
Acts-Passes (leave_filling s i e) h = (h, append-nil s.queue)
Acts-Passes (leave_awaiting s i n e) h = (h, append-nil s.queue)
Acts-Passes (recv_some s i b rest on e) h = (h, append-nil s.queue ∙ e)
Acts-Passes (recv_none s on off e gone) h = (h, append-nil s.queue)
Acts-Passes (finish_batch s u before i b after e) h = (h, append-nil s.queue)
Acts-Passes (lose_receiver s on) h = absurd (cc)
Acts-Passes (stop_listening s) h = (h, append-nil s.queue)

History-Passes :
    {acts : List Act} {s t : System}
    → History acts s t
    → t.is_open ≡ true
    → Passes (all_of submitted acts) (all_of taken acts) s t
History-Passes (no_acts s) h = (h, append-nil s.queue)
History-Passes (and_then {a} {acts} {s} {t} {u} act later) h =
    let (on, all) = History-Passes later h in
    let (was, one) = Acts-Passes act on in
    (
      was,
      sym (append_assoc s.queue (submitted a) (all_of submitted acts))
          ∙ ap (λ q. q ++ all_of submitted acts) one
          ∙ append_assoc (taken a) t.queue (all_of submitted acts)
          ∙ ap (λ q. taken a ++ q) all
          ∙ sym (append_assoc (taken a) (all_of taken acts) u.queue),
    )

-- In any history of a new server that has not been dropped: the batches that went into the channel,
-- of all connections, are those that `recv` gave, in the same order, and then those that are in it.
pub received_in_order :
    (capacity : ℕ) (acts : List Act) (t : System)
    → History acts (new_system capacity) t
    → t.is_open ≡ true
    → all_of submitted acts ≡ all_of taken acts ++ t.queue
unfolding new_system
received_in_order capacity acts t h on = (History-Passes h on).1
