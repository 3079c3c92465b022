-- ===== src/Examples/Programs/Drain.antt =====
-- src/examples/server.rs: what the loop of the server does to the channel and to the connections.
use lumberjack_protocol.Examples.Programs.{serve_next, serve_all}
use lumberjack_protocol.Server.Queue.{
  System, Task, Act, Acts, History, receives, finishes, recv, release, respond, put, recv_some,
  finish_batch, no_acts, and_then, new_system, awaiting,
}
use lumberjack_protocol.Server.Queue.Owned.{owned, same_or_not, consume-IsFresh}
use lumberjack_protocol.Server.Queue.Stages.{Fits, fits_queued, fits_in_use, fits_answered}
use lumberjack_protocol.Server.Queue.Refines.{new_system_refines}
use lumberjack_protocol.Server.Batch.{Batch, Channel, acks, consume}
use lumberjack_protocol.Base.{
  ℕ, List, [], ◌∷◌, ◌≡◌, refl, true, false, ◌==◌, ◌⊎◌, inl, inr, append-nil, ◌∙◌, ap, subst,
  ==_refl,
}
use lumberjack_protocol.Server.Queue.Promise.{Stage}

abbrev pub serve_acts : List (ℕ × Batch) → List Act
serve_acts [] = []
serve_acts ((i, b) ∷ rest) = receives i b ∷ finishes i b ∷ serve_acts rest

-- The loop does what a holder of the server may do.
pub serve_all-History :
    (queue : List (ℕ × Batch)) (s : System)
    → s.is_open ≡ true
    → s.queue ≡ queue
    → History (serve_acts queue) s (serve_all queue s)
unfolding serve_all recv release
serve_all-History [] s on e = no_acts s
serve_all-History ((i, b) ∷ rest) s on e = and_then (recv_some s i b rest on e) (
    and_then
      (subst
        (λ held.
          Acts (finishes i b) (recv (i, b) rest s) (release acks (i, b) held (recv (i, b) rest s)))
        (append-nil s.held) (finish_batch (recv (i, b) rest s) acks s.held i b [] refl))
      (serve_all-History rest (serve_next (i, b) rest s) on refl))

serve_all-queue :
    (queue : List (ℕ × Batch)) (s : System)
    → s.queue ≡ queue
    → ((serve_all queue s).queue ≡ []) × ((serve_all queue s).held ≡ s.held)
unfolding serve_all recv release
serve_all-queue [] s e = (e, refl)
serve_all-queue ((i, b) ∷ rest) s e = serve_all-queue rest (serve_next (i, b) rest s) refl

abbrev ack_all : List Batch → Task → Task
ack_all [] t = t
ack_all (b ∷ bs) t = ack_all bs (respond acks b t)

serve_all-owned :
    (i : ℕ) (queue : List (ℕ × Batch)) (s : System)
    → (serve_all queue s).tasks i ≡ ack_all (owned i queue) (s.tasks i)
unfolding serve_all recv release
serve_all-owned i [] s = refl
serve_all-owned i ((j, b) ∷ rest) s =
    serve_all-owned i rest (serve_next (j, b) rest s) ∙ at (same_or_not j i)
  where
    at :
        (j ≡ i) ⊎ ((j == i) ≡ false)
        → ack_all (owned i rest) (put s.tasks j (respond acks b (s.tasks j)) i)
          ≡ ack_all (owned i ((j, b) ∷ rest)) (s.tasks i)
    at (inl e) = rw (e, ==_refl i) refl
    at (inr h) = rw h refl

-- A connection that waits with a batch in the channel.
waiting_one :
    {mail : Channel} {queue held : List Batch} {n : ℕ} {stage : Stage} (b : Batch)
    → Fits (awaiting n) mail queue held stage
    → queue ≡ b ∷ []
    → (mail ≡ []) × (n ≡ b.last_seq) × (consume acks b [] ≡ b.last_seq ∷ [])
waiting_one b (fits_queued {b = c} fresh e) h =
    let same : c ≡ b = cc h in
    (refl, e ∙ ap (λ (x : Batch). x.last_seq) same, rw (← same) (consume-IsFresh acks c fresh))
waiting_one b (fits_in_use fresh e) h = absurd (cc h)
waiting_one b fits_answered h = absurd (cc h)

-- In any history of a new server, when the loop of the example has worked off what is in the
-- channel: the channel is empty, the application keeps no batch more, and every task that waited
-- with a batch in the channel has its last sequence number as the answer, once.
pub serve_all_answers :
    (capacity : ℕ) (acts : List Act) (t : System) (i n : ℕ) (b : Batch)
    → History acts (new_system capacity) t
    → (t.tasks i).pc ≡ awaiting n
    → owned i t.queue ≡ b ∷ []
    → let u = serve_all t.queue t in
      (u.queue ≡ []) × (u.held ≡ t.held) × ((u.tasks i).mailbox ≡ n ∷ [])
serve_all_answers capacity acts t i n b h e one =
    let (stage, path, v) = new_system_refines capacity i acts t h in
    let (unanswered, same, answer) = waiting_one b (rw e at v) one in
    let (empty, kept) = serve_all-queue t.queue t refl in
    (empty, kept, rw (serve_all-owned i t.queue t, one, unanswered, answer, same) refl)
