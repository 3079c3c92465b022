-- ===== src/Server/Queue/Stages.antt =====
-- src/server.rs: when the state of the system stands for a stage of one connection, and what the
-- acts of its own task do to it.
use lumberjack_protocol.Server.Queue.{System, Pc, unborn, filling, offering, awaiting, over, Act}
use lumberjack_protocol.Server.Queue.Promise.{
  Stage, not_yet, reading, offered, queued, in_use, answered, ended, Sight, batch_complete,
  batch_received, ack_written, keepalive_written, server_dropped, Move, stay, begin, complete,
  admit, refuse, take, take_late, wait_queued, wait_in_use, done_with, lose_server, confirm,
  leave_reading, leave_queued, leave_in_use, leave_answered, seen,
}
use lumberjack_protocol.Server.Queue.Owned.{
  owned, same_or_not, append-eq-one, append-ne-nil, IsFresh, consume-IsFresh, respond_all,
}
use lumberjack_protocol.Server.Batch.{Batch, Channel, Usage, drops, consume}
use lumberjack_protocol.Base.{
  ℕ, List, [], ◌∷◌, ◌++◌, ◌≡◌, refl, some, none, ◌==◌, Bool, true, false, inl, inr, subst, sym,
}

-- When a task, what its `ack_rx` holds, its batches in the channel and its batches with the
-- application stand for a stage.
pub data Fits : Pc → Channel → List Batch → List Batch → Stage → Type 0 where
  fits_unborn : {mail : Channel} → Fits unborn mail [] [] not_yet
  fits_reading : {mail : Channel} → Fits filling mail [] [] reading
  fits_offered : {b : Batch} → IsFresh b → Fits (offering b) [] [] [] (offered b)
  fits_queued :
      {b : Batch} {n : ℕ} → IsFresh b → n ≡ b.last_seq → Fits (awaiting n) [] (b ∷ []) [] (queued b)
  fits_in_use :
      {b : Batch} {n : ℕ} → IsFresh b → n ≡ b.last_seq → Fits (awaiting n) [] [] (b ∷ []) (in_use b)
  fits_answered : {n m : ℕ} → Fits (awaiting n) (m ∷ []) [] [] (answered m)
  fits_left : {mail : Channel} {b : Batch} → Fits over mail (b ∷ []) [] (ended (some b))
  fits_ended : {mail : Channel} {held : List Batch} → Fits over mail [] held (ended none)

abbrev pub Views : ℕ → System → Stage → Type 0
Views i s stage = Fits (s.tasks i).pc (s.tasks i).mailbox (owned i s.queue) (owned i s.held) stage

-- An act, as seen by connection `i`, is a move of its stage.
abbrev pub Follows : Act → System → System → ℕ → Type 0
Follows a s t i =
    (stage : Stage)
    → Views i s stage
    → (stage' : Stage) × Move s.is_open stage (seen i a) t.is_open stage' × Views i t stage'

module _ (a : Act) (s t : System) (j : ℕ) where
  -- The task that acts, and the others.
  pub by_task :
      Follows a s t j → ((i : ℕ) → (j == i) ≡ false → Follows a s t i) → (i : ℕ) → Follows a s t i
  by_task own others i = elim (same_or_not j i) [
    | inl e ↦ subst (λ i. Follows a s t i) e own
    | inr h ↦ others i h
  ]

-- What befalls the task that acts, on its own stage.
abbrev pub Becomes :
    Bool → Stage → List Sight → Bool → Pc → Channel → List Batch → List Batch → Type 0
Becomes o stage w o' pc mail queue held =
    (stage' : Stage) × Move o stage w o' stage' × Fits pc mail queue held stage'

pub spawn_own :
    {o : Bool} {mail : Channel} {queue held : List Batch} {stage : Stage}
    → Fits unborn mail queue held stage
    → Becomes o stage [] o filling mail queue held
spawn_own fits_unborn = (reading, begin, fits_reading)

pub offer_own :
    {o : Bool} {mail : Channel} {queue held : List Batch} {stage : Stage} (b : Batch)
    → IsFresh b
    → Fits filling mail queue held stage
    → Becomes o stage (batch_complete b ∷ []) o (offering b) [] queue held
offer_own b fresh fits_reading = (offered b, complete, fits_offered fresh)

pub submit_own :
    {mail : Channel} {queue held : List Batch} {stage : Stage} (b : Batch)
    → Fits (offering b) mail queue held stage
    → Becomes true stage [] true (awaiting b.last_seq) mail (queue ++ b ∷ []) held
submit_own b (fits_offered fresh) = (queued b, admit, fits_queued fresh refl)

pub refuse_own :
    {mail : Channel} {queue held : List Batch} {stage : Stage} (b : Batch)
    → Fits (offering b) mail queue held stage
    → Becomes false stage [] false over mail queue held
refuse_own b (fits_offered fresh) = (ended none, refuse, fits_ended)

pub leave_own :
    {o : Bool} {mail : Channel} {queue held : List Batch} {stage : Stage}
    → Fits filling mail queue held stage
    → Becomes o stage [] o over mail queue held
leave_own fits_reading = (ended none, leave_reading, fits_ended)

pub leave_awaiting_own :
    {o : Bool} {mail : Channel} {queue held : List Batch} {stage : Stage} (n : ℕ)
    → Fits (awaiting n) mail queue held stage
    → Becomes o stage [] o over mail queue held
leave_awaiting_own n (fits_queued {b} fresh e) = (ended (some b), leave_queued, fits_left)
leave_awaiting_own n (fits_in_use fresh e) = (ended none, leave_in_use, fits_ended)
leave_awaiting_own n fits_answered = (ended none, leave_answered, fits_ended)

pub keepalive_own :
    {o : Bool} {n : ℕ} {queue held : List Batch} {stage : Stage}
    → Fits (awaiting n) [] queue held stage
    → Becomes o stage (keepalive_written ∷ []) o (awaiting n) [] queue held
keepalive_own (fits_queued {b} fresh e) = (queued b, wait_queued, fits_queued fresh e)
keepalive_own (fits_in_use {b} fresh e) = (in_use b, wait_in_use, fits_in_use fresh e)

pub ack_own :
    {o : Bool} {n seq : ℕ} {more : Channel} {queue held : List Batch} {stage : Stage}
    → Fits (awaiting n) (seq ∷ more) queue held stage
    → Becomes o stage (ack_written seq ∷ []) o filling (seq ∷ more) queue held
ack_own fits_answered = (reading, confirm, fits_reading)

pub recv_own :
    {pc : Pc} {mail : Channel} {held : List Batch} {b : Batch} {ys : List Batch} {stage : Stage}
    → Fits pc mail (b ∷ ys) held stage
    → Becomes true stage (batch_received b ∷ []) true pc mail ys (held ++ b ∷ [])
recv_own (fits_queued {b} fresh e) = (in_use b, take, fits_in_use fresh e)
recv_own fits_left = (ended none, take_late, fits_ended)

-- The drop of the channel.
pub drop_own :
    {pc : Pc} {mail : Channel} {queue held : List Batch} {stage : Stage}
    → Fits pc mail queue held stage
    → let t = respond_all queue (record { pc = pc; mailbox = mail }) in
      Becomes true stage (server_dropped ∷ []) false t.pc t.mailbox [] held
drop_own fits_unborn = (not_yet, lose_server refl, fits_unborn)
drop_own fits_reading = (reading, lose_server refl, fits_reading)
drop_own {stage} (fits_offered fresh) = (stage, lose_server refl, fits_offered fresh)
drop_own (fits_queued {b} fresh e) =
    (answered b.last_seq, lose_server refl, rw (consume-IsFresh drops b fresh) fits_answered)
drop_own {stage} (fits_in_use fresh e) = (stage, lose_server refl, fits_in_use fresh e)
drop_own {stage} fits_answered = (stage, lose_server refl, fits_answered)
drop_own fits_left = (ended none, lose_server refl, fits_ended)
drop_own fits_ended = (ended none, lose_server refl, fits_ended)

pub finish_own :
    {o : Bool} {pc : Pc} {mail : Channel} {queue held : List Batch} {stage : Stage} (u : Usage)
    (b : Batch) (xs ys : List Batch)
    → Fits pc mail queue held stage
    → held ≡ xs ++ b ∷ ys
    → Becomes o stage [] o pc (consume u b mail) queue (xs ++ ys)
finish_own u b xs ys fits_unborn h = absurd (append-ne-nil xs b ys (sym h))
finish_own u b xs ys fits_reading h = absurd (append-ne-nil xs b ys (sym h))
finish_own u b xs ys (fits_offered fresh) h = absurd (append-ne-nil xs b ys (sym h))
finish_own u b xs ys (fits_queued fresh e) h = absurd (append-ne-nil xs b ys (sym h))
finish_own u b xs ys (fits_in_use {b = c} fresh e) h =
    let (same, none_left) = append-eq-one xs b c ys (sym h) in
    (answered c.last_seq, done_with, rw (same, none_left, consume-IsFresh u c fresh) fits_answered)
finish_own u b xs ys fits_answered h = absurd (append-ne-nil xs b ys (sym h))
finish_own u b xs ys fits_left h = absurd (append-ne-nil xs b ys (sym h))
finish_own u b xs ys fits_ended h = (ended none, stay, fits_ended)
