-- ===== src/Server/Queue/Delivery.antt =====
-- src/server.rs: what a connection is promised means that its batches are received and
-- acknowledged in order, each once.
use lumberjack_protocol.Server.Batch.{Batch, Channel}
use lumberjack_protocol.Server.Queue.{System, Act, History, new_system, filling}
use lumberjack_protocol.Server.Queue.Promise.{
  Stage, not_yet, reading, offered, queued, in_use, answered, ended, Sight, Move, stay, begin,
  complete, admit, refuse, take, take_late, wait_queued, wait_in_use, done_with, confirm,
  leave_reading, leave_queued, leave_in_use, leave_answered, lose_server, Journey, here, onward,
  seen_all,
}
use lumberjack_protocol.Server.Queue.Sights.{
  completed, received, acks_written, completed-append, received-append, acks_written-append,
}
use lumberjack_protocol.Server.Queue.Stages.{Fits, fits_reading}
use lumberjack_protocol.Server.Queue.Refines.{new_system_refines}
use lumberjack_protocol.Base.{
  ℕ, List, [], ◌∷◌, ◌++◌, ◌≡◌, refl, some, none, Bool, true, arith, ◌≤◌, length, map, append-nil,
  append_assoc, ◌∙◌, sym, ap, subst,
}

-- The batch that is complete and not received, and the numbers that are owed for those received.
abbrev pending : Stage → List Batch
pending not_yet = []
pending reading = []
pending (offered b) = b ∷ []
pending (queued b) = b ∷ []
pending (in_use b) = []
pending (answered n) = []
pending (ended none) = []
pending (ended (some b)) = b ∷ []

abbrev Owes : Stage → List ℕ → Type 0
Owes not_yet owed = owed ≡ []
Owes reading owed = owed ≡ []
Owes (offered b) owed = owed ≡ []
Owes (queued b) owed = owed ≡ []
Owes (in_use b) owed = owed ≡ b.last_seq ∷ []
Owes (answered n) owed = owed ≡ n ∷ []
Owes (ended none) owed = length owed ≤ 1
Owes (ended (some b)) owed = owed ≡ []

abbrev pub seqs : List Batch → List ℕ
seqs bs = map (λ b. b.last_seq) bs

abbrev Balances : Bool → Stage → List Sight → Stage → List ℕ → Type 0
Balances o a w b owed =
    (o ≡ true)
    × (pending a ++ completed w ≡ received w ++ pending b)
    × ((owed' : List ℕ) × Owes b owed' × (owed ++ seqs (received w) ≡ acks_written w ++ owed'))

Move-Balances :
    {o o' : Bool} {a b : Stage} {w : List Sight} (owed : List ℕ)
    → Move o a w o' b
    → o' ≡ true
    → Owes a owed
    → Balances o a w b owed
Move-Balances owed (stay {a}) e h = (e, append-nil (pending a), (owed, h, append-nil owed))
Move-Balances owed begin e h = (e, refl, ([], refl, rw h refl))
Move-Balances owed complete e h = (e, refl, ([], refl, rw h refl))
Move-Balances owed admit e h = (e, refl, ([], refl, rw h refl))
Move-Balances owed refuse e h = absurd (cc)
Move-Balances owed (take {b}) e h = (e, refl, (b.last_seq ∷ [], refl, rw h refl))
Move-Balances owed (take_late {b}) e h = (e, refl, (b.last_seq ∷ [], omega arith, rw h refl))
Move-Balances owed wait_queued e h = (e, refl, ([], refl, rw h refl))
Move-Balances owed (wait_in_use {b}) e h = (e, refl, (b.last_seq ∷ [], refl, rw h refl))
Move-Balances owed (done_with {b}) e h = (e, refl, (b.last_seq ∷ [], refl, rw h refl))
Move-Balances owed confirm e h = (e, refl, ([], refl, rw h refl))
Move-Balances owed leave_reading e h = (e, refl, ([], omega arith, rw h refl))
Move-Balances owed leave_queued e h = (e, refl, ([], refl, rw h refl))
Move-Balances owed (leave_in_use {b}) e h = (e, refl, (b.last_seq ∷ [], omega arith, rw h refl))
Move-Balances owed (leave_answered {n}) e h = (e, refl, (n ∷ [], omega arith, rw h refl))
Move-Balances owed (lose_server d) e h = absurd (cc)

Owes-some : (a : Stage) → (owed : List ℕ) × Owes a owed
Owes-some not_yet = ([], refl)
Owes-some reading = ([], refl)
Owes-some (offered b) = ([], refl)
Owes-some (queued b) = ([], refl)
Owes-some (in_use b) = (b.last_seq ∷ [], refl)
Owes-some (answered n) = (n ∷ [], refl)
Owes-some (ended none) = ([], omega arith)
Owes-some (ended (some b)) = ([], refl)

-- A server that is there was there before.
Journey-open :
    {o o' : Bool} {a b : Stage} {w : List Sight} → Journey o a w o' b → o' ≡ true → o ≡ true
Journey-open (here a) e = e
Journey-open (onward {a} m path all) e =
    let (owed, h) = Owes-some a in (Move-Balances owed m (Journey-open path e) h).0

join {ℓ} :
    {A : Type ℓ} (p c c' r q r' s : List A)
    → p ++ c ≡ r ++ q
    → q ++ c' ≡ r' ++ s
    → p ++ (c ++ c') ≡ (r ++ r') ++ s
join p c c' r q r' s h k =
    sym (append_assoc p c c')
    ∙ ap (λ xs. xs ++ c') h
    ∙ append_assoc r q c'
    ∙ ap (λ xs. r ++ xs) k
    ∙ sym (append_assoc r r' s)

seqs-append : (bs cs : List Batch) → seqs (bs ++ cs) ≡ seqs bs ++ seqs cs
seqs-append [] cs = refl
seqs-append (b ∷ bs) cs = rw (seqs-append bs cs)

Journey-Balances :
    {o o' : Bool} {a b : Stage} {w : List Sight} (owed : List ℕ)
    → Journey o a w o' b
    → o' ≡ true
    → Owes a owed
    → Balances o a w b owed
Journey-Balances owed (here a) e h = (e, append-nil (pending a), (owed, h, append-nil owed))
Journey-Balances owed (onward {a} {b} {c} {now} {later} m path all) e h =
    let (was, one, (owed', h', paid)) = Move-Balances owed m (Journey-open path e) h in
    let (_, two, (owed'', h'', paid')) = Journey-Balances owed' path e h' in
    rw
      (
        all,
        completed-append now later,
        received-append now later,
        acks_written-append now later,
        seqs-append (received now) (received later),
      )
      (
        was,
        join (pending a) (completed now) (completed later) (received now) (pending b)
            (received later) (pending c) one two,
        (
          owed'',
          h'',
          join owed (seqs (received now)) (seqs (received later)) (acks_written now) owed'
              (acks_written later) owed'' paid paid',
        ),
      )

-- At most one batch is pending, at most one number is owed, and none while the task reads.
pending_one : (a : Stage) → length (pending a) ≤ 1
pending_one not_yet = omega arith
pending_one reading = omega arith
pending_one (offered b) = omega arith
pending_one (queued b) = omega arith
pending_one (in_use b) = omega arith
pending_one (answered n) = omega arith
pending_one (ended none) = omega arith
pending_one (ended (some b)) = omega arith

Owes-one : (a : Stage) (owed : List ℕ) → Owes a owed → length owed ≤ 1
Owes-one not_yet owed h = omega (arith, ap length h)
Owes-one reading owed h = omega (arith, ap length h)
Owes-one (offered b) owed h = omega (arith, ap length h)
Owes-one (queued b) owed h = omega (arith, ap length h)
Owes-one (in_use b) owed h = omega (arith, ap length h)
Owes-one (answered n) owed h = omega (arith, ap length h)
Owes-one (ended none) owed h = h
Owes-one (ended (some b)) owed h = omega (arith, ap length h)

reading_only :
    {mail : Channel} {queue held : List Batch} {a : Stage}
    → Fits filling mail queue held a
    → a ≡ reading
reading_only fits_reading = refl

-- In any history of a new server that has not been dropped, and for any of its connections: the
-- batches that the connection completed are those that `recv` gave of it, in their order and each
-- once, and at most one more that waits; the acknowledgements written to it are the last sequence
-- numbers of the batches that `recv` gave, in their order, but for at most one that is owed; and
-- while the connection reads a window nothing waits and nothing is owed.
pub delivered_in_order :
    (capacity i : ℕ) (acts : List Act) (t : System)
    → History acts (new_system capacity) t
    → t.is_open ≡ true
    → let w = seen_all i acts in
      (waiting : List Batch) × (owed : List ℕ) × (completed w ≡ received w ++ waiting)
      × (map (λ b. b.last_seq) (received w) ≡ acks_written w ++ owed)
      × (length waiting ≤ 1)
      × (length owed ≤ 1)
      × ((t.tasks i).pc ≡ filling → (waiting ≡ []) × (owed ≡ []))
delivered_in_order capacity i acts t h on =
    let (stage, path, v) = new_system_refines capacity i acts t h in
    let (_, split, (owed, due, paid)) = Journey-Balances [] path on refl in
    (
      pending stage,
      owed,
      split,
      paid,
      pending_one stage,
      Owes-one stage owed due,
      λ e.
          let same = reading_only (rw e at v) in
          (ap pending same, subst (λ a. Owes a owed) same due),
    )
