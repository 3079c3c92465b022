-- ===== src/Server/Queue/Owned.antt =====
-- src/server.rs: the batches of one connection among those of all.
use lumberjack_protocol.Server.Batch.{Batch, sender, Usage, acks, drops, takes_events, consume, new}
use lumberjack_protocol.Server.Queue.{Task, put, respond, discard}
use lumberjack_protocol.Base.{
  ℕ, List, [], ◌∷◌, ◌++◌, ◌≡◌, refl, if◌then◌else◌, ◌==◌, inl, inr, false, some, arith, ◌⊎◌,
  append_assoc, Bytes, ◌∙◌, ==_refl,
}

-- Connection `i`, or another one.
pub same_or_not : (j i : ℕ) → (j ≡ i) ⊎ ((j == i) ≡ false)
same_or_not j i = ground arith

abbrev pub owned : ℕ → List (ℕ × Batch) → List Batch
owned i [] = []
owned i ((j, b) ∷ rest) = (if j == i then b ∷ [] else []) ++ owned i rest

pub owned-append :
    (i : ℕ) (xs ys : List (ℕ × Batch)) → owned i (xs ++ ys) ≡ owned i xs ++ owned i ys
owned-append i [] ys = refl
owned-append i ((j, b) ∷ xs) ys = rw (owned-append i xs ys, append_assoc) refl

pub owned-remove_ne :
    (i j : ℕ) (b : Batch) (xs ys : List (ℕ × Batch))
    → (j == i) ≡ false
    → owned i (xs ++ ys) ≡ owned i (xs ++ (j, b) ∷ ys)
owned-remove_ne i j b xs ys h = rw (owned-append i xs ys, owned-append i xs ((j, b) ∷ ys), h) refl

-- One entry of a connection that has one batch.
pub append-eq-one :
    (xs : List Batch) (b c : Batch) (ys : List Batch)
    → xs ++ b ∷ ys ≡ c ∷ []
    → (b ≡ c) × (xs ++ ys ≡ [])
append-eq-one [] b c ys h = (cc, cc)
append-eq-one (x ∷ []) b c ys h = absurd (cc)
append-eq-one (x ∷ y ∷ xs) b c ys h = absurd (cc)

pub append-ne-nil : (xs : List Batch) (b : Batch) (ys : List Batch) → xs ++ b ∷ ys ≡ [] → ⊥
append-ne-nil [] b ys h = cc
append-ne-nil (x ∷ xs) b ys h = cc

-- A batch that still has its sender sends its last sequence number, and once.
abbrev pub IsFresh : Batch → Type 0
IsFresh b = b.ack ≡ some sender

pub new-IsFresh : (events : List Bytes) (last_seq : ℕ) → IsFresh (new events last_seq sender)
unfolding new
new-IsFresh events last_seq = refl

pub consume-IsFresh : (u : Usage) (b : Batch) → IsFresh b → consume u b [] ≡ b.last_seq ∷ []
unfolding consume
consume-IsFresh acks b h = rw h refl
consume-IsFresh drops b h = rw h refl
consume-IsFresh takes_events b h = rw h refl

-- What the drop of the channel does to one task.
abbrev pub respond_all : List Batch → Task → Task
respond_all [] t = t
respond_all (b ∷ bs) t = respond_all bs (respond drops b t)

pub discard-owned :
    (i : ℕ) (queue : List (ℕ × Batch)) (tasks : ℕ → Task)
    → discard queue tasks i ≡ respond_all (owned i queue) (tasks i)
unfolding discard
discard-owned i [] tasks = refl
discard-owned i ((j, b) ∷ rest) tasks =
    discard-owned i rest (put tasks j (respond drops b (tasks j))) ∙ at (same_or_not j i)
  where
    at :
        (j ≡ i) ⊎ ((j == i) ≡ false)
        → respond_all (owned i rest) (put tasks j (respond drops b (tasks j)) i)
          ≡ respond_all (owned i ((j, b) ∷ rest)) (tasks i)
    at (inl e) = rw (e, ==_refl i) refl
    at (inr h) = rw h refl
