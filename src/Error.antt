-- ===== src/Error.antt =====
-- src/error.rs: the error type of the crate, and what a piece of its code comes to.
-- `Tls` carries an error of rustls, `Io` one of the operating system: both are texts here.
pub mod Display
use lumberjack_protocol.Base.{ℕ, String}

pub data Error : Type 0 where
  io : String → Error
  invalid_frame : String → Error
  frame_too_large : ℕ → ℕ → Error
  compression : String → Error
  serialization : String → Error
  unexpected_frame : String → Error
  seq_out_of_order : ℕ → ℕ → Error
  write_timeout : Error
  ack_timeout : Error
  connection_closed : Error
  invalid_config : String → Error
  no_local_port_available : Error
  tls : String → Error

-- A `Result` of the crate is `ok` or `err`. `panics`: an index, a slice or an arithmetic operation
-- is out of range. `hangs`: the code waits for what never comes, or a loop is out of fuel.
pub data Result {ℓ} (A : Type ℓ) : Type ℓ where
  ok : A → Result A
  err : Error → Result A
  panics : Result A
  hangs : Result A

module _ {ℓ} {A : Type ℓ} where
  -- The code comes to an end, with a value or with an error of the crate.
  abbrev pub Returns : Result A → Type 0
  Returns (ok a) = Unit
  Returns (err e) = Unit
  Returns panics = ⊥
  Returns hangs = ⊥

-- Code that changes a state of type `S`: the result, and the state that it leaves.
abbrev pub M {ℓ κ} : Type ℓ → Type κ → Type (ℓ ⊔ κ)
M S A = S → Result A × S

module _ {ℓ κ} {S : Type ℓ} {A : Type κ} where
  abbrev pub return : A → M S A
  return a s = (ok a, s)

  abbrev pub fail : Error → M S A
  fail e s = (err e, s)

  abbrev pub panic : M S A
  panic s = (panics, s)

  abbrev pub hang : M S A
  hang s = (hangs, s)

  -- A computation that does not touch the state.
  abbrev pub lift : Result A → M S A
  lift r s = (r, s)

module _ {ℓ κ μ} {S : Type ℓ} {A : Type κ} {B : Type μ} where
  abbrev pub bind : Result A × S → (A → M S B) → Result B × S
  bind (ok a, s) f = f a s
  bind (err e, s) f = (err e, s)
  bind (panics, s) f = (panics, s)
  bind (hangs, s) f = (hangs, s)

  infixl 5 ◌>>=◌ ◌>>◌
  abbrev pub ◌>>=◌ : M S A → (A → M S B) → M S B
  ◌>>=◌ m f s = bind (m s) f

  abbrev pub ◌>>◌ : M S A → M S B → M S B
  ◌>>◌ m k s = bind (m s) (λ _. k)

-- The code comes to an end, and a value that it returns satisfies `P`.
abbrev pub Ensures {ℓ} : {A : Type ℓ} → (A → Type 0) → Result A → Type 0
Ensures P (ok a) = P a
Ensures P (err e) = Unit
Ensures P panics = ⊥
Ensures P hangs = ⊥

pub Ensures-bind {ℓ κ μ} :
    {S : Type ℓ} {A : Type κ} {B : Type μ} {P : A → Type 0} (Q : B → Type 0) (r : Result A) (s : S)
    (f : A → M S B)
    → Ensures P r
    → ((a : A) → P a → Ensures Q (f a s).0)
    → Ensures Q (bind (r, s) f).0
Ensures-bind Q (ok a) s f h k = k a h
Ensures-bind Q (err e) s f h k = tt
Ensures-bind Q panics s f h k = h
Ensures-bind Q hangs s f h k = h

pub Returns-bind {ℓ κ μ} :
    {S : Type ℓ} {A : Type κ} {B : Type μ} (r : Result A × S) (f : A → M S B)
    → Returns r.0
    → ((a : A) → Returns (f a r.1).0)
    → Returns (bind r f).0
Returns-bind (ok a, s) f h k = k a
Returns-bind (err e, s) f h k = tt
Returns-bind (panics, s) f h k = h
Returns-bind (hangs, s) f h k = h
