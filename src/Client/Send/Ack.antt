-- ===== src/Client/Send/Ack.antt =====
-- src/client.rs: the loop of `Client::send` that waits for the acknowledgement.
use lumberjack_protocol.Client.Link.{Arrival, item, closes, for_ever, in_time}
use lumberjack_protocol.Client.Send.{
  remaining, await_ack, ok, arrived, ack, Result, silence, Item, heard, window, err, json,
  ack_timeout, compressed, connection_closed, broken, hangs,
}
use lumberjack_protocol.Base.{
  true, false, refl, Option, ℕ, List, ◌≡◌, ◌≤◌, le→leb, lt→leb_false, ◌∷◌, ◌<◌, [], ◌↔◌, ap, ◌≢◌,
  some, Bool-cases, none, inl, inr, lt_or_le, sym, ◌∙◌, subst,
}
use lumberjack_protocol.Error.{Error, Returns}

module _ (limit : Option ℕ) (n : ℕ) where
  -- In time, each time, come acknowledgements of fewer than `n` events (a keepalive is one of 0),
  -- and then one of `n` events or more; `rest` is what the peer does after it.
  pub data Confirms (rest : List Arrival) : List Arrival → Type 0 where
    confirmed :
        (d seq : ℕ)
        → in_time limit d ≡ true
        → n ≤ seq
        → Confirms rest (item d (arrived (ack seq)) ∷ rest)
    partial :
        (d seq : ℕ) {arrivals : List Arrival}
        → in_time limit d ≡ true
        → seq < n
        → Confirms rest arrivals
        → Confirms rest (item d (arrived (ack seq)) ∷ arrivals)
    endless :
        (d seq : ℕ) {arrivals : List Arrival}
        → in_time limit d ≡ true
        → n ≤ seq
        → rest ≡ for_ever d seq ∷ arrivals
        → Confirms rest (for_ever d seq ∷ arrivals)

  now :
      (d seq : ℕ) (rest : List Arrival)
      → in_time limit d ≡ true
      → n ≤ seq
      → Confirms rest (item d (arrived (ack seq)) ∷ rest)
  now d seq rest punctual enough = confirmed d seq punctual enough

  pub await_ack_complete :
      {rest arrivals : List Arrival}
      → Confirms rest arrivals
      → await_ack limit n arrivals ≡ (ok n, rest)
  unfolding await_ack
  await_ack_complete (confirmed d seq punctual enough) =
      rw (punctual, await_ack) (rw (le→leb _ _ enough))
  await_ack_complete (partial d seq punctual few c) =
      rw (punctual, await_ack) (rw (lt→leb_false _ _ few) (await_ack_complete c))
  await_ack_complete (endless d seq punctual enough same) =
      rw (punctual, await_ack, same) (rw (le→leb _ _ enough) refl)

  silence-ne-ok : (l : Option ℕ) (m : ℕ) → silence l ≢ ok m
  silence-ne-ok none m h = cc
  silence-ne-ok (some t) m h = cc

  silent : await_ack limit n [] ≡ (silence limit, [])
  unfolding await_ack
  silent = refl

  abbrev Answer : Type 0
  Answer = Result ℕ × List Arrival

  pub late :
      (d : ℕ) (it : Item) (arrivals : List Arrival)
      → in_time limit d ≡ false
      → await_ack limit n (item d it ∷ arrivals)
        ≡ (err ack_timeout, item (remaining limit d) it ∷ arrivals)
  unfolding await_ack
  late d it arrivals h = rw (h, await_ack)

  pub punctual_ack :
      (d seq : ℕ) (arrivals : List Arrival)
      → in_time limit d ≡ true
      → seq < n
      → await_ack limit n (item d (arrived (ack seq)) ∷ arrivals) ≡ await_ack limit n arrivals
  unfolding await_ack
  punctual_ack d seq arrivals h few = rw (h, await_ack) (rw (lt→leb_false _ _ few))

  pub unexpected :
      (d : ℕ) (it : Item) (e : Error) (arrivals : List Arrival)
      → in_time limit d ≡ true
      → heard n it ≡ err e
      → await_ack limit n (item d it ∷ arrivals) ≡ (err e, arrivals)
  unfolding await_ack
  unexpected d it e arrivals h k = rw (h, await_ack) (rw k)

  pub closed_by_peer :
      (d : ℕ) (arrivals : List Arrival)
      → (e : Error) × (left : List Arrival) × (await_ack limit n (closes d ∷ arrivals)
          ≡ (err e, left))
  unfolding await_ack
  closed_by_peer d arrivals = elim (Bool-cases (in_time limit d)) [
    | inl h ↦ (connection_closed, arrivals, rw h)
    | inr h ↦ (ack_timeout, closes (remaining limit d) ∷ arrivals, rw h)
  ]

  pub closes-Returns :
      (d : ℕ) (arrivals : List Arrival) → Returns (await_ack limit n (closes d ∷ arrivals)).0
  closes-Returns d arrivals = let (e, left, same) = closed_by_peer d arrivals in rw same tt

  pub late_for_ever :
      (d seq : ℕ) (arrivals : List Arrival)
      → in_time limit d ≡ false
      → await_ack limit n (for_ever d seq ∷ arrivals) ≡ (
        err ack_timeout,
        item (remaining limit d) (arrived (ack seq)) ∷ for_ever d seq ∷ arrivals,
      )
  unfolding await_ack
  late_for_ever d seq arrivals h = rw (h, await_ack)

  pub waits_for_ever :
      (d seq : ℕ) (arrivals : List Arrival)
      → in_time limit d ≡ true
      → seq < n
      → await_ack limit n (for_ever d seq ∷ arrivals) ≡ (hangs, for_ever d seq ∷ arrivals)
  unfolding await_ack
  waits_for_ever d seq arrivals h few = rw (h, await_ack) (rw (lt→leb_false _ _ few) refl)

  not_ok :
      {a : Answer} {e : Error} {left rest : List Arrival} {m : ℕ}
      → a ≡ (err e, left)
      → a ≡ (ok m, rest)
      → ⊥
  not_ok p q = cc

  not_done :
      {a : Answer} {left rest : List Arrival} {m : ℕ} → a ≡ (hangs, left) → a ≡ (ok m, rest) → ⊥
  not_done p q = cc

  await_ack_sound :
      (arrivals : List Arrival) {m : ℕ} {rest : List Arrival}
      → await_ack limit n arrivals ≡ (ok m, rest)
      → (m ≡ n) × Confirms rest arrivals
  await_ack_sound [] {m} h =
      absurd (silence-ne-ok limit m (ap (λ (a : Answer). a.0) (sym silent ∙ h)))
  await_ack_sound (closes d ∷ arrivals) h =
      let (e, left, same) = closed_by_peer d arrivals in absurd (not_ok same h)
  await_ack_sound (for_ever d seq ∷ arrivals) h = elim (Bool-cases (in_time limit d)) [
    | inr tardy ↦ absurd (not_ok (late_for_ever d seq arrivals tardy) h)
    | inl punctual ↦ elim (lt_or_le seq n) [
      | inl few ↦ absurd (not_done (waits_for_ever d seq arrivals punctual few) h)
      | inr enough ↦
          let c : Confirms (for_ever d seq ∷ arrivals) (for_ever d seq ∷ arrivals) =
            endless d seq punctual enough refl in
          let found = sym (await_ack_complete c) ∙ h in
          (
            cc found,
            subst (λ r. Confirms r (for_ever d seq ∷ arrivals)) (ap (λ (a : Answer). a.1) found) c,
          )
    ]
  ]
  await_ack_sound (item d it ∷ arrivals) h = elim (Bool-cases (in_time limit d)) [
    | inr tardy ↦ absurd (not_ok (late d it arrivals tardy) h)
    | inl punctual ↦ on_item it punctual h (await_ack_sound arrivals)
  ]
    where
      on_item :
          (it : Item) {m : ℕ} {rest : List Arrival}
          → in_time limit d ≡ true
          → await_ack limit n (item d it ∷ arrivals) ≡ (ok m, rest)
          → (await_ack limit n arrivals ≡ (ok m, rest) → (m ≡ n) × Confirms rest arrivals)
          → (m ≡ n) × Confirms rest (item d it ∷ arrivals)
      on_item (arrived (window k)) punctual h ih =
          absurd (not_ok (unexpected d _ _ arrivals punctual refl) h)
      on_item (arrived (json seq payload)) punctual h ih =
          absurd (not_ok (unexpected d _ _ arrivals punctual refl) h)
      on_item (arrived (compressed inner)) punctual h ih =
          absurd (not_ok (unexpected d _ _ arrivals punctual refl) h)
      on_item (broken e) punctual h ih = absurd (not_ok (unexpected d _ _ arrivals punctual refl) h)
      on_item (arrived (ack seq)) {m} {rest} punctual h ih = elim (lt_or_le seq n) [
        | inl few ↦
            let (same, c) = ih (sym (punctual_ack d seq arrivals punctual few) ∙ h) in
            (same, partial d seq punctual few c)
        | inr enough ↦
            let found = sym (await_ack_complete (now d seq arrivals punctual enough)) ∙ h in
            (
              cc found,
              subst (λ r. Confirms r (item d (arrived (ack seq)) ∷ arrivals))
                  (ap (λ (a : Answer). a.1) found) (now d seq arrivals punctual enough),
            )
      ]

  -- The wait for an acknowledgement returns a number exactly when the peer, in time each time,
  -- first sends acknowledgements of fewer than `n` events and then one of `n` events or more; then
  -- the number is `n`, and what the peer does after that is left alone.
  pub await_ack_lem :
      (arrivals rest : List Arrival) (m : ℕ)
      → (await_ack limit n arrivals ≡ (ok m, rest)) ↔ ((m ≡ n) × Confirms rest arrivals)
  await_ack_lem arrivals rest m =
      (λ h. await_ack_sound arrivals h, λ c. rw c.0 (await_ack_complete c.1))
