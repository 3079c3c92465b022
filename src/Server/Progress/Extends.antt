-- ===== src/Server/Progress/Extends.antt =====
-- src/server.rs: what events do to a window that is being filled.
use lumberjack_protocol.Server.Progress.{Progress, take_event, Result, M, ok, bind, err}
use lumberjack_protocol.Server.Progress.Steps.{take_event_fresh, take_event_old}
use lumberjack_protocol.Events.{
  Event, Ascending, payloads, last_of, payloads-append, last_of-append,
}
use lumberjack_protocol.Base.{
  refl, List, [], ℕ, ◌++◌, ◌≡◌, Bytes, append-nil, ◌∷◌, suc, lt_or_le, ◌∙◌, inl, append_assoc, inr,
  subst, ap, length,
}
use lumberjack_protocol.Error.{panics, hangs}

-- From one state of the window to the next by these events.
abbrev pub Extends : Progress → List Event → Progress → Type 0
Extends p es p' =
    (p'.events ≡ p.events ++ payloads es)
    × (p'.prev_seq ≡ last_of p.prev_seq es)
    × Ascending p.prev_seq es

-- If the code returns a value, it and the state that it leaves satisfy `Q`.
abbrev pub OnOk : {A S : Type 0} → (A → S → Type 0) → Result A × S → Type 0
OnOk Q (ok a, s) = Q a s
OnOk Q (err e, s) = Unit
OnOk Q (panics, s) = Unit
OnOk Q (hangs, s) = Unit

module _ {A S : Type 0} where
  pub OnOk-bind :
      {B : Type 0} (P : A → Type 0) (Q : B → S → Type 0) (r : Result A) (s : S) (f : A → M S B)
      → OnOk (λ a _. P a) (r, s)
      → ((a : A) → P a → OnOk Q (f a s))
      → OnOk Q (bind (r, s) f)
  OnOk-bind P Q (ok a) s f h k = k a h
  OnOk-bind P Q (err e) s f h k = tt
  OnOk-bind P Q panics s f h k = tt
  OnOk-bind P Q hangs s f h k = tt

  pub OnOk-map :
      (P Q : A → S → Type 0) (r : Result A × S)
      → ((a : A) (s : S) → P a s → Q a s)
      → OnOk P r
      → OnOk Q r
  OnOk-map P Q (ok a, s) f h = f a s h
  OnOk-map P Q (err e, s) f h = tt
  OnOk-map P Q (panics, s) f h = tt
  OnOk-map P Q (hangs, s) f h = tt

  -- The value alone, with another state.
  pub OnOk-value :
      {T : Type 0} (P : A → S → Type 0) (Q : A → Type 0) (r : Result A × S) (t : T)
      → ((a : A) (s : S) → P a s → Q a)
      → OnOk P r
      → OnOk (λ a _. Q a) (r.0, t)
  OnOk-value P Q (ok a, s) t f h = f a s h
  OnOk-value P Q (err e, s) t f h = tt
  OnOk-value P Q (panics, s) t f h = tt
  OnOk-value P Q (hangs, s) t f h = tt

pub length-payloads : (es : List Event) → length (payloads es) ≡ length es
length-payloads [] = refl
length-payloads ((seq, payload) ∷ es) = ap suc (length-payloads es)

pub Extends-refl : (p : Progress) → Extends p [] p
Extends-refl p = (rw append-nil, refl, tt)

Ascending-join :
    (prev : ℕ) (es fs : List Event)
    → Ascending prev es
    → Ascending (last_of prev es) fs
    → Ascending prev (es ++ fs)
Ascending-join prev [] fs h k = k
Ascending-join prev ((seq, payload) ∷ es) fs (h, hs) k = (h, Ascending-join seq es fs hs k)

pub Extends-trans :
    (p q r : Progress) (es fs : List Event)
    → Extends p es q
    → Extends q fs r
    → Extends p (es ++ fs) r
Extends-trans p q r es fs (h, h', rising) (k, k', rising') = (
  k ∙ rw (h, payloads-append es fs) (append_assoc p.events (payloads es) (payloads fs)),
  k' ∙ rw (h', last_of-append p.prev_seq es fs),
  Ascending-join p.prev_seq es fs rising (subst (λ prev. Ascending prev fs) h' rising'),
)

pub take_event-Extends :
    {S : Type 0} (seq : ℕ) (payload : Bytes) (p : Progress) (s : S)
    → OnOk (λ p' _. Extends p ((seq, payload) ∷ []) p') (take_event seq payload p, s)
take_event-Extends seq payload p s = elim (lt_or_le p.prev_seq seq) [
  | inl fresh ↦ rw (take_event_fresh seq payload p fresh) (refl, refl, (fresh, tt))
  | inr old ↦ rw (take_event_old seq payload p old) tt
]
