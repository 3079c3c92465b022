-- ===== src/EndToEnd/Groups.antt =====
-- How `Client::send` of src/client.rs groups its events into frames.
use lumberjack_protocol.Server.Progress.Grouping.{
  Group, plain, packed, frame_of, members, events_of,
}
use lumberjack_protocol.Client.Send.Frames.{payload_frames}
use lumberjack_protocol.Codec.{arrived}
use lumberjack_protocol.Events.{Event, number, json_frames, IsSendable}
use lumberjack_protocol.Frame.Flate.{Zlib}
use lumberjack_protocol.Frame.{json, default_max_frame_size}
use lumberjack_protocol.Base.{
  refl, ℕ, List, ◌<◌, ◌≡◌, map, All, ◌∷◌, Bool-cases, if◌then◌else◌, [], ap, ltb, inl, inr,
  append-nil, Bytes, arith, length, ◌^◌, ◌≤◌, ◌+◌,
}

-- The groups into which a client puts its events.
abbrev pub groups_of : ℕ → List Event → List Group
groups_of level [] = []
groups_of level (e ∷ es) = if ltb 0 level then packed e es ∷ [] else map plain (e ∷ es)

events_of-plain : (es : List Event) → events_of (map plain es) ≡ es
events_of-plain [] = refl
events_of-plain (e ∷ es) = ap (◌∷◌ e) (events_of-plain es)

pub events_of-groups_of : (level : ℕ) (es : List Event) → events_of (groups_of level es) ≡ es
events_of-groups_of level [] = refl
events_of-groups_of level (e ∷ es) = elim (Bool-cases (ltb 0 level)) [
  | inl on ↦ rw on (ap (◌∷◌ e) (append-nil es))
  | inr off ↦ rw off (ap (◌∷◌ e) (events_of-plain es))
]

module _ (z : Zlib) where
  map-plain :
      (es : List Event)
      → map (λ g. arrived (frame_of z g)) (map plain es) ≡ map arrived (json_frames es)
  map-plain [] = refl
  map-plain (e ∷ es) = ap (◌∷◌ (arrived (json e.0 e.1))) (map-plain es)

  pub frames-groups_of :
      (level : ℕ) (e : Event) (es : List Event)
      → map (λ g. arrived (frame_of z g)) (groups_of level (e ∷ es))
        ≡ map arrived (payload_frames z level (e ∷ es))
  frames-groups_of level e es = elim (Bool-cases (ltb 0 level)) [
    | inl on ↦ rw on refl
    | inr off ↦ rw off (map-plain (e ∷ es))
  ]

All-plain :
    (P : Event → Type 0) (es : List Event) → All P es → All (λ g. All P (members g)) (map plain es)
All-plain P [] h = tt
All-plain P (e ∷ es) (h, hs) = ((h, tt), All-plain P es hs)

pub All-groups_of :
    (P : Event → Type 0) (level : ℕ) (es : List Event)
    → All P es
    → All (λ g. All P (members g)) (groups_of level es)
All-groups_of P level [] h = tt
All-groups_of P level (e ∷ es) h = elim (Bool-cases (ltb 0 level)) [
  | inl on ↦ rw on (h, tt)
  | inr off ↦ rw off (All-plain P (e ∷ es) h)
]

pub All-map :
    {A : Type 0} {P Q : A → Type 0} → ((a : A) → P a → Q a) → (xs : List A) → All P xs → All Q xs
All-map f [] h = tt
All-map f (x ∷ xs) (h, hs) = (f x h, All-map f xs hs)

pub number-IsTaken :
    (max i : ℕ) (bs : List Bytes)
    → i + length bs < 2 ^ 32
    → All (λ b. (length b ≤ default_max_frame_size) × (length b ≤ max)) bs
    → All (IsSendable max) (number i bs)
number-IsTaken max i [] h small = tt
number-IsTaken max i (b ∷ bs) h ((short, fits), small) =
    ((omega arith, omega arith, fits), number-IsTaken max (i + 1) bs (omega arith) small)
