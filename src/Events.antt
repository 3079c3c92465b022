-- ===== src/Events.antt =====
-- The words in which the specifications of src/client.rs and src/server.rs speak of the events of a
-- batch: numbered payloads, and the `J` frames that carry them.
use lumberjack_protocol.Base.{
  refl, ℕ, List, IsU32, Bytes, ◌++◌, ◌∷◌, ◌+◌, length, ◌≡◌, [], ap, ◌≤◌, ◌<◌, arith, ◌^◌, suc, All,
}
use lumberjack_protocol.Frame.{Frame, json}

-- A sequence number and a payload.
abbrev pub Event : Type 0
Event = ℕ × Bytes

abbrev pub json_frames : List Event → List Frame
json_frames [] = []
json_frames ((seq, payload) ∷ es) = json seq payload ∷ json_frames es

-- The numbers rise, from above `prev` on.
abbrev pub Ascending : ℕ → List Event → Type 0
Ascending prev [] = Unit
Ascending prev ((seq, payload) ∷ es) = (prev < seq) × Ascending seq es

abbrev pub last_of : ℕ → List Event → ℕ
last_of prev [] = prev
last_of prev ((seq, payload) ∷ es) = last_of seq es

abbrev pub payloads : List Event → List Bytes
payloads [] = []
payloads ((seq, payload) ∷ es) = payload ∷ payloads es

-- What can stand in a frame for a receiver with this limit.
abbrev pub IsSendable : ℕ → Event → Type 0
IsSendable max (seq, payload) = IsU32 seq × IsU32 (length payload) × (length payload ≤ max)

pub Ascending-append :
    (prev : ℕ) (es fs : List Event)
    → Ascending prev (es ++ fs)
    → Ascending prev es × Ascending (last_of prev es) fs
Ascending-append prev [] fs h = (tt, h)
Ascending-append prev ((seq, payload) ∷ es) fs (h, hs) =
    let (front, back) = Ascending-append seq es fs hs in ((h, front), back)

pub last_of-append :
    (prev : ℕ) (es fs : List Event) → last_of prev (es ++ fs) ≡ last_of (last_of prev es) fs
last_of-append prev [] fs = refl
last_of-append prev ((seq, payload) ∷ es) fs = last_of-append seq es fs

pub payloads-append : (es fs : List Event) → payloads (es ++ fs) ≡ payloads es ++ payloads fs
payloads-append [] fs = refl
payloads-append ((seq, payload) ∷ es) fs = ap (◌∷◌ payload) (payloads-append es fs)

-- Payloads numbered from `i + 1` on.
abbrev pub number : ℕ → List Bytes → List Event
number i [] = []
number i (b ∷ bs) = (i + 1, b) ∷ number (i + 1) bs

pub number-Ascending : (i : ℕ) (bs : List Bytes) → Ascending i (number i bs)
number-Ascending i [] = tt
number-Ascending i (b ∷ bs) = (omega arith, number-Ascending (i + 1) bs)

pub payloads-number : (i : ℕ) (bs : List Bytes) → payloads (number i bs) ≡ bs
payloads-number i [] = refl
payloads-number i (b ∷ bs) = ap (◌∷◌ b) (payloads-number (i + 1) bs)

pub length-number : (i : ℕ) (bs : List Bytes) → length (number i bs) ≡ length bs
length-number i [] = refl
length-number i (b ∷ bs) = ap suc (length-number (i + 1) bs)

pub last_of-number : (i : ℕ) (bs : List Bytes) → last_of i (number i bs) ≡ i + length bs
last_of-number i [] = omega arith
last_of-number i (b ∷ bs) = omega (arith, last_of-number (i + 1) bs)

pub number-IsSendable :
    (max i : ℕ) (bs : List Bytes)
    → i + length bs < 2 ^ 32
    → max < 2 ^ 32
    → All (λ b. length b ≤ max) bs
    → All (IsSendable max) (number i bs)
number-IsSendable max i [] h k small = tt
number-IsSendable max i (b ∷ bs) h k (fits, small) =
    ((omega arith, omega arith, fits), number-IsSendable max (i + 1) bs (omega arith) k small)
