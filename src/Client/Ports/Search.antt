-- ===== src/Client/Ports/Search.antt =====
-- src/client.rs: the ports that `connect_with_port_range` tries.
use lumberjack_protocol.Client.Ports.{
  Sockets, SocketAddr, TcpStream, Attempt, attempt, connected, skipped, aborted, count, port_at,
  try_ports, ok, err, io, no_local_port_available,
}
use lumberjack_protocol.Base.{
  refl, ℕ, ◌≤◌, IsU16, ◌≡◌, ◌<◌, ◌-◌, ◌+◌, ◌%◌, arith, ◌⊎◌, List, suc, [], append-nil, String, ◌∷◌,
  inl, All, ◌++◌, zero, add-zero, ◌∙◌, inr, append_assoc,
}
use lumberjack_protocol.Error.{Result}

pub add-suc_shift : (i k : ℕ) → i + 1 + k ≡ i + suc k
add-suc_shift i k = omega arith

pub count_lem : (start end : ℕ) → start ≤ end → IsU16 end → count start end ≡ end - start + 1
count_lem start end h k = omega arith

-- No sum wraps, and every port lies in the range.
pub port_at_lem :
    (start end offset i : ℕ)
    → start ≤ end
    → IsU16 end
    → offset < end - start + 1
    → i < end - start + 1
    → port_at start (end - start + 1) offset i ≡ start + (offset + i) % (end - start + 1)
port_at_lem start end offset i h k o j = grind arith

module _ (os : Sockets) (target : SocketAddr) (start total offset : ℕ) where
  -- The ports of `n` rounds, from round `i` on.
  abbrev pub ports : ℕ → ℕ → List ℕ
  ports i zero = []
  ports i (suc n) = port_at start total offset i ∷ ports (i + 1) n

  abbrev pub IsSkipped : ℕ → Type 0
  IsSkipped port = attempt os target port ≡ skipped

  -- How a search of `n` rounds ends: at the first port that is not skipped, or after the last one.
  pub data Search (i n : ℕ) (tried : List ℕ) (r : Result TcpStream × List ℕ) : Type 0 where
    found :
        (k : ℕ) (s : TcpStream)
        → k < n
        → All IsSkipped (ports i k)
        → attempt os target (port_at start total offset (i + k)) ≡ connected s
        → r ≡ (ok s, tried ++ ports i (suc k))
        → Search i n tried r
    stopped :
        (k : ℕ) (m : String)
        → k < n
        → All IsSkipped (ports i k)
        → attempt os target (port_at start total offset (i + k)) ≡ aborted m
        → r ≡ (err (io m), tried ++ ports i (suc k))
        → Search i n tried r
    exhausted :
        All IsSkipped (ports i n)
        → r ≡ (err no_local_port_available, tried ++ ports i n)
        → Search i n tried r

  Attempt-cases :
      (a : Attempt)
      → ((s : TcpStream) × (a ≡ connected s)) ⊎ ((m : String) × (a ≡ aborted m)) ⊎ (a ≡ skipped)
  Attempt-cases (connected s) = inl (s, refl)
  Attempt-cases (aborted m) = inr (inl (m, refl))
  Attempt-cases skipped = inr (inr refl)

  -- A round that skips its port, before the rest of the search.
  skip_first :
      (i n : ℕ) (tried : List ℕ) {r : Result TcpStream × List ℕ}
      → IsSkipped (port_at start total offset i)
      → Search (i + 1) n (tried ++ port_at start total offset i ∷ []) r
      → Search i (suc n) tried r
  skip_first i n tried skip (found k s h skips e same) =
      found (suc k) s (omega arith) (skip, skips) (rw (add-suc_shift i k) at e)
        (same ∙ rw append_assoc)
  skip_first i n tried skip (stopped k m h skips e same) =
      stopped (suc k) m (omega arith) (skip, skips) (rw (add-suc_shift i k) at e)
        (same ∙ rw append_assoc)
  skip_first i n tried skip (exhausted skips same) =
      exhausted (skip, skips) (same ∙ rw append_assoc)

  pub try_ports-Search :
      (n i : ℕ) (tried : List ℕ)
      → Search i n tried (try_ports os target start total offset n i tried)
  unfolding try_ports
  try_ports-Search zero i tried = exhausted tt (rw append-nil)
  try_ports-Search (suc n) i tried =
      elim (Attempt-cases (attempt os target (port_at start total offset i))) [
        | inl (s, e) ↦ found 0 s (omega arith) tt (rw add-zero e) (rw (e, try_ports))
        | inr (inl (m, e)) ↦ stopped 0 m (omega arith) tt (rw add-zero e) (rw (e, try_ports))
        | inr (inr e) ↦ skip_first i n tried e (
            rw (e, try_ports)
              (try_ports-Search n (i + 1) (tried ++ port_at start total offset i ∷ [])))
      ]
