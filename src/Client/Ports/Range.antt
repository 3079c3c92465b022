-- ===== src/Client/Ports/Range.antt =====
-- src/client.rs: `connect_with_port_range` keeps to its range, and goes through all of it.
use lumberjack_protocol.Client.Ports.{
  Sockets, SocketAddr, v4, v6, TcpStream, Connected, stream, refused, addr_in_use,
  addr_not_available, other, aborted, answer, new_socket, attempt, connected, skipped, port_at,
  connect_with_port_range, err, no_local_port_available,
}
use lumberjack_protocol.Client.Ports.Search.{
  Search, ports, found, stopped, exhausted, try_ports-Search, port_at_lem, count_lem, add-suc_shift,
}
use lumberjack_protocol.Base.{
  ℕ, ◌≤◌, ◌<◌, ◌-◌, ◌+◌, IsU16, arith, ◌%◌, ◌≡◌, ◌∙◌, lt_or_le, mod-eq_of_lt, ap, inl, inr, All,
  List, suc, add-zero, ◌↔◌, subst, zero, zero-add, Option, true, String, Bool, some, if◌then◌else◌,
  not, none, false, refl,
}
use lumberjack_protocol.Error.{Result, Ensures}

-- The round that comes to the port `p`.
abbrev round_of : ℕ → ℕ → ℕ → ℕ → ℕ
round_of start total offset p = (p - start + total - offset) % total

round_of-lt : (start total offset p : ℕ) → 0 < total → round_of start total offset p < total
round_of-lt start total offset p h = omega arith

mod_wrap : (x n : ℕ) → x < n → (x + n) % n ≡ x
mod_wrap x n h = grind arith

around_far :
    (q total offset : ℕ)
    → q < total
    → offset < total
    → q < offset
    → (offset + (q + total - offset) % total) % total ≡ q
around_far q total offset h k few =
    rw (mod-eq_of_lt {n = q + total - offset} {m = total} (omega arith))
      (ap (λ (x : ℕ). x % total) (back q total offset k) ∙ mod_wrap q total h)
  where
    back : (q total offset : ℕ) → offset < total → offset + (q + total - offset) ≡ q + total
    back q total offset k = omega arith

around_near :
    (q total offset : ℕ)
    → q < total
    → offset < total
    → offset ≤ q
    → (offset + (q + total - offset) % total) % total ≡ q
around_near q total offset h k enough =
    ap (λ (x : ℕ). (offset + x % total) % total) (regroup q total offset enough)
    ∙ ap (λ (x : ℕ). (offset + x) % total) (mod_wrap (q - offset) total (omega arith))
    ∙ ap (λ (x : ℕ). x % total) (whole q offset enough)
    ∙ mod-eq_of_lt h
  where
    regroup : (q total offset : ℕ) → offset ≤ q → q + total - offset ≡ (q - offset) + total
    regroup q total offset h = omega arith

    whole : (q offset : ℕ) → offset ≤ q → offset + (q - offset) ≡ q
    whole q offset h = omega arith

-- Going round a circle of `total` places.
around :
    (q total offset : ℕ)
    → q < total
    → offset < total
    → (offset + (q + total - offset) % total) % total ≡ q
around q total offset h k = elim (lt_or_le q offset) [
  | inl few ↦ around_far q total offset h k few
  | inr enough ↦ around_near q total offset h k enough
]

module _ (start end offset : ℕ) (ordered : start ≤ end) (is_u16 : IsU16 end)
    (below : offset < end - start + 1) where
  abbrev total : ℕ
  total = end - start + 1

  port_at-range :
      (i : ℕ)
      → i < total
      → (start ≤ port_at start total offset i) × (port_at start total offset i ≤ end)
  port_at-range i h =
      let same = port_at_lem start end offset i ordered is_u16 below h in
      let small : (offset + i) % total < total = omega arith in (omega arith, omega arith)

  port_at-round_of :
      (p : ℕ) → start ≤ p → p ≤ end → port_at start total offset (round_of start total offset p) ≡ p
  port_at-round_of p lo hi =
      let i = round_of start total offset p in
      port_at_lem start end offset i ordered is_u16 below
        (round_of-lt start total offset p (omega arith))
      ∙ ap (λ (q : ℕ). start + q) (around (p - start) total offset (omega arith) below)
      ∙ omega arith

-- The documented range of the random number.
abbrev pub IsRandom : (ℕ → ℕ) → Type 0
IsRandom gen_range = (n : ℕ) → 0 < n → gen_range n < n

-- The stream goes from this port of any local address to the target.
abbrev pub IsFrom : Sockets → SocketAddr → ℕ → TcpStream → Type 0
IsFrom os (v4 ip p) port s =
    (os.bind (v4 "0.0.0.0" port) ≡ true) × (os.connect (v4 "0.0.0.0" port) (v4 ip p) ≡ stream s)
IsFrom os (v6 ip p) port s =
    (os.bind (v6 "::" port) ≡ true) × (os.connect (v6 "::" port) (v6 ip p) ≡ stream s)

-- An attempt that succeeds.
won :
    (o : Option String) (b : Bool) (r : Connected) (s : TcpStream)
    → elim o [ some m ↦ aborted m | none ↦ if not b then skipped else answer r ] ≡ connected s
    → (b ≡ true) × (r ≡ stream s)
unfolding answer
won (some m) b r s e = absurd cc
won none false r s e = absurd cc
won none true (stream t) s e = (refl, cc)
won none true (refused addr_in_use m) s e = absurd cc
won none true (refused addr_not_available m) s e = absurd cc
won none true (refused other m) s e = absurd cc

attempt-IsFrom :
    (os : Sockets) (target : SocketAddr) (port : ℕ) (s : TcpStream)
    → attempt os target port ≡ connected s
    → IsFrom os target port s
unfolding attempt new_socket
attempt-IsFrom os (v4 ip p) port s e = won (os.new_v4 port) _ _ s e
attempt-IsFrom os (v6 ip p) port s e = won (os.new_v6 port) _ _ s e

-- The stream comes from a port of the range.
abbrev pub IsFromRange : Sockets → SocketAddr → ℕ → ℕ → TcpStream → Type 0
IsFromRange os target start end s =
    (port : ℕ) × (start ≤ port) × (port ≤ end) × IsFrom os target port s

module _ (gen_range : ℕ → ℕ) (os : Sockets) (target : SocketAddr) (start end : ℕ) where
  abbrev offset : ℕ
  offset = gen_range (end - start + 1)

  All-ports :
      (P : ℕ → Type 0) (total i n j : ℕ)
      → All P (ports os target start total offset i n)
      → j < n
      → P (port_at start total offset (i + j))
  All-ports P total i zero j h k = absurd (omega arith)
  All-ports P total i (suc n) zero h k = rw add-zero h.0
  All-ports P total i (suc n) (suc j) h k =
      rw (← add-suc_shift i j) (All-ports P total (i + 1) n j h.1 (omega arith))

  connect-Search :
      (tried : List ℕ)
      → start ≤ end
      → IsU16 end
      → Search os target start
          (end - start + 1)
          offset
          0
          (end - start + 1)
          tried
          (connect_with_port_range gen_range os target start end tried)
  unfolding connect_with_port_range
  connect-Search tried ordered is_u16 =
      rw (count_lem start end ordered is_u16)
        (try_ports-Search os target start (end - start + 1) offset (end - start + 1) 0 tried)

  module _ (tried : List ℕ) (ordered : start ≤ end) (is_u16 : IsU16 end)
      (random : IsRandom gen_range) where
    in_range :
        (i : ℕ)
        → i < end - start + 1
        → (start ≤ port_at start (end - start + 1) offset i)
          × (port_at start (end - start + 1) offset i ≤ end)
    in_range = port_at-range start end offset ordered is_u16 (random _ (omega arith))

    gave_up :
        {r : Result TcpStream × List ℕ}
        → Search os target start (end - start + 1) offset 0 (end - start + 1) tried r
        → r.0 ≡ err no_local_port_available
        → (port : ℕ) → start ≤ port
        → port ≤ end
        → attempt os target port ≡ skipped
    gave_up (found k s h skips e same) h' port lo hi = cc
    gave_up (stopped k m h skips e same) h' port lo hi = cc
    gave_up (exhausted skips same) h' port lo hi =
        let total = end - start + 1 in
        let i = round_of start total offset port in
        subst (λ p. attempt os target p ≡ skipped)
          (port_at-round_of start end offset ordered is_u16 (random _ (omega arith)) port lo hi)
          (rw zero-add at (
            All-ports (λ p. attempt os target p ≡ skipped) total 0 total i skips
              (round_of-lt start total offset port (omega arith))))

    all_skipped :
        {r : Result TcpStream × List ℕ}
        → Search os target start (end - start + 1) offset 0 (end - start + 1) tried r
        → ((port : ℕ) → start ≤ port → port ≤ end → attempt os target port ≡ skipped)
        → r.0 ≡ err no_local_port_available
    all_skipped (found k s h skips e same) skip =
        let (lo, hi) = in_range (0 + k) (omega arith) in cc (skip _ lo hi)
    all_skipped (stopped k m h skips e same) skip =
        let (lo, hi) = in_range (0 + k) (omega arith) in cc (skip _ lo hi)
    all_skipped (exhausted skips same) skip = ap (λ (x : Result TcpStream × List ℕ). x.0) same

    -- For a range of ports from `start` to `end`, with random numbers in their range:
    -- `connect_with_port_range` gives up with `no_local_port_available` exactly when an attempt at
    -- any port of the range would pass it over.
    pub connect_exhausted :
        ((connect_with_port_range gen_range os target start end tried).0
          ≡ err no_local_port_available)
        ↔ ((port : ℕ) → start ≤ port → port ≤ end → attempt os target port ≡ skipped)
    connect_exhausted = (
      λ h. gave_up (connect-Search tried ordered is_u16) h,
      λ skip. all_skipped (connect-Search tried ordered is_u16) skip,
    )

    ensured :
        {r : Result TcpStream × List ℕ}
        → Search os target start (end - start + 1) offset 0 (end - start + 1) tried r
        → Ensures (IsFromRange os target start end) r.0
    ensured (found k s h skips e same) =
        let (lo, hi) = in_range (0 + k) (omega arith) in
        rw same ((_, lo, hi, attempt-IsFrom os target _ s e))
    ensured (stopped k m h skips e same) = rw same tt
    ensured (exhausted skips same) = rw same tt

    pub connect-Ensures :
        Ensures
          (IsFromRange os target start end)
          (connect_with_port_range gen_range os target start end tried).0
    connect-Ensures = ensured (connect-Search tried ordered is_u16)
