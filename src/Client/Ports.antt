-- ===== src/Client/Ports.antt =====
-- src/client.rs: `connect_with_port_range`. The sockets of the operating system and the random
-- number are parameters. Arithmetic is that of a release build: it wraps.
pub mod Search
pub mod Range
use lumberjack_protocol.Base.{
  refl, ℕ, String, as_u16, Option, some, as_u32, if◌then◌else◌, List, Bool, ◌+◌, not, ◌%◌, ◌^◌, ◌-◌,
  none, suc, ◌++◌, ◌∷◌, [], zero,
}
use lumberjack_protocol.Error.{M, err, no_local_port_available, ok, io}

-- An IP address, as text, and a port.
pub data SocketAddr : Type 0 where
  v4 : String → ℕ → SocketAddr
  v6 : String → ℕ → SocketAddr

pub data ErrorKind : Type 0 where
  addr_in_use addr_not_available other : ErrorKind

-- A stream is known by its two ends.
pub record TcpStream : Type 0 where
  pub local : SocketAddr
  pub peer : SocketAddr

pub data Connected : Type 0 where
  stream : TcpStream → Connected
  refused : ErrorKind → String → Connected

-- The operating system: the error of `TcpSocket::new_v4` and `new_v6` if there is one, whether
-- `bind` succeeds, and what `connect` gives, for a socket that is bound to this address.
pub record Sockets : Type 0 where
  pub new_v4 : ℕ → Option String
  pub new_v6 : ℕ → Option String
  pub bind : SocketAddr → Bool
  pub connect : SocketAddr → SocketAddr → Connected

unfoldable pub new_socket : Sockets → SocketAddr → ℕ → Option String
new_socket os (v4 ip p) port = os.new_v4 port
new_socket os (v6 ip p) port = os.new_v6 port

-- `format!("0.0.0.0:{port}")` and `format!("[::]:{port}")`, parsed
abbrev pub bind_addr : SocketAddr → ℕ → SocketAddr
bind_addr (v4 ip p) port = v4 "0.0.0.0" port
bind_addr (v6 ip p) port = v6 "::" port

-- How a round of the loop ends.
pub data Attempt : Type 0 where
  connected : TcpStream → Attempt
  skipped : Attempt
  aborted : String → Attempt

unfoldable pub answer : Connected → Attempt
answer (stream s) = connected s
answer (refused addr_in_use m) = skipped
answer (refused addr_not_available m) = skipped
answer (refused other m) = aborted m

-- The body of the loop, with the port that it computed.
unfoldable pub attempt : Sockets → SocketAddr → ℕ → Attempt
unfolding answer new_socket
attempt os target port = elim (new_socket os target port) [
  | some m ↦ aborted m
  | none ↦
      if not (os.bind (bind_addr target port))
      then skipped
      else answer (os.connect (bind_addr target port) target)
]

-- `(end - start) as u32 + 1`
abbrev pub count : ℕ → ℕ → ℕ
count start end = as_u32 ((end + 2 ^ 16 - start) % 2 ^ 16 + 1)

-- `start + ((offset + i) % count) as u16`
abbrev pub port_at : ℕ → ℕ → ℕ → ℕ → ℕ
port_at start total offset i = as_u16 (start + as_u16 (as_u32 (offset + i) % total))

-- `for i in 0..count`, with `n` rounds left; the state is the list of the ports tried so far.
unfoldable pub try_ports : Sockets → SocketAddr → ℕ → ℕ → ℕ → ℕ → ℕ → M (List ℕ) TcpStream
try_ports os target start total offset zero i tried = (err no_local_port_available, tried)
try_ports os target start total offset (suc n) i tried =
    let port = port_at start total offset i in
    elim (attempt os target port) [
      | connected s ↦ (ok s, tried ++ port ∷ [])
      | skipped ↦ try_ports os target start total offset n (i + 1) (tried ++ port ∷ [])
      | aborted m ↦ (err (io m), tried ++ port ∷ [])
    ]

-- `gen_range n` is `rand::thread_rng().gen_range(0..n)`.
unfoldable pub connect_with_port_range :
    (gen_range : ℕ → ℕ) → Sockets → SocketAddr → ℕ → ℕ → M (List ℕ) TcpStream
unfolding try_ports
connect_with_port_range gen_range os target start end =
    let total = count start end in try_ports os target start total (gen_range total) total 0
