-- ===== src/Client/Connect/Outcome.antt =====
-- src/client.rs: what `connect` comes to.
use lumberjack_protocol.Client.Connect.{
  ClientBuilder, BoxedStream, Network, check_range, first_address, stream_of, open_stream, secure,
  connect, SocketAddr, Option, String, Opened, Resolved, List, TcpStream, unresolved, ℕ, opened, ok,
  unopened, addresses, err, invalid_config, io, secured, plain,
}
use lumberjack_protocol.Client.Ports.Range.{IsFromRange, IsRandom, connect-Ensures}
use lumberjack_protocol.Client.Send.{Client}
use lumberjack_protocol.Error.{Ensures, Ensures-bind}
use lumberjack_protocol.Codec
use lumberjack_protocol.Base.{
  ◌≡◌, some, ◌∷◌, none, ◌≤◌, IsU16, ◌<◌, [], refl, lt→ltb, arith, Bool, if◌then◌else◌, not, false,
  true,
}

-- The first address that the name resolves to.
abbrev pub IsTarget : Resolved → SocketAddr → Type 0
IsTarget r target = (more : List SocketAddr) × (r ≡ addresses (target ∷ more))

first_address-Ensures : (r : Resolved) → Ensures (IsTarget r) (first_address r)
unfolding first_address
first_address-Ensures (unresolved m) = tt
first_address-Ensures (addresses []) = tt
first_address-Ensures (addresses (target ∷ more)) = (more, refl)

stream_of-Ensures : (o : Opened) → Ensures (λ s. o ≡ opened s) (stream_of o)
unfolding stream_of
stream_of-Ensures (opened s) = refl
stream_of-Ensures (unopened m) = tt

module _ {C : Type 0} (net : Network C) where
  -- The stream that is opened: from a port of the range if there is one.
  abbrev pub IsOpened : Option (ℕ × ℕ) → SocketAddr → TcpStream → Type 0
  IsOpened none target s = net.tcp_connect target ≡ opened s
  IsOpened (some (start, end)) target s = IsFromRange net.sockets target start end s

  abbrev pub IsPortRange : Option (ℕ × ℕ) → Type 0
  IsPortRange none = Unit
  IsPortRange (some (start, end)) = IsU16 end

  -- A range that passes the check.
  abbrev pub IsOrdered : Option (ℕ × ℕ) → Type 0
  IsOrdered none = Unit
  IsOrdered (some (start, end)) = start ≤ end

  -- With TLS, the name of the server is one, and the handshake with it succeeds.
  abbrev pub IsBoxed : Option (C × String) → TcpStream → BoxedStream C → Type 0
  IsBoxed none s boxed = boxed ≡ plain s
  IsBoxed (some (connector, domain)) s boxed =
      (net.is_server_name domain ≡ true)
      × (net.handshake connector domain s ≡ none)
      × (boxed ≡ secured connector domain s)

  -- What a client that `connect` returns is made of.
  abbrev pub IsConnected : ClientBuilder C → String → Client × BoxedStream C → Type 0
  IsConnected b addr (client, boxed) =
      (target : SocketAddr) × (s : TcpStream) × IsTarget (net.lookup_host addr) target
      × IsOrdered b.local_port_range
      × IsOpened b.local_port_range target s
      × IsBoxed b.tls s boxed
      × (client.codec ≡ Codec.default)
      × (client.compression_level ≡ b.compression_level)
      × (client.write_timeout ≡ b.write_timeout)
      × (client.ack_timeout ≡ b.ack_timeout)

  check_range-Ensures : (r : Option (ℕ × ℕ)) → Ensures (λ _. IsOrdered r) (check_range r)
  unfolding check_range
  check_range-Ensures none = tt
  check_range-Ensures (some (start, end)) = ground arith

  secure-Ensures :
      (t : Option (C × String)) (s : TcpStream) → Ensures (IsBoxed t s) (secure net t s)
  unfolding secure
  secure-Ensures none s = refl
  secure-Ensures (some (connector, domain)) s =
      named (net.is_server_name domain) (net.handshake connector domain s) refl refl
    where
      named :
          (b : Bool) (o : Option String)
          → net.is_server_name domain ≡ b
          → net.handshake connector domain s ≡ o
          → Ensures (IsBoxed (some (connector, domain)) s) (
              if not b
              then err (invalid_config "invalid TLS server name")
              else elim o [ some m ↦ err (io m) | none ↦ ok (secured connector domain s) ])
      named false o e e' = tt
      named true none e e' = (e, e', refl)
      named true (some m) e e' = tt

  open_stream-Ensures :
      (target : SocketAddr) (r : Option (ℕ × ℕ)) (log : List ℕ)
      → IsRandom net.gen_range
      → IsPortRange r
      → IsOrdered r
      → Ensures (IsOpened r target) (open_stream net target r log).0
  unfolding open_stream
  open_stream-Ensures target none log random is_u16 ordered =
      stream_of-Ensures (net.tcp_connect target)
  open_stream-Ensures target (some (start, end)) log random is_u16 ordered =
      connect-Ensures net.gen_range net.sockets target start end log ordered is_u16 random

  -- With random numbers in their range and ports of 16 bits: `connect` comes to an end, and a
  -- client that it returns has the settings of the builder and the default limit of a frame, on a
  -- stream that was opened to the first address of the name; if the builder has a range of ports,
  -- it does not end before it starts, and the stream goes from the unspecified address of the
  -- target's kind and a port of that range; and if it asks for TLS, the server name is valid and
  -- the stream is secured by a handshake that succeeded, and else it is plain.
  pub connect-IsConnected :
      (b : ClientBuilder C) (addr : String) (log : List ℕ)
      → IsRandom net.gen_range
      → IsPortRange b.local_port_range
      → Ensures (IsConnected b addr) (connect net b addr log).0
  unfolding connect
  connect-IsConnected b addr log random is_u16 =
      Ensures-bind _ (check_range b.local_port_range) log _ (check_range-Ensures b.local_port_range)
        λ _ ordered.
          Ensures-bind _ (first_address (net.lookup_host addr)) log _
            (first_address-Ensures (net.lookup_host addr))
            λ target named.
              Ensures-bind _ (open_stream net target b.local_port_range log).0
                (open_stream net target b.local_port_range log).1 _
                (open_stream-Ensures target b.local_port_range log random is_u16 ordered)
                λ s opens.
                  Ensures-bind _ (secure net b.tls s)
                    (open_stream net target b.local_port_range log).1 _ (secure-Ensures b.tls s)
                    λ boxed safe. (target, s, named, ordered, opens, safe, refl, refl, refl, refl)

  -- A range that ends before it starts is refused first of all.
  connect_invalid_range :
      (b : ClientBuilder C) (addr : String) (log : List ℕ) (start end : ℕ)
      → b.local_port_range ≡ some (start, end)
      → end < start
      → connect net b addr log ≡ (err (invalid_config "local_port_range start > end"), log)
  unfolding connect check_range
  connect_invalid_range b addr log start end e h = cc (lt→ltb end start h)

  -- Without a range of ports and without TLS, to a name that leads to an address that can be
  -- connected to.
  pub connect_plain :
      (b : ClientBuilder C) (addr : String) (log : List ℕ) (target : SocketAddr)
      (others : List SocketAddr) (s : TcpStream)
      → b.local_port_range ≡ none
      → b.tls ≡ none
      → net.lookup_host addr ≡ addresses (target ∷ others)
      → net.tcp_connect target ≡ opened s
      → connect net b addr log ≡ (
        ok (
          record {
            codec = Codec.new;
            compression_level = b.compression_level;
            write_timeout = b.write_timeout;
            ack_timeout = b.ack_timeout;
          },
          plain s,
        ),
        log,
      )
  unfolding connect check_range first_address open_stream stream_of secure
  connect_plain b addr log target others s no_range no_tls resolves opens =
      rw (no_range, no_tls, resolves) (rw opens refl)
