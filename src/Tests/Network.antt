-- ===== src/Tests/Network.antt =====
-- The theorems on `connect` and `connect_with_port_range` of src/client.rs and on src/tls.rs at
-- concrete inputs.
use lumberjack_protocol.Client.Ports.{
  SocketAddr, v4, Sockets, stream, attempt, skipped, connect_with_port_range, v6,
}
use lumberjack_protocol.Client.Ports.Range.{connect_exhausted}
use lumberjack_protocol.Client.Connect.{
  Network, ClientBuilder, connect, addresses, opened, default, with_local_port_range, with_tls,
}
use lumberjack_protocol.Client.Connect.Outcome.{IsConnected, connect-IsConnected}
use lumberjack_protocol.Tls
use lumberjack_protocol.Tls.{server_acceptor_from_pem-IsAcceptor}
use lumberjack_protocol.Error.{Ensures, err, no_local_port_available}
use lumberjack_protocol.Base.{
  arith, [], ℕ, none, Bool, ◌∷◌, ◌==◌, true, ◌≡◌, false, ◌↔◌, ◌≤◌, List, map,
}

abbrev target : SocketAddr
target = v4 "10.0.0.1" 5044

-- Port 7001 can be bound and no other.
abbrev is_free : SocketAddr → Bool
is_free (v4 ip port) = port == 7001
is_free (v6 ip port) = false

abbrev os : Sockets
os = record {
  new_v4 = λ port. none;
  new_v6 = λ port. none;
  bind = is_free;
  connect = λ local peer. stream (record { local = local; peer = peer });
}

abbrev zero_first : ℕ → ℕ
zero_first n = 0

abbrev net : Network (Unit {0})
net = record {
  lookup_host = λ name. addresses (target ∷ []);
  tcp_connect = λ peer. opened (record { local = v4 "10.0.0.2" 40000; peer = peer });
  sockets = os;
  gen_range = zero_first;
  is_server_name = λ name. true;
  handshake = λ connector name s. none;
}

abbrev builder : ClientBuilder (Unit {0})
builder = with_tls tt "logs" (with_local_port_range 7000 7002 default)

connect_exhausted_example :
    ((connect_with_port_range zero_first os target 7000 7002 []).0 ≡ err no_local_port_available)
    ↔ ((port : ℕ) → 7000 ≤ port → port ≤ 7002 → attempt os target port ≡ skipped)
connect_exhausted_example =
    connect_exhausted zero_first os target 7000 7002 [] (omega arith) (omega arith) (λ n h. h)

connect-IsConnected_example :
    Ensures (IsConnected net builder "logs:5044") (connect net builder "logs:5044" []).0
connect-IsConnected_example =
    connect-IsConnected net builder "logs:5044" [] (λ n h. h) (omega arith)

-- Two certificates in each file, and one key.
abbrev store : Tls.Platform ℕ ℕ (List ℕ)
store = record {
  read = λ path. Tls.contents (1 ∷ 2 ∷ []);
  certs = λ pem. map Tls.cert pem;
  private_key = λ pem. Tls.found 7;
  with_single_cert = λ certs key. Tls.built (key ∷ certs);
}

server_acceptor_from_pem-IsAcceptor_example :
    Ensures
      (Tls.IsAcceptor store "cert.pem" "key.pem")
      (Tls.server_acceptor_from_pem store "cert.pem" "key.pem" tt).0
server_acceptor_from_pem-IsAcceptor_example =
    server_acceptor_from_pem-IsAcceptor store "cert.pem" "key.pem"
