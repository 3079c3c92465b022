-- ===== src/Client/Connect/UnitTests.antt =====
-- The unit tests of src/client.rs on ranges of ports: what each of them asserts, as a statement on
-- the model.
use lumberjack_protocol.Client.Connect.{
  Network, BoxedStream, plain, addresses, opened, default, with_local_port_range, connect,
  open_stream,
}
use lumberjack_protocol.Client.Send.{Client}
use lumberjack_protocol.Client.Ports.{
  SocketAddr, v4, v6, stream, connect_with_port_range, try_ports, attempt, answer, new_socket,
}
use lumberjack_protocol.Codec
use lumberjack_protocol.Error.{Result, ok, no_local_port_available}
use lumberjack_protocol.Error.{err, invalid_config}
use lumberjack_protocol.Base.{refl, [], ◌≡◌, not, true, ℕ, ◌==◌, none, Bool, ◌∷◌, some}

-- Whatever the network does, which is not asked for anything.
abbrev InvalidPortRangeErrors : {C : Type 0} → Network C → Type 0
InvalidPortRangeErrors {C} net =
    connect net (with_local_port_range 50_000 49_000 default) "127.0.0.1:1" []
    ≡ (err (invalid_config "local_port_range start > end"), [])

invalid_port_range_errors : {C : Type 0} (net : Network C) → InvalidPortRangeErrors net
unfolding connect
invalid_port_range_errors net = refl

abbrev listener : SocketAddr
listener = v4 "127.0.0.1" 5044

-- A network on one machine with a listener, on which a socket can be bound to some ports, and the
-- random number is `offset`.
abbrev loopback : (ℕ → Bool) → ℕ → Network (Unit {0})
loopback is_free offset = record {
  lookup_host = λ name. addresses (listener ∷ []);
  tcp_connect = λ target. opened (record { local = v4 "127.0.0.1" 60_000; peer = target });
  sockets = record {
    new_v4 = λ port. none;
    new_v6 = λ port. none;
    bind = λ local. elim local [ v4 ip port ↦ is_free port | v6 ip port ↦ is_free port ];
    connect = λ local target. stream (record { local = local; peer = target });
  };
  gen_range = λ n. offset;
  is_server_name = λ name. true;
  handshake = λ connector name s. none;
}

-- What `connect` gives for this range of ports.
abbrev connected_from : (ℕ → Bool) → ℕ → (start end : ℕ) → Result (Client × BoxedStream (Unit {0}))
connected_from is_free offset start end =
    (connect (loopback is_free offset) (with_local_port_range start end default) "localhost:5044"
      []).0

-- The client of the tests, on a stream from this port.
abbrev client_from : ℕ → Result (Client × BoxedStream (Unit {0}))
client_from port = ok (
  record {
    codec = Codec.new;
    compression_level = 3;
    write_timeout = none;
    ack_timeout = some 30_000;
  },
  plain (record { local = v4 "0.0.0.0" port; peer = listener }),
)

abbrev LocalPortRangeUsesPortWithinRange : Type 0
LocalPortRangeUsesPortWithinRange =
    connected_from (λ port. true) 0 45_000 45_000 ≡ client_from 45_000

local_port_range_uses_port_within_range : LocalPortRangeUsesPortWithinRange
unfolding connect open_stream connect_with_port_range try_ports attempt answer new_socket
local_port_range_uses_port_within_range = refl

-- Whichever port is busy, and whichever the search begins with.
abbrev LocalPortRangeSkipsBusyPort : Type 0
LocalPortRangeSkipsBusyPort =
    (connected_from (λ port. not (port == 45_300)) 0 45_300 45_301 ≡ client_from 45_301)
    × (connected_from (λ port. not (port == 45_300)) 1 45_300 45_301 ≡ client_from 45_301)
    × (connected_from (λ port. not (port == 45_301)) 0 45_300 45_301 ≡ client_from 45_300)
    × (connected_from (λ port. not (port == 45_301)) 1 45_300 45_301 ≡ client_from 45_300)

local_port_range_skips_busy_port : LocalPortRangeSkipsBusyPort
unfolding connect open_stream connect_with_port_range try_ports attempt answer new_socket
local_port_range_skips_busy_port = (refl, refl, refl, refl)

abbrev LocalPortRangeExhaustedErrors : Type 0
LocalPortRangeExhaustedErrors =
    connected_from (λ port. not (port == 45_400)) 0 45_400 45_400 ≡ err no_local_port_available

local_port_range_exhausted_errors : LocalPortRangeExhaustedErrors
unfolding connect open_stream connect_with_port_range try_ports attempt answer new_socket
local_port_range_exhausted_errors = refl
