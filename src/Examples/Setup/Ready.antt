-- ===== src/Examples/Setup/Ready.antt =====
-- src/examples/baseline.rs: what the set-up of `main` comes to.
use lumberjack_protocol.Examples.Args.{Args, SyntheticEvent, make_event}
use lumberjack_protocol.Examples.Setup.{
  repeated, event_bytes, load_settings, connect_clients, prepare, String, ℕ, List,
}
use lumberjack_protocol.Client.Connect.{Network, BoxedStream, plain, addresses, opened}
use lumberjack_protocol.Client.Connect.Outcome.{connect_plain}
use lumberjack_protocol.Client.Connect
use lumberjack_protocol.Client.Ports.{SocketAddr, TcpStream}
use lumberjack_protocol.Client.Send.{Client, Serialized, bytes}
use lumberjack_protocol.Server.Builder.{Platform, listens}
use lumberjack_protocol.Server.Accept.{new_hub}
use lumberjack_protocol.Server.Queue.{new_system}
use lumberjack_protocol.Server.Connection.{ConnectionConfig}
use lumberjack_protocol.Frame.{default_max_frame_size}
use lumberjack_protocol.Codec
use lumberjack_protocol.Error.{ok, panics}
use lumberjack_protocol.Base.{
  none, Bytes, ◌≡◌, some, [], ◌<◌, suc, true, ◌∷◌, zero, refl, length, arith,
}

-- The name leads to an address that can be connected to, which gives the stream.
pub record Reaches {C : Type 0} (net : Network C) (addr : String) (s : TcpStream) : Type 0 where
  pub target : SocketAddr
  pub others : List SocketAddr
  pub resolves : net.lookup_host addr ≡ addresses (target ∷ others)
  pub opens : net.tcp_connect target ≡ opened s

abbrev pub load_client : Client
load_client = record {
  codec = Codec.new;
  compression_level = 0;
  write_timeout = none;
  ack_timeout = some 30_000;
}

abbrev pub load_config : ConnectionConfig
load_config = record { max_frame_size = default_max_frame_size; keepalive = none }

abbrev pub clients_on : {C : Type 0} → (ℕ → TcpStream) → ℕ → ℕ → List (Client × BoxedStream C)
clients_on streams i zero = []
clients_on streams i (suc n) = (load_client, plain (streams i)) ∷ clients_on streams (suc i) n

connect-load_settings :
    {C : Type 0} (net : Network C) (addr : String) (s : TcpStream) (ports : List ℕ)
    → Reaches net addr s
    → Connect.connect net load_settings addr ports ≡ (ok (load_client, plain s), ports)
connect-load_settings net addr s ports r =
    connect_plain net load_settings addr ports r.target r.others s refl refl r.resolves r.opens

connect_clients-clients_on :
    {C : Type 0} (nets : ℕ → Network C) (addr : String) (streams : ℕ → TcpStream) (i n : ℕ)
    (ports : List ℕ)
    → ((j : ℕ) → Reaches (nets j) addr (streams j))
    → connect_clients nets addr i n ports ≡ (ok (clients_on streams i n), ports)
unfolding connect_clients
connect_clients-clients_on nets addr streams i zero ports reach = refl
connect_clients-clients_on nets addr streams i (suc n) ports reach =
    rw (connect-load_settings (nets i) addr (streams i) ports (reach i))
      (rw (connect_clients-clients_on nets addr streams (suc i) n ports reach) refl)

event_bytes-repeated :
    (to_vec : SyntheticEvent → Serialized) (ev : SyntheticEvent) (written : Bytes) (n : ℕ)
    → 0 < n
    → to_vec ev ≡ bytes written
    → event_bytes to_vec (repeated n ev) ≡ ok (length written)
event_bytes-repeated to_vec ev written zero positive writes = absurd (omega arith)
event_bytes-repeated to_vec ev written (suc n) positive writes = rw writes refl

module _ {A C : Type 0} (os : Platform) (nets : ℕ → Network C)
    (to_vec : SyntheticEvent → Serialized) where
  -- If serde_json writes the event, the system gives a listener and a channel, and its address can be
  -- connected to each time, then a program that is to send batches of one event or more has a batch
  -- of so many equal events and their size, a server without keepalives and with the default limit,
  -- and as many clients as it is to have, all of them without compression.
  pub prepare_lem :
      (args : Args) (addr : String) (written : Bytes) (streams : ℕ → TcpStream) (ports : List ℕ)
      → 0 < args.batch
      → to_vec (make_event args.event_size) ≡ bytes written
      → os.listen "127.0.0.1:0" ≡ listens addr
      → os.is_capacity 2048 ≡ true
      → ((i : ℕ) → Reaches (nets i) addr (streams i))
      → prepare {A = A} os nets to_vec args ports ≡ (
        ok (record {
          batch = repeated args.batch (make_event args.event_size);
          serialized_event_bytes = length written;
          server = record {
            local_addr = addr;
            cfg = load_config;
            acceptor = none;
            hub = new_hub;
            system = new_system 2048;
          };
          clients = clients_on streams 0 args.clients;
        }),
        ports,
      )
  unfolding prepare
  prepare_lem args addr written streams ports positive writes listen capacity reach =
      let batch = make_event args.event_size in
      rw (event_bytes-repeated to_vec batch written args.batch positive writes) (
        rw listen (
          rw capacity
            (rw (connect_clients-clients_on nets addr streams 0 args.clients ports reach) refl)))

  -- Without events in a batch there is no first one, and `main` panics.
  pub prepare_empty :
      (args : Args) (ports : List ℕ)
      → args.batch ≡ 0
      → prepare {A = A} os nets to_vec args ports ≡ (panics, ports)
  unfolding prepare
  prepare_empty args ports none_at_all = rw none_at_all refl
