-- ===== src/Client/Connect.antt =====
-- src/client.rs: `ClientBuilder` and `connect`.
pub mod Outcome
mod UnitTests
use lumberjack_protocol.Client.Send.{Client}
use lumberjack_protocol.Client.Ports.{Sockets, SocketAddr, TcpStream, connect_with_port_range}
use lumberjack_protocol.Codec
use lumberjack_protocol.Base.{
  refl, none, String, Option, List, ℕ, Bool, some, if◌then◌else◌, not, ltb, ◌∷◌, [],
}
use lumberjack_protocol.Error.{Result, ok, err, M, io, lift, ◌>>=◌, return, invalid_config}

-- `C` is the type of `tokio_rustls::TlsConnector`; with one goes the name of the server.
pub record ClientBuilder (C : Type 0) : Type 0 where
  pub compression_level : ℕ
  pub write_timeout : Option ℕ
  pub ack_timeout : Option ℕ
  pub local_port_range : Option (ℕ × ℕ)
  pub tls : Option (C × String)

-- A stream, as it is boxed.
pub data BoxedStream (C : Type 0) : Type 0 where
  plain : TcpStream → BoxedStream C
  secured : C → String → TcpStream → BoxedStream C

-- What `connect` calls: name resolution, which gives an error or some addresses, sockets, the
-- random numbers, and TLS. An `Option String` is an error if there is one.
pub data Resolved : Type 0 where
  addresses : List SocketAddr → Resolved
  unresolved : String → Resolved

pub data Opened : Type 0 where
  opened : TcpStream → Opened
  unopened : String → Opened

pub record Network (C : Type 0) : Type 0 where
  pub lookup_host : String → Resolved
  pub tcp_connect : SocketAddr → Opened
  pub sockets : Sockets
  pub gen_range : ℕ → ℕ
  pub is_server_name : String → Bool
  pub handshake : C → String → TcpStream → Option String

check_range : Option (ℕ × ℕ) → Result (Unit {0})
check_range none = ok tt
check_range (some (start, end)) =
    if ltb end start then err (invalid_config "local_port_range start > end") else ok tt

first_address : Resolved → Result SocketAddr
first_address (unresolved m) = err (io m)
first_address (addresses []) = err (invalid_config "no addresses resolved")
first_address (addresses (target ∷ more)) = ok target

pub stream_of : Opened → Result TcpStream
stream_of (opened s) = ok s
stream_of (unopened m) = err (io m)

module _ {C : Type 0} where
  -- `Default::default()`
  abbrev pub default : ClientBuilder C
  default = record {
    compression_level = 3;
    write_timeout = none;
    ack_timeout = some 30_000;
    local_port_range = none;
    tls = none;
  }

  -- The builder's methods, which have the names of the fields.
  abbrev pub with_compression_level : ℕ → ClientBuilder C → ClientBuilder C
  with_compression_level level b = record b { compression_level = level }

  abbrev pub with_write_timeout : ℕ → ClientBuilder C → ClientBuilder C
  with_write_timeout d b = record b { write_timeout = some d }

  abbrev pub with_ack_timeout : ℕ → ClientBuilder C → ClientBuilder C
  with_ack_timeout d b = record b { ack_timeout = some d }

  abbrev pub with_local_port_range : ℕ → ℕ → ClientBuilder C → ClientBuilder C
  with_local_port_range start end b = record b { local_port_range = some (start, end) }

  abbrev pub with_tls : C → String → ClientBuilder C → ClientBuilder C
  with_tls connector domain b = record b { tls = some (connector, domain) }

  module _ (net : Network C) where
    open_stream : SocketAddr → Option (ℕ × ℕ) → M (List ℕ) TcpStream
    open_stream target none = lift (stream_of (net.tcp_connect target))
    open_stream target (some (start, end)) =
        connect_with_port_range net.gen_range net.sockets target start end

    pub secure : Option (C × String) → TcpStream → Result (BoxedStream C)
    secure none s = ok (plain s)
    secure (some (connector, domain)) s =
        if not (net.is_server_name domain)
        then err (invalid_config "invalid TLS server name")
        else elim (net.handshake connector domain s) [
          | some m ↦ err (io m)
          | none ↦ ok (secured connector domain s)
        ]

    -- The state is the list of the local ports tried.
    pub connect : ClientBuilder C → String → M (List ℕ) (Client × BoxedStream C)
    unfolding check_range first_address stream_of open_stream secure
    connect b addr = do
      _ ← lift (check_range b.local_port_range)
      target ← lift (first_address (net.lookup_host addr))
      s ← open_stream target b.local_port_range
      boxed ← lift (secure b.tls s)
      let client : Client = record {
        codec = Codec.new;
        compression_level = b.compression_level;
        write_timeout = b.write_timeout;
        ack_timeout = b.ack_timeout;
      }
      return (client, boxed)

    -- `Client::connect`
    pub connect_default : String → M (List ℕ) (Client × BoxedStream C)
    unfolding connect
    connect_default addr = connect default addr
