-- ===== src/Server/Builder.antt =====
-- src/server.rs: `ServerBuilder`, and what `bind` makes before it spawns the accept loop.
use lumberjack_protocol.Server.Connection.{ConnectionConfig}
use lumberjack_protocol.Server.Accept.{Hub, new_hub}
use lumberjack_protocol.Server.Queue.{System, new_system}
use lumberjack_protocol.Frame.{default_max_frame_size}
use lumberjack_protocol.Error.{◌>>=◌, Result, M, err, io, ok, panics, lift, return}
use lumberjack_protocol.Base.{none, ℕ, Option, String, some, if◌then◌else◌, Bool}

-- `A` is the type of `tokio_rustls::TlsAcceptor`.
pub record ServerBuilder (A : Type 0) : Type 0 where
  pub keepalive : Option ℕ
  pub channel_capacity : ℕ
  pub max_frame_size : ℕ
  pub tls : Option A

-- What `TcpListener::bind` and `local_addr` give: the first fails, the second fails, or there is
-- a listener, at this address.
pub data Listener : Type 0 where
  unbound : String → Listener
  nameless : String → Listener
  listens : String → Listener

-- The operating system, and the capacities for which `mpsc::channel` does not panic.
pub record Platform : Type 0 where
  pub listen : String → Listener
  pub is_capacity : ℕ → Bool

-- What `bind` has made: the server's address, what it shares with the spawned loop, and the channel
-- of this capacity.
pub record Started (A : Type 0) : Type 0 where
  pub local_addr : String
  pub cfg : ConnectionConfig
  pub acceptor : Option A
  pub system : System
  pub hub : Hub

abbrev pub address_of : Listener → Result String
address_of (unbound m) = err (io m)
address_of (nameless m) = err (io m)
address_of (listens addr) = ok addr

abbrev pub channel : Platform → ℕ → Result (Unit {0})
channel os n = if os.is_capacity n then ok tt else panics

module _ {A : Type 0} where
  -- `Default::default()`, and `Server::builder`
  abbrev pub default : ServerBuilder A
  default = record {
    keepalive = some 15_000;
    channel_capacity = 128;
    max_frame_size = default_max_frame_size;
    tls = none;
  }

  -- The builder's methods, which have the names of the fields.
  abbrev pub with_keepalive : ℕ → ServerBuilder A → ServerBuilder A
  with_keepalive interval b = record b { keepalive = some interval }

  abbrev pub no_keepalive : ServerBuilder A → ServerBuilder A
  no_keepalive b = record b { keepalive = none }

  abbrev pub with_channel_capacity : ℕ → ServerBuilder A → ServerBuilder A
  with_channel_capacity n b = record b { channel_capacity = n }

  abbrev pub with_max_frame_size : ℕ → ServerBuilder A → ServerBuilder A
  with_max_frame_size n b = record b { max_frame_size = n }

  abbrev pub with_tls : A → ServerBuilder A → ServerBuilder A
  with_tls acceptor b = record b { tls = some acceptor }

  -- `ServerBuilder::bind`
  abbrev pub bind : Platform → ServerBuilder A → String → M (Unit {0}) (Started A)
  bind os b addr = do
    local ← lift (address_of (os.listen addr))
    _ ← lift (channel os b.channel_capacity)
    let cfg : ConnectionConfig = record {
      max_frame_size = b.max_frame_size;
      keepalive = b.keepalive;
    }
    return (record {
      local_addr = local;
      cfg = cfg;
      acceptor = b.tls;
      hub = new_hub;
      system = new_system b.channel_capacity;
    })

  -- `Server::bind`, and `Server::local_addr`
  abbrev pub bind_default : Platform → String → M (Unit {0}) (Started A)
  bind_default os addr = bind os default addr

  abbrev pub local_addr : Started A → String
  local_addr s = s.local_addr
