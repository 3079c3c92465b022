-- ===== src/Examples/Setup.antt =====
-- src/examples/baseline.rs: what `main` sets up before it measures.
pub mod Ready
pub mod Load
use lumberjack_protocol.Examples.Args.{Args, SyntheticEvent, make_event}
use lumberjack_protocol.Server.Builder.{ServerBuilder, Platform, Started}
use lumberjack_protocol.Server.Builder
use lumberjack_protocol.Client.Connect.{ClientBuilder, Network, BoxedStream}
use lumberjack_protocol.Client.Connect
use lumberjack_protocol.Client.Send.{Client, Serialized, bytes, fault}
use lumberjack_protocol.Error.{Result, M, ok, lift, return, ◌>>=◌, err, panics, hangs}
use lumberjack_protocol.Base.{ℕ, zero, suc, String, List, [], ◌∷◌, length}

-- `unwrap` of a `Result`
abbrev pub unwrap {ℓ} : {A : Type ℓ} → Result A → Result A
unwrap (ok a) = ok a
unwrap (err e) = panics
unwrap panics = panics
unwrap hangs = hangs

abbrev pub repeated {ℓ} : {A : Type ℓ} → ℕ → A → List A
repeated zero a = []
repeated (suc n) a = a ∷ repeated n a

abbrev pub make_batch : Args → List SyntheticEvent
make_batch args = repeated args.batch (make_event args.event_size)

-- `serde_json::to_vec(&batch[0]).unwrap().len()`
abbrev pub size_of : Serialized → Result ℕ
size_of (bytes b) = ok (length b)
size_of (fault m) = panics

abbrev pub event_bytes : (SyntheticEvent → Serialized) → List SyntheticEvent → Result ℕ
event_bytes to_vec [] = panics
event_bytes to_vec (ev ∷ evs) = size_of (to_vec ev)

abbrev pub drain_settings : {A : Type 0} → ServerBuilder A
drain_settings = Builder.with_channel_capacity 2048 (Builder.no_keepalive Builder.default)

abbrev pub load_settings : {C : Type 0} → ClientBuilder C
load_settings = Connect.with_ack_timeout 30_000 (Connect.with_compression_level 0 Connect.default)

-- The `for` that connects the clients, one after the other: `n` more, the next one being the `i`th,
-- for which the network is as `nets i` says.
unfoldable pub connect_clients :
    {C : Type 0} → (ℕ → Network C) → String → ℕ → ℕ → M (List ℕ) (List (Client × BoxedStream C))
connect_clients nets addr i zero = return []
connect_clients nets addr i (suc n) = do
  client ← λ ports.
      let (r, tried) = Connect.connect (nets i) load_settings addr ports in (unwrap r, tried)
  clients ← connect_clients nets addr (suc i) n
  return (client ∷ clients)

-- What `main` has when all clients are connected.
pub record Prepared (A C : Type 0) : Type 0 where
  pub batch : List SyntheticEvent
  pub serialized_event_bytes : ℕ
  pub server : Started A
  pub clients : List (Client × BoxedStream C)

-- `main` up to the measurement, with the arguments that it parsed. The state is the list of the
-- local ports tried.
unfoldable pub prepare :
    {A C : Type 0}
    → Platform
    → (ℕ → Network C)
    → (SyntheticEvent → Serialized)
    → Args
    → M (List ℕ) (Prepared A C)
prepare os nets to_vec args = do
  let batch = make_batch args
  size ← lift (event_bytes to_vec batch)
  server ← lift (unwrap (Builder.bind os drain_settings "127.0.0.1:0" tt).0)
  clients ← connect_clients nets (Builder.local_addr server) 0 args.clients
  return
      (record { batch = batch; serialized_event_bytes = size; server = server; clients = clients })
