-- ===== src/Examples/Programs.antt =====
-- src/examples/client.rs and src/examples/server.rs, without what they print.
pub mod Drain
pub mod Acked
use lumberjack_protocol.Server.Queue.{System, recv, release}
use lumberjack_protocol.Server.Batch.{Batch, acks}
use lumberjack_protocol.Server.Builder.{ServerBuilder, Platform, Started}
use lumberjack_protocol.Server.Builder
use lumberjack_protocol.Client.Connect.{ClientBuilder, Network, BoxedStream}
use lumberjack_protocol.Client.Connect
use lumberjack_protocol.Client.Send.{Client, Serialized, send}
use lumberjack_protocol.Client.Link.{Link, close}
use lumberjack_protocol.Frame.Flate.{Zlib}
use lumberjack_protocol.Error.{Result, M, ok, bind, return, lift, ◌>>=◌, err, panics, hangs}
use lumberjack_protocol.Base.{ℕ, String, Option, some, none, List, [], ◌∷◌, ◌++◌}

-- `env::args().nth(1).unwrap_or_else(..)`
abbrev pub address : Option String → String
address none = "127.0.0.1:5044"
address (some a) = a

module _ {C : Type 0} where
  -- The settings of the client.
  abbrev pub client_settings : ClientBuilder C
  client_settings =
      Connect.with_ack_timeout 30_000 (Connect.with_compression_level 3 Connect.default)

  module _ {T : Type 0} (z : Zlib) (to_vec : T → Serialized) (net : Network C)
      (link_of : BoxedStream C → Link) where
    -- What follows `connect`, on the link of the stream.
    pub send_and_close : Client → List T → M Link ℕ
    send_and_close client events = do acked ← send z to_vec client events; _ ← close; return acked

    -- What follows `connect`, if it succeeds.
    pub run_client : List T → Result (Client × BoxedStream C) → Result ℕ
    unfolding send_and_close
    run_client events (ok (client, stream)) = (send_and_close client events (link_of stream)).0
    run_client events (err e) = err e
    run_client events panics = panics
    run_client events hangs = hangs

    -- `main` of the client, with its events; the result is the number that it prints.
    pub client_main : Option String → List T → Result ℕ
    unfolding run_client
    client_main argument events =
        run_client events (Connect.connect net client_settings (address argument) []).0

module _ {A : Type 0} where
  -- The settings of the server.
  abbrev pub server_settings : ServerBuilder A
  server_settings =
      Builder.with_channel_capacity 256 (Builder.with_keepalive 15_000 Builder.default)

  -- `main` of the server, up to its loop.
  abbrev pub server_start : Platform → Option String → M (Unit {0}) (Started A)
  server_start os argument = Builder.bind os server_settings (address argument)

-- The body of the loop: `recv` gives a batch, and it is acknowledged.
unfoldable pub serve_next : ℕ × Batch → List (ℕ × Batch) → System → System
unfolding recv release
serve_next entry rest s = release acks entry s.held (recv entry rest s)

-- The loop, as long as the channel is not empty.
unfoldable pub serve_all : List (ℕ × Batch) → System → System
unfolding serve_next
serve_all [] s = s
serve_all (entry ∷ rest) s = serve_all rest (serve_next entry rest s)
