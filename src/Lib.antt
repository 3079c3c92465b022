-- ===== src/Lib.antt =====
-- Lumberjack v2 in Rust: the frames, the codec, the client and the server of this crate, and what
-- makes them correct.
--
-- The parts, and where they are modelled:
--
--   Base, Base/*         shared names, Boolean tests on native numbers, lists, machine integers
--   Error                src/error.rs: `Error`; `Result` with a panic and an endless wait as values,
--                        and the state monad `M` in which the code is written
--     Error/Display      the texts of errors, and their sources
--   Buf                  what src/frame.rs calls of the crate bytes, on lists of bytes
--   Frame                src/frame.rs: `Frame`, `encode`, `decode`, `decode_with_limit`
--     Frame/Flate        flate2 as a parameter `Zlib`, and its documented law `Inverts`
--     Frame/Inflate      `zlib_compress`, `zlib_decompress`
--     Frame/Wire         the wire format as a grammar, without the code
--     Frame/Steps, Shapes, Sound, Incremental, RoundTrip, Limits: the proofs on the decoder
--   Codec                src/codec.rs: `LumberjackCodec`; tokio-util's `Framed` as an interface
--     Codec/Reader       an implementation of that interface
--   Events               numbered payloads, the words of the specifications
--   Server/Batch         src/server.rs: `Batch` and its oneshot channel
--   Server/Progress      `run_connection`: the two loops that fill a window
--   Server/Connection    `run_connection`: the whole connection
--   Server/Accept        the accept loop of `ServerBuilder::bind`, `ActiveGuard`, `Server::drop`
--   Server/Builder       `ServerBuilder` and the rest of `bind`
--   Server/Queue         the channel between the handler tasks and `Server::recv`
--     Queue/Promise      what one connection is promised of it, an abstract state machine
--     Queue/Owned, Stages, Refines, Sights, Delivery, Close: that the channel keeps it
--     Queue/Order        first in, first out, which is what tokio's channel does
--     Queue/Script, Adequate: that `run_connection` on a script is what happens at it
--   Client/Link          src/client.rs: the stream of a client, and its writes under a timeout
--   Client/Send          `Client::send`
--     Send/Waits         when it waits for ever
--   Client/Ports         `connect_with_port_range`
--   Client/Connect       `ClientBuilder`, `connect`
--   EndToEnd             a client and a server with the bytes between them
--     EndToEnd/Calls     any number of calls on one client
--   Tls                  src/tls.rs: the constructors for rustls
--   Examples/Args        examples/baseline.rs: the command line and the events that it sends
--     Args/Printed       `str::parse` on a printed number
--   Examples/Setup       the server, the clients and the batch that `main` sets up
--     Setup/Load         one of these clients against this server
--   Examples/Usage       its processor time and memory
--   Examples/Harness     its client tasks, their counters and the measurement
--   Examples/Programs    examples/client.rs and examples/server.rs
--   UnitTests            (in Frame, Codec, Server/Accept, Server/Connection, Client/Send,
--                        Client/Connect, Error/Display) what the unit tests of the crate assert
--   Tests/*              the theorems at concrete inputs
--
-- How they interact: `Client::send` encodes frames through the codec onto its link; a reader in the
-- manner of `Framed` turns the bytes into the items on which `run_connection` works; this fills
-- windows, hands over batches, and writes acknowledgements, which come back to the client the same
-- way. EndToEnd puts these together. The accept loop starts one handler for each connection;
-- the handlers and the holder of the server share the channel of Server/Queue.
--
-- State. A function that changes state takes it and gives it back, with a `Result`. What the code
-- waits for is a script in the state: the items that arrive, how the consumer fares with each batch,
-- which writes fail or are slow, what the peer does. Each script is arbitrary in the theorems. The
-- tasks of a server share a `Hub`, and a run is any sequence of their steps, so that all
-- interleavings are covered; the two polls of the `select!` in the accept loop are steps of their
-- own, since the server can be dropped between them. The channel has a `System` and a `History` of
-- its own, in which a keepalive counts as written when the `select!` of its task decides on it.
-- The link of a client has the write buffer of `Framed` beside the bytes on the stream: `feed` only
-- fills the buffer, unless it has reached the 8 KiB at which tokio-util flushes it first, and a flush
-- moves it to the stream. A write that fails or is cut off, on either side, can leave some of its
-- bytes on the stream. A peer that sends acknowledgements for ever is a script too (`for_ever`).
--
-- Numbers are natural numbers with the wrap-around of a release build written out (`as_u32`,
-- `as_u16`, `% 2 ^ 64`); `usize` has 64 bits. A length of a list never wraps. Durations are
-- milliseconds.
--
-- Fuel. `inflate_loop` has one round more than the limit, since each round but the last adds a byte;
-- `unpack`, `send_frames` and `drain` have one round more than their buffer has bytes, since a frame
-- takes a byte at least; `serve` has one round more than there are items, since a round takes an
-- item. Running out of fuel is `hangs`, which is excluded by the theorems on termination. `decimal` has 20
-- digits, as many as a number of 64 bits has at most.
--
-- Parameters: flate2, serde_json (`to_vec`), tokio-util's `Framed`, the sockets and the name service
-- of the operating system, the random number generator, TLS. What is assumed of one of them is a
-- hypothesis of the theorem that needs it. The channels of tokio and the write buffer of `Framed` are
-- modelled as their documentation has them: first in, first out, up to a capacity; filled, flushed.
--
-- Not modelled: the text of the log, memory (the room that is reserved for a window),
-- `set_nodelay`, the feature flags (`compression` and `tls` are on), what the examples print, and
-- the rates of the measuring program, which are floating-point numbers.
pub mod Base
pub mod Error
pub mod Buf
pub mod Frame
pub mod Codec
pub mod Events
pub mod Server
pub mod Client
pub mod EndToEnd
pub mod Tls
pub mod Examples
pub mod Tests
