-- ===== src/Server/Connection/Faults.antt =====
-- src/server.rs: `run_connection` on a stream that breaks the protocol inside a window.
use lumberjack_protocol.Server.Progress.{Progress}
use lumberjack_protocol.Error.{Error}
