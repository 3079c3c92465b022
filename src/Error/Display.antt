-- ===== src/Error/Display.antt =====
-- src/error.rs: what thiserror derives for `Error`: its text, and its source.
mod UnitTests
use lumberjack_protocol.Error.{
  Error, io, invalid_frame, frame_too_large, compression, serialization, unexpected_frame,
  seq_out_of_order, write_timeout, ack_timeout, connection_closed, invalid_config,
  no_local_port_available, tls,
}
use lumberjack_protocol.Base.{
  ℕ, zero, suc, String, Option, some, none, Bytes, codes, [], ◌∷◌, ◌++◌, ◌+◌, ◌/◌, ◌%◌, ltb,
  if◌then◌else◌,
}

abbrev pub digit : ℕ → ℕ
digit n = b'0' + n % 10

-- `Display` of a number, in front of `rest`. The fuel is the number of digits at most.
unfoldable pub decimal_before : ℕ → ℕ → Bytes → Bytes
decimal_before zero n rest = rest
decimal_before (suc fuel) n rest =
    let longer = decimal_before fuel (n / 10) (digit n ∷ rest) in
    if ltb n 10 then digit n ∷ rest else longer

-- A number of 64 bits has 20 digits at most.
unfoldable pub decimal : ℕ → Bytes
unfolding decimal_before
decimal n = decimal_before 20 n []

-- `Display`. The text of the error of another crate, or of the operating system, is that error.
unfoldable pub to_string : Error → Bytes
unfolding decimal
to_string (io m) = codes "io error: " ++ codes m
to_string (invalid_frame m) = codes "invalid frame: " ++ codes m
to_string (frame_too_large size max) =
    codes "frame too large: " ++ decimal size ++ codes " > " ++ decimal max
to_string (compression m) = codes "compression error: " ++ codes m
to_string (serialization m) = codes "serialization error: " ++ codes m
to_string (unexpected_frame m) = codes "unexpected frame: " ++ codes m
to_string (seq_out_of_order got prev) =
    codes "seq out of order: got " ++ decimal got ++ codes ", expected > " ++ decimal prev
to_string write_timeout = codes "write timeout"
to_string ack_timeout = codes "ack timeout"
to_string connection_closed = codes "connection closed by peer"
to_string (invalid_config m) = codes "invalid config: " ++ codes m
to_string no_local_port_available = codes "no local port available in configured range"
to_string (tls m) = codes "tls error: " ++ codes m

-- `std::error::Error::source`: of the two that have `#[from]`.
abbrev pub source : Error → Option String
source (io m) = some m
source (tls m) = some m
source _ = none
