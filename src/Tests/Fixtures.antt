-- ===== src/Tests/Fixtures.antt =====
-- What the tests share: a flate2 that stores the bytes as they are, a client and a server.
use lumberjack_protocol.Frame.Flate.{Zlib, filled, Yields, end, more, Inverts}
use lumberjack_protocol.Frame.Inflate.{chunk_size}
use lumberjack_protocol.Server.Connection.{ConnectionConfig}
use lumberjack_protocol.Client.Send.{Client, Serialized, bytes}
use lumberjack_protocol.Codec
use lumberjack_protocol.Base.{
  refl, arith, Bytes, some, suc, ℕ, length, take, drop, ◌<◌, ◌∷◌, subst, take-append-drop,
  length-drop, zero, [],
}

abbrev pub stored : Zlib
stored = record {
  Decoder = Bytes;
  compress = λ level x. x;
  open_decoder = λ x. x;
  read = λ d n. filled (take n d) (drop n d);
}

stored-Yields : (k fuel : ℕ) (x : Bytes) → length x < fuel → Yields stored (suc k) x x
stored-Yields k zero x h = absurd (omega arith)
stored-Yields k (suc fuel) [] h = end refl
stored-Yields k (suc fuel) (b ∷ bs) h =
    subst (λ y. Yields stored (suc k) (b ∷ bs) (b ∷ y)) (take-append-drop k bs)
      (more b (take k bs) (drop k bs) refl
        (stored-Yields k fuel (drop k bs) (omega (arith, length-drop k bs))))

pub stored-Inverts : Inverts stored chunk_size
stored-Inverts level x = stored-Yields 8191 (suc (length x)) x (omega arith)

abbrev pub cfg : ConnectionConfig
cfg = record { max_frame_size = 1024; keepalive = some 15_000 }

abbrev pub sender_client : Client
sender_client = record {
  codec = Codec.new;
  compression_level = 3;
  write_timeout = some 1_000;
  ack_timeout = some 30_000;
}

-- Events that are bytes already.
abbrev pub to_vec : Bytes → Serialized
to_vec b = bytes b
