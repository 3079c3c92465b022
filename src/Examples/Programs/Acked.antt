-- ===== src/Examples/Programs/Acked.antt =====
-- src/examples/client.rs: the number that the client prints.
use lumberjack_protocol.Examples.Programs.{
  address, client_settings, send_and_close, run_client, client_main,
}
use lumberjack_protocol.Client.Connect.{Network, BoxedStream}
use lumberjack_protocol.Client.Connect
use lumberjack_protocol.Client.Send.{Client, Serialized}
use lumberjack_protocol.Client.Send.Frames.{Serializes, send-clean}
use lumberjack_protocol.Client.Send.Ack.{Confirms, await_ack_complete}
use lumberjack_protocol.Client.Link.{Link, Arrival, healthy}
use lumberjack_protocol.Client.Link.Fed.{close-healthy}
use lumberjack_protocol.Frame.{default_max_frame_size}
use lumberjack_protocol.Frame.Flate.{Zlib}
use lumberjack_protocol.Error.{Result, ok}
use lumberjack_protocol.Base.{
  ℕ, String, Option, List, [], ◌∷◌, ◌≡◌, ◌<◌, ◌≤◌, ◌^◌, length, All, Bytes, refl, ap, ◌∙◌,
}

module _ {C T : Type 0} (z : Zlib) (to_vec : T → Serialized) (net : Network C)
    (link_of : BoxedStream C → Link) where
  -- If the client connects, its writes succeed, serde_json writes its events, which are one or more,
  -- fewer than 2 ^ 32 and each at most 16 MiB long, and the server confirms them in time: the client
  -- ends well and prints their number.
  pub client_main_acked :
      (argument : Option String) (ev : T) (evs : List T) (bs : List Bytes) (client : Client)
      (stream : BoxedStream C) (ports : List ℕ) (arrivals rest : List Arrival)
      → Connect.connect net client_settings (address argument) [] ≡ (ok (client, stream), ports)
      → link_of stream ≡ healthy arrivals []
      → Serializes to_vec (ev ∷ evs) bs
      → length bs < 2 ^ 32
      → All (λ b. length b ≤ default_max_frame_size) bs
      → Confirms client.ack_timeout (length bs) rest arrivals
      → client_main z to_vec net link_of argument (ev ∷ evs) ≡ ok (length bs)
  unfolding client_main run_client send_and_close
  client_main_acked argument ev evs bs client stream ports arrivals rest up link written few small
        heard =
      ap
        (λ (r : Result (Client × BoxedStream C) × List ℕ).
          run_client z to_vec net link_of (ev ∷ evs) r.0)
        up
      ∙ rw (link, run_client, send_and_close)
          (rw (send-clean z to_vec client arrivals ev evs bs [] written few small) (
            rw (await_ack_complete client.ack_timeout (length bs) heard)
              (rw (close-healthy rest) refl)))
