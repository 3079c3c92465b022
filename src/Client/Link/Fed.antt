-- ===== src/Client/Link/Fed.antt =====
-- src/client.rs: writes on a link whose flushes are done at once.
use lumberjack_protocol.Client.Link.{
  Link, Arrival, holding, healthy, backpressure_boundary, flush_next, flush_with_optional_timeout,
  send_with_optional_timeout, close, List, Option, Zlib, ℕ, Bytes, ◌++◌, LumberjackCodec, ◌≡◌, [],
  length, sym, ok, ◌+◌, append-nil, ◌<◌, arith, encode-append,
}
use lumberjack_protocol.Frame
use lumberjack_protocol.Frame.{Frame}
use lumberjack_protocol.Base.{refl, ap, length-append, ◌∙◌, append_assoc, Bool-cases, leb, inl, inr}

-- More bytes were put into the buffer of such a link: they are behind the others, and went out only
-- if there were too many of them.
pub record Fed (arrivals : List Arrival) (buffer wire more : Bytes) (t : Link) : Type 0 where
  pub buffer_then : Bytes
  pub wire_then : Bytes
  pub holds : t ≡ holding arrivals buffer_then wire_then
  pub bytes : wire_then ++ buffer_then ≡ (wire ++ buffer) ++ more
  pub kept : length buffer + length more < backpressure_boundary → wire_then ≡ wire

module _ (arrivals : List Arrival) where
  pub Fed-nil : (buffer wire : Bytes) → Fed arrivals buffer wire [] (holding arrivals buffer wire)
  Fed-nil buffer wire = record {
    buffer_then = buffer;
    wire_then = wire;
    holds = refl;
    bytes = sym (append-nil (wire ++ buffer));
    kept = λ h. refl;
  }

  pub Fed-trans :
      {buffer wire front back : Bytes} {t u : Link} (f : Fed arrivals buffer wire front t)
      → Fed arrivals f.buffer_then f.wire_then back u
      → Fed arrivals buffer wire (front ++ back) u
  Fed-trans {buffer} {wire} {front} {back} f g =
      let grown : length f.wire_then + length f.buffer_then
          ≡ length wire + length buffer + length front =
        omega (
          arith,
          ap length f.bytes,
          length-append f.wire_then f.buffer_then,
          length-append (wire ++ buffer) front,
          length-append wire buffer,
        ) in
      record {
        buffer_then = g.buffer_then;
        wire_then = g.wire_then;
        holds = g.holds;
        bytes =
            g.bytes
            ∙ ap (λ (x : Bytes). x ++ back) f.bytes
            ∙ append_assoc (wire ++ buffer) front back;
        kept = λ h.
            let first = f.kept (omega (arith, length-append front back)) in
            g.kept (omega (arith, ap length first, length-append front back)) ∙ first;
      }

  pub send_healthy :
      (z : Zlib) (codec : LumberjackCodec) (limit : Option ℕ) (f : Frame) (buffer wire : Bytes)
      → (t : Link) × (send_with_optional_timeout z codec limit f (holding arrivals buffer wire)
          ≡ (ok tt, t))
        × Fed arrivals buffer wire (Frame.encode z f []) t
  unfolding send_with_optional_timeout flush_with_optional_timeout flush_next
  send_healthy z codec limit f buffer wire =
      elim (Bool-cases (leb backpressure_boundary (length buffer))) [
        | inl full ↦ (
          holding arrivals (Frame.encode z f []) (wire ++ buffer),
          rw full refl,
          record {
            buffer_then = Frame.encode z f [];
            wire_then = wire ++ buffer;
            holds = refl;
            bytes = refl;
            kept = λ h. absurd (ground arith);
          },
        )
        | inr room ↦ (
          holding arrivals (buffer ++ Frame.encode z f []) wire,
          rw room (rw (encode-append z f buffer) refl),
          record {
            buffer_then = buffer ++ Frame.encode z f [];
            wire_then = wire;
            holds = refl;
            bytes = sym (append_assoc wire buffer (Frame.encode z f []));
            kept = λ h. refl;
          },
        )
      ]

-- A flush then puts all of it on the stream.
pub flush_Fed :
    (limit : Option ℕ) {arrivals : List Arrival} {buffer wire more : Bytes} {t : Link}
    → Fed arrivals buffer wire more t
    → flush_with_optional_timeout limit t ≡ (ok tt, healthy arrivals ((wire ++ buffer) ++ more))
unfolding flush_with_optional_timeout flush_next
flush_Fed limit f = rw f.holds (rw f.bytes refl)

pub close-healthy :
    (arrivals : List Arrival) (wire : Bytes)
    → close (healthy arrivals wire) ≡ (ok tt, healthy arrivals wire)
unfolding close flush_with_optional_timeout flush_next
close-healthy arrivals wire = rw (append-nil wire) refl
