-- ===== src/Client/Link.antt =====
-- src/client.rs: the `Framed` stream of a client, with the two helpers that put a timeout on its
-- writes. Durations are milliseconds.
pub mod Fed
use lumberjack_protocol.Base.{
  refl, Option, List, ℕ, String, Bytes, Bool, true, if◌then◌else◌, some, ◌∷◌, [], leb, none, ◌≡◌,
  ◌++◌, Bool-cases, inl, inr, drop, sym, length, append-nil, take, ◌+◌, arith, ◌<◌, ap,
  append_assoc, length-append, ◌∙◌,
}
use lumberjack_protocol.Codec
use lumberjack_protocol.Frame
use lumberjack_protocol.Frame.Flate.{Zlib}
use lumberjack_protocol.Codec.{LumberjackCodec, Item, Framed}
use lumberjack_protocol.Error.{M, ok, err, write_timeout, io, hangs, Returns, Result, bind, panics}
use lumberjack_protocol.Frame.{Frame}
use lumberjack_protocol.Frame.RoundTrip.{encode-append}

-- How a flush fares: it is done after that long, it fails after that long, or the peer never makes
-- room for all. With it goes how many bytes are out by then, if it fails or is cut off.
pub data Write : Type 0 where
  takes : ℕ → ℕ → Write
  fails : ℕ → String → ℕ → Write
  blocks : ℕ → Write

-- What the peer does next, counted from the moment that the client waits for it. `for_ever d seq` is
-- an acknowledgement of `seq` events after `d`, and again after `d`, without an end.
pub data Arrival : Type 0 where
  item : ℕ → Item → Arrival
  closes : ℕ → Arrival
  for_ever : ℕ → ℕ → Arrival

-- `buffer` is the write buffer of `Framed`, and `wire` what the stream was given. Beyond `writes`
-- every flush is done at once, and beyond `arrivals` the peer is silent for ever.
pub record Link : Type 0 where
  pub writes : List Write
  pub arrivals : List Arrival
  pub buffer : Bytes
  pub wire : Bytes

-- `Framed::backpressure_boundary`, as it is if it is not set: 8 KiB.
abbrev pub backpressure_boundary : ℕ
backpressure_boundary = 8192

-- `tokio::time::timeout` around something that takes `d`, with a limit or without one.
abbrev pub in_time : Option ℕ → ℕ → Bool
in_time none d = true
in_time (some t) d = leb d t

-- So many bytes of the buffer go out.
abbrev pub put_out : ℕ → Link → Link
put_out k s = record s { buffer = drop k s.buffer; wire = s.wire ++ take k s.buffer }

abbrev pub put_out_all : Link → Link
put_out_all s = record s { buffer = []; wire = s.wire ++ s.buffer }

-- What a flush comes to.
outcome : Option ℕ → Write → M Link (Unit {0})
outcome limit (takes d k) s =
    if in_time limit d then (ok tt, put_out_all s) else (err write_timeout, put_out k s)
outcome limit (fails d m k) s =
    (if in_time limit d then err (io m) else err write_timeout, put_out k s)
outcome none (blocks k) s = (hangs, put_out k s)
outcome (some t) (blocks k) s = (err write_timeout, put_out k s)

flush_next : Option ℕ → List Write → M Link (Unit {0})
unfolding outcome
flush_next limit [] s = (ok tt, put_out_all s)
flush_next limit (w ∷ rest) s = outcome limit w (record s { writes = rest })

pub flush_with_optional_timeout : Option ℕ → M Link (Unit {0})
unfolding flush_next
flush_with_optional_timeout limit s = flush_next limit s.writes s

-- The codec, which never fails, puts the frame behind what is in the buffer.
abbrev pub start_send : Zlib → LumberjackCodec → Frame → M Link (Unit {0})
start_send z codec frame s = (ok tt, record s { buffer = (Codec.encode z codec frame s.buffer).1 })

-- `feed`: a buffer that has reached the boundary is flushed first.
pub send_with_optional_timeout : Zlib → LumberjackCodec → Option ℕ → Frame → M Link (Unit {0})
unfolding flush_with_optional_timeout
send_with_optional_timeout z codec limit frame s =
    if leb backpressure_boundary (length s.buffer)
    then bind (flush_with_optional_timeout limit s) (λ _. start_send z codec frame)
    else start_send z codec frame s

-- `framed.close()`, of `Client::close`: what is buffered goes out, with no timeout.
pub close : M Link (Unit {0})
unfolding flush_with_optional_timeout
close s = flush_with_optional_timeout none s

-- It comes to an end, and what the peer does is still this.
abbrev pub Goes : {A : Type 0} → List Arrival → Result A × Link → Type 0
Goes arrivals (r, t) = Returns r × (t.arrivals ≡ arrivals)

pub Goes-bind :
    {A B : Type 0} {arrivals : List Arrival} (r : Result A × Link) (f : A → M Link B)
    → Goes arrivals r
    → ((a : A) (t : Link) → t.arrivals ≡ arrivals → Goes arrivals (f a t))
    → Goes arrivals (bind r f)
Goes-bind (ok a, t) f (h, e) k = k a t e
Goes-bind (err x, t) f (h, e) k = (tt, e)
Goes-bind (panics, t) f (h, e) k = (h, e)
Goes-bind (hangs, t) f (h, e) k = (h, e)

-- With a timeout no flush hangs.
flush_next-Goes : (t : ℕ) (ws : List Write) (s : Link) → Goes s.arrivals (flush_next (some t) ws s)
unfolding flush_next outcome
flush_next-Goes t [] s = (tt, refl)
flush_next-Goes t (takes d k ∷ rest) s = elim (Bool-cases (leb d t)) [
  | inl h ↦ rw h (tt, refl)
  | inr h ↦ rw h (tt, refl)
]
flush_next-Goes t (fails d m k ∷ rest) s = elim (Bool-cases (leb d t)) [
  | inl h ↦ rw h (tt, refl)
  | inr h ↦ rw h (tt, refl)
]
flush_next-Goes t (blocks k ∷ rest) s = (tt, refl)

pub flush_with_optional_timeout-Goes :
    (t : ℕ) (s : Link) → Goes s.arrivals (flush_with_optional_timeout (some t) s)
unfolding flush_with_optional_timeout
flush_with_optional_timeout-Goes t s = flush_next-Goes t s.writes s

pub send_with_optional_timeout-Goes :
    (z : Zlib) (codec : LumberjackCodec) (t : ℕ) (f : Frame) (s : Link)
    → Goes s.arrivals (send_with_optional_timeout z codec (some t) f s)
unfolding send_with_optional_timeout
send_with_optional_timeout-Goes z codec t f s =
    elim (Bool-cases (leb backpressure_boundary (length s.buffer))) [
      | inl full ↦ rw full (
          Goes-bind (flush_with_optional_timeout (some t) s) _
            (flush_with_optional_timeout-Goes t s) (λ _ u e. (tt, e)))
      | inr room ↦ rw room (tt, refl)
    ]

-- A link on which every flush is done at once, with these bytes in the buffer.
abbrev pub holding : List Arrival → Bytes → Bytes → Link
holding arrivals buffer wire = record {
  writes = [];
  arrivals = arrivals;
  buffer = buffer;
  wire = wire;
}

-- And one with nothing in the buffer.
abbrev pub healthy : List Arrival → Bytes → Link
healthy arrivals wire = holding arrivals [] wire
