-- ===== src/Server/Connection/Writes.antt =====
-- src/server.rs: the writes of `run_connection`, one by one and in its wait.
use lumberjack_protocol.Server.Connection.Trace.{
  IsDone, Stuck, IsIo, Grew, Grew-quiet, Grew-trans, Torn, Grew-Torn, keepalives,
}
use lumberjack_protocol.Server.Connection.{
  Conn, send, wait_ack, Zlib, Result, ok, err, write_next, write, Fault, fails, stalls,
}
use lumberjack_protocol.Codec.{encode_all, LumberjackCodec}
use lumberjack_protocol.Frame
use lumberjack_protocol.Frame.{Frame, window, json, compressed, ack}
use lumberjack_protocol.Base.{
  refl, ℕ, List, ◌≡◌, ◌++◌, [], ◌∙◌, ◌∷◌, suc, sym, append_assoc, zero, Option, append-nil, some,
  All, ap, Bytes, none, length, arith, length-append, drop, take, ◌⊎◌, take-append-drop, inr, subst,
}
use lumberjack_protocol.Error.{panics, hangs, M, bind}

module _ (z : Zlib) where
  -- After a write of an acknowledgement, and after a wait: what was written.
  abbrev pub Sent : ℕ → Conn → Result (Unit {0}) × Conn → Type 0
  Sent seq s (ok _, s') = Grew z s [] (ack seq ∷ []) s'
  Sent seq s (err e, s') = Torn z (IsIo e) s [] (ack seq ∷ []) s'
  Sent seq s (panics, s') = ⊥
  Sent seq s (hangs, s') = Torn z Unit s [] (ack seq ∷ []) s' × Stuck s

  write-Torn :
      {why : Type 0} (seq k : ℕ) (bytes : Bytes) (s : Conn) (rest : List (Option Fault))
      → bytes ≡ encode_all z (ack seq ∷ [])
      → length bytes ≡ 6
      → (drop k bytes ≡ []) ⊎ why
      → Torn z why s [] (ack seq ∷ []) (record s { faults = rest; wire = s.wire ++ take k bytes })
  write-Torn seq k bytes s rest h six blame = record {
    missing = drop k bytes;
    batches = sym (append-nil _);
    frames =
        append_assoc s.wire (take k bytes) (drop k bytes)
        ∙ ap (λ (t : Bytes). s.wire ++ t) (take-append-drop k bytes ∙ h);
    short = omega (
      arith,
      six,
      length-append (take k bytes) (drop k bytes),
      ap length (take-append-drop k bytes),
    );
    blame = blame;
  }

  write_next-Sent :
      (seq : ℕ) (faults : List (Option Fault)) (bytes : Bytes) (s : Conn)
      → bytes ≡ encode_all z (ack seq ∷ [])
      → length bytes ≡ 6
      → s.faults ≡ faults
      → Sent seq s (write_next faults bytes s)
  unfolding write_next write
  write_next-Sent seq [] bytes s h six e = record {
    batches = sym (append-nil _);
    frames = ap (λ (t : Bytes). s.wire ++ t) h;
    sized = λ a. a;
    shrinks = omega arith;
    spent = omega arith;
    unstalled = λ a. tt;
  }
  write_next-Sent seq (none ∷ rest) bytes s h six e = record {
    batches = sym (append-nil _);
    frames = ap (λ (t : Bytes). s.wire ++ t) h;
    sized = λ a. a;
    shrinks = omega arith;
    spent = omega arith;
    unstalled = λ a. (subst (All IsDone) e a).1;
  }
  write_next-Sent seq (some (fails m k) ∷ rest) bytes s h six e =
      write-Torn seq k bytes s rest h six (inr (m, refl))
  write_next-Sent seq (some (stalls k) ∷ rest) bytes s h six e =
      (write-Torn seq k bytes s rest h six (inr tt), λ a. (subst (All IsDone) e a).0)

  pub send-Sent :
      (codec : LumberjackCodec) (seq : ℕ) (s : Conn) → Sent seq s (send z codec (ack seq) s)
  unfolding send Frame.encode
  send-Sent codec seq s = write_next-Sent seq s.faults _ s refl refl refl

  abbrev pub Waited : Conn → Result (Unit {0}) × Conn → Type 0
  Waited s (ok _, s') = (n : ℕ) × Grew z s [] (keepalives n) s'
  Waited s (err e, s') = (n : ℕ) × Torn z (IsIo e) s [] (keepalives n) s'
  Waited s (panics, s') = ⊥
  Waited s (hangs, s') = (n : ℕ) × Torn z Unit s [] (keepalives n) s' × Stuck s

  one_more :
      {s t : Conn} (r : Result (Unit {0}) × Conn)
      → Grew z s [] (ack 0 ∷ []) t
      → Waited t r
      → Waited s r
  one_more (ok _, s') g (n, h) = (suc n, Grew-trans z g h)
  one_more (err e, s') g (n, h) = (suc n, Grew-Torn z g h)
  one_more (panics, s') g h = h
  one_more (hangs, s') g (n, h, stuck) = (suc n, Grew-Torn z g h, λ a. stuck (g.unstalled a))

  after_send :
      (s : Conn) (r : Result (Unit {0}) × Conn) (then : M Conn (Unit {0}))
      → Sent 0 s r
      → ((t : Conn) → Waited t (then t))
      → Waited s (bind r (λ _. then))
  after_send s (ok _, t) then g k = one_more (then t) g (k t)
  after_send s (err e, t) then g k = (1, g)
  after_send s (panics, t) then g k = g
  after_send s (hangs, t) then (g, stuck) k = (1, g, stuck)

  pub wait_ack-Waited :
      (codec : LumberjackCodec) (keepalive : Option ℕ) (ticks : ℕ) (s : Conn)
      → Waited s (wait_ack z codec keepalive ticks s)
  unfolding wait_ack
  wait_ack-Waited codec none ticks s =
      (0, Grew-quiet z s s refl refl refl refl (λ a. a) (omega arith))
  wait_ack-Waited codec (some interval) zero s =
      (0, Grew-quiet z s s refl refl refl refl (λ a. a) (omega arith))
  wait_ack-Waited codec (some interval) (suc ticks) s =
      after_send s (send z codec (ack 0) s) (wait_ack z codec (some interval) ticks)
        (send-Sent codec 0 s) (λ t. wait_ack-Waited codec (some interval) ticks t)
