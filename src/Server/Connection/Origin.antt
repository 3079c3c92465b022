-- ===== src/Server/Connection/Origin.antt =====
-- src/server.rs: where the batches of `run_connection` come from.
use lumberjack_protocol.Server.Connection.{
  Conn, ConnectionConfig, Reaction, next_of, next, write, write_next, Fault, fails, stalls, send,
  fill, dispatch, hand_over, wait_ack, reply, settle, round, serve, run_connection, acked,
  expect_window, go_on, answers, gone, Zlib,
}
use lumberjack_protocol.Server.Connection.Trace.{IsSized}
use lumberjack_protocol.Server.Connection.Settled.{Settled, settle-Settled}
use lumberjack_protocol.Server.Batch.{Batch, new, sender, consume}
use lumberjack_protocol.Server.Progress.{Progress, start, collect}
use lumberjack_protocol.Server.Progress.Invariant.{collect-All}
use lumberjack_protocol.Server.Progress.Sound.{Carries, collect-Carries}
use lumberjack_protocol.Codec.{Item, arrived, broken, with_max_frame_size, LumberjackCodec}
use lumberjack_protocol.Events.{Event, Ascending, last_of, payloads}
use lumberjack_protocol.Frame.{window, json, compressed, ack, Frame}
use lumberjack_protocol.Error.{◌>>=◌, bind, Result, M, ok, err, panics, hangs, return, lift}
use lumberjack_protocol.Base.{
  true, false, refl, List, Option, Bool, ◌≡◌, [], ◌++◌, ℕ, ◌∷◌, ◌∙◌, All, some, length, Bytes, sym,
  suc, append-nil, none, append_assoc, zero, subst, IsU32, ap,
}

-- The batches that a stream makes: window by window, the events that the frames behind it carry.
pub data Streams (z : Zlib) : List Item → List Batch → Type 0 where
  over : (items : List Item) → Streams z items []
  one_batch :
      (size : ℕ) (used rest : List Item) (es : List Event) {bs : List Batch}
      → Carries z used es
      → Ascending 0 es
      → length es ≡ size
      → Streams z rest bs
      → Streams z
          (arrived (window size) ∷ (used ++ rest))
          (new (payloads es) (last_of 0 es) sender ∷ bs)

bind-incoming :
    {A B : Type 0} (items : List Item) (r : Result A × Conn) (f : A → M Conn B)
    → r.1.incoming ≡ items
    → ((a : A) (t : Conn) → t.incoming ≡ items → (f a t).1.incoming ≡ items)
    → (bind r f).1.incoming ≡ items
bind-incoming items (ok a, t) f h k = k a t h
bind-incoming items (err e, t) f h k = h
bind-incoming items (panics, t) f h k = h
bind-incoming items (hangs, t) f h k = h

write_next-incoming :
    (faults : List (Option Fault)) (bytes : Bytes) (s : Conn)
    → (write_next faults bytes s).1.incoming ≡ s.incoming
unfolding write_next write
write_next-incoming [] bytes s = refl
write_next-incoming (none ∷ rest) bytes s = refl
write_next-incoming (some (fails m k) ∷ rest) bytes s = refl
write_next-incoming (some (stalls k) ∷ rest) bytes s = refl

module _ (z : Zlib) where
  send-incoming :
      (codec : LumberjackCodec) (f : Frame) (s : Conn) → (send z codec f s).1.incoming ≡ s.incoming
  unfolding send
  send-incoming codec f s = write_next-incoming s.faults _ s

  wait_ack-incoming :
      (codec : LumberjackCodec) (keepalive : Option ℕ) (ticks : ℕ) (s : Conn)
      → (wait_ack z codec keepalive ticks s).1.incoming ≡ s.incoming
  unfolding wait_ack
  wait_ack-incoming codec none ticks s = refl
  wait_ack-incoming codec (some interval) zero s = refl
  wait_ack-incoming codec (some interval) (suc ticks) s =
      bind-incoming s.incoming (send z codec (ack 0) s) _ (send-incoming codec (ack 0) s)
        (λ _ t h. wait_ack-incoming codec (some interval) ticks t ∙ h)

  answer-incoming :
      (codec : LumberjackCodec) (keepalive : Option ℕ) (ticks : ℕ) (f : Frame) (s : Conn)
      → (bind
          (wait_ack z codec keepalive ticks s)
          (λ _. send z codec f >>= λ _. return true)).1.incoming
        ≡ s.incoming
  answer-incoming codec keepalive ticks f s =
      bind-incoming s.incoming (wait_ack z codec keepalive ticks s)
        (λ _. send z codec f >>= λ _. return true) (wait_ack-incoming codec keepalive ticks s)
        (λ _ t h.
          bind-incoming s.incoming (send z codec f t) (λ _. return true)
            (send-incoming codec f t ∙ h) (λ _ u k. k))

  module _ (cfg : ConnectionConfig) where
    hand_over-incoming :
        (reactions : List Reaction) (b : Batch) (s : Conn)
        → (bind (hand_over reactions b s) (reply z cfg b)).1.incoming ≡ s.incoming
    unfolding hand_over reply
    hand_over-incoming [] b s = refl
    hand_over-incoming (gone ∷ rest) b s = refl
    hand_over-incoming (answers ticks usage ∷ rest) b s =
        answer-incoming (with_max_frame_size cfg.max_frame_size) cfg.keepalive ticks
          (ack (acked b.last_seq (consume usage b []))) _

    settle-incoming : (p : Progress) (s : Conn) → (settle z cfg p s).1.incoming ≡ s.incoming
    unfolding settle dispatch
    settle-incoming p s = hand_over-incoming s.consumer (new p.events p.last_seq sender) s

    -- The batches that were handed over since `s`, in a stream of these items.
    abbrev pub HandedOver : List Item → Conn → Conn → Type 0
    HandedOver items s t =
        (bs : List Batch) × (t.delivered ≡ s.delivered ++ bs) × Streams z items bs

    none_over : (items : List Item) (s t : Conn) → t.delivered ≡ s.delivered → HandedOver items s t
    none_over items s t h = ([], h ∙ sym (append-nil s.delivered), over items)

    settle-bind :
        (items : List Item) (b : Batch) (s : Conn) (r : Result Bool × Conn)
        (then : M Conn (Unit {0}))
        → Settled z b s r
        → r.1.incoming ≡ s.incoming
        → ((bs : List Batch) → Streams z s.incoming bs → Streams z items (b ∷ bs))
        → ((t : Conn)
            → (All IsSized s.incoming → All IsSized t.incoming)
            → HandedOver t.incoming t (then t).1)
        → HandedOver items s (bind r (go_on then)).1
    unfolding go_on
    settle-bind items b s (ok true, t) then (n, g) same k l =
        let (bs, grew, st) = l t g.sized in
        (
          b ∷ bs,
          grew
              ∙ ap (λ (ds : List Batch). ds ++ bs) g.batches
              ∙ append_assoc s.delivered (b ∷ []) bs,
          k bs (subst (λ xs. Streams z xs bs) same st),
        )
    settle-bind items b s (ok false, t) then g same k l =
        none_over items s t (g.batches ∙ append-nil s.delivered)
    settle-bind items b s (err e, t) then (fs, replies, g) same k l =
        (b ∷ [], g.batches, k [] (over s.incoming))
    settle-bind items b s (panics, t) then g same k l = absurd g
    settle-bind items b s (hangs, t) then (fs, replies, g, why) same k l =
        (b ∷ [], g.batches, k [] (over s.incoming))

    filled :
        (size : ℕ) (s : Conn) (then : M Conn (Unit {0})) (c : Result Progress × List Item)
        → IsU32 size
        → collect z cfg.max_frame_size size start s.incoming ≡ c
        → All IsSized c.1
        → ((t : Conn) → All IsSized t.incoming → HandedOver t.incoming t (then t).1)
        → HandedOver
            (arrived (window size) ∷ s.incoming)
            s
            (bind (c.0, record s { incoming = c.1 }) (λ p. settle z cfg p >>= go_on then)).1
    filled size s then (ok p, rest) is_u32 e sized k =
        let (used, es, cut, carried, rising, whole, same, last) =
          collect-Carries z cfg.max_frame_size size p s.incoming rest is_u32 e in
        let s' = record s { incoming = rest } in
        settle-bind (arrived (window size) ∷ s.incoming) (new p.events p.last_seq sender) s'
          (settle z cfg p s') then (settle-Settled z cfg p s') (settle-incoming p s')
          (λ bs st.
            subst (λ b. Streams z (arrived (window size) ∷ s.incoming) (b ∷ bs))
              (ap (λ (x : List Bytes). new x (last_of 0 es) sender) (sym same)
                ∙ ap (λ (n : ℕ). new p.events n sender) (sym last))
              (subst
                (λ xs.
                  Streams z (arrived (window size) ∷ xs)
                    (new (payloads es) (last_of 0 es) sender ∷ bs))
                (sym cut) (one_batch size used rest es carried rising whole st)))
          (λ t keeps. k t (keeps sized))
    filled size s then (err x, rest) is_u32 e sized k =
        none_over _ s (record s { incoming = rest }) refl
    filled size s then (panics, rest) is_u32 e sized k =
        none_over _ s (record s { incoming = rest }) refl
    filled size s then (hangs, rest) is_u32 e sized k =
        none_over _ s (record s { incoming = rest }) refl

    begun :
        (items : List Item) (s : Conn) (then : M Conn (Unit {0}))
        → All IsSized items
        → ((t : Conn) → All IsSized t.incoming → HandedOver t.incoming t (then t).1)
        → HandedOver items s
            (bind (next_of items s) λ first. lift (expect_window first) >>= round z cfg then).1
    unfolding next_of expect_window round fill
    begun [] s then sized k = none_over [] s s refl
    begun (broken e ∷ rest) s then sized k = none_over _ s (record s { incoming = rest }) refl
    begun (arrived (json seq payload) ∷ rest) s then sized k =
        none_over _ s (record s { incoming = rest }) refl
    begun (arrived (compressed inner) ∷ rest) s then sized k =
        none_over _ s (record s { incoming = rest }) refl
    begun (arrived (ack n) ∷ rest) s then sized k =
        none_over _ s (record s { incoming = rest }) refl
    begun (arrived (window size) ∷ rest) s then (is_u32, sized) k =
        filled size (record s { incoming = rest }) then
          (collect z cfg.max_frame_size size start rest) is_u32 refl
          (collect-All IsSized z cfg.max_frame_size size start rest sized) k

    serve-HandedOver :
        (fuel : ℕ) (s : Conn)
        → All IsSized s.incoming
        → HandedOver s.incoming s (serve z cfg fuel s).1
    unfolding serve next
    serve-HandedOver zero s sized = none_over s.incoming s s refl
    serve-HandedOver (suc fuel) s sized =
        begun s.incoming s (serve z cfg fuel) sized (λ t h. serve-HandedOver fuel t h)

    -- Whatever the peer sends (the windows being 32 bits wide), whatever the consumer does and
    -- whichever writes fail: the batches that a connection hands over are, in their order and from
    -- the start of the stream, one for each window, the payloads of the events that the `J` and `C`
    -- frames behind that window carry, a `C` frame from its front on, as many as the window says
    -- and with rising numbers, and the last of these numbers. Nothing is made up, doubled or
    -- reordered.
    pub run_connection-HandedOver :
        (s : Conn) → All IsSized s.incoming → HandedOver s.incoming s (run_connection z cfg s).1
    unfolding run_connection
    run_connection-HandedOver s sized = serve-HandedOver (suc (length s.incoming)) s sized
