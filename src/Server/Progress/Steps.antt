-- ===== src/Server/Progress/Steps.antt =====
-- src/server.rs: one round of each loop of `run_connection`.
use lumberjack_protocol.Server.Progress.{
  Progress, take_event, unpack, take_item, collect, ℕ, Zlib, Bytes, List, Item, is_empty, ok, err,
  bind, seq_out_of_order, connection_closed, decode_with_limit, only_json,
}
use lumberjack_protocol.Base.{
  ◌<◌, ◌≤◌, [], ◌∷◌, not, ◌≡◌, ◌++◌, le→ltb_false, ◌&&◌, le→leb, as_u32, lt→ltb, ltb, ◌+◌, false,
  true, suc, lt→leb_false,
}

pub take_event_fresh :
    (seq : ℕ) (payload : Bytes) (p : Progress)
    → p.prev_seq < seq
    → take_event seq payload p
      ≡ ok (record {
        events = p.events ++ payload ∷ [];
        received = as_u32 (p.received + 1);
        last_seq = seq;
        prev_seq = seq;
      })
unfolding take_event
take_event_fresh seq payload p h = rw (lt→leb_false _ _ h)

pub take_event_old :
    (seq : ℕ) (payload : Bytes) (p : Progress)
    → seq ≤ p.prev_seq
    → take_event seq payload p ≡ err (seq_out_of_order seq p.prev_seq)
unfolding take_event
take_event_old seq payload p h = rw (le→leb _ _ h)

module _ (z : Zlib) (max size : ℕ) where
  pub unpack_done :
      (fuel : ℕ) (p : Progress) (buf : Bytes)
      → (not (is_empty buf) && ltb p.received size) ≡ false
      → unpack z max size (suc fuel) p buf ≡ (ok p, buf)
  unfolding unpack
  unpack_done fuel p buf h = rw (h, unpack)

  pub unpack_more :
      (fuel : ℕ) (p : Progress) (buf : Bytes)
      → (not (is_empty buf) && ltb p.received size) ≡ true
      → unpack z max size (suc fuel) p buf
        ≡ bind (decode_with_limit z max buf) λ frame buf'.
          bind
            (only_json frame, buf')
            λ event buf''.
              bind (take_event event.0 event.1 p, buf'') λ p'. unpack z max size fuel p'
  unfolding unpack
  unpack_more fuel p buf h = rw (h, unpack)

  pub collect_full :
      (p : Progress) (items : List Item)
      → size ≤ p.received
      → collect z max size p items ≡ (ok p, items)
  unfolding collect
  collect_full p [] h = rw (le→ltb_false _ _ h)
  collect_full p (item ∷ rest) h = rw (le→ltb_false _ _ h, collect)

  pub collect_more :
      (p : Progress) (item : Item) (rest : List Item)
      → p.received < size
      → collect z max size p (item ∷ rest)
        ≡ bind (take_item z max size item p, rest) λ p' _. collect z max size p' rest
  unfolding collect
  collect_more p item rest h = rw (lt→ltb _ _ h, collect)

  pub collect_closed :
      (p : Progress) → p.received < size → collect z max size p [] ≡ (err connection_closed, [])
  unfolding collect
  collect_closed p h = rw (lt→ltb _ _ h)
