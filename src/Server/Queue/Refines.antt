-- ===== src/Server/Queue/Refines.antt =====
-- src/server.rs: the shared channel keeps what each connection is promised.
use lumberjack_protocol.Server.Queue.{
  System, offer, submit, recv, release, drop_receiver, new_system, Act, Acts, History, spawn,
  offer_batch, send_ok, send_err, keepalive, ack_batch, leave_filling, leave_awaiting, recv_some,
  recv_none, finish_batch, lose_receiver, stop_listening, no_acts, and_then,
}
use lumberjack_protocol.Server.Queue.Promise.{Stage, not_yet, stay, Journey, here, onward, seen_all}
use lumberjack_protocol.Server.Queue.Owned.{
  owned, owned-append, owned-remove_ne, new-IsFresh, discard-owned,
}
use lumberjack_protocol.Server.Queue.Stages.{
  fits_unborn, Views, Follows, by_task, spawn_own, offer_own, submit_own, refuse_own, leave_own,
  leave_awaiting_own, keepalive_own, ack_own, recv_own, drop_own, finish_own,
}
use lumberjack_protocol.Server.Batch.{sender, new}
use lumberjack_protocol.Base.{ℕ, List, [], ◌∷◌, refl, true, ap, ==_refl, append-nil, ◌∙◌}

-- Whatever is done, and whoever does it, every connection follows.
Acts-Follows : {a : Act} {s t : System} → Acts a s t → (i : ℕ) → Follows a s t i
unfolding offer submit recv release drop_receiver
Acts-Follows {a} {t = t} (spawn s i on e) j =
    by_task a s t i (λ stage v. rw (==_refl i) (spawn_own (rw e at v)))
      (λ k h stage v. (stage, stay, rw h v)) j
Acts-Follows {a} {t = t} (offer_batch s i events n e) j =
    by_task a s t i
      (λ stage v.
        rw (==_refl i) (offer_own (new events n sender) (new-IsFresh events n) (rw e at v)))
      (λ k h stage v. rw h (stage, stay, v)) j
Acts-Follows {a} {t = t} (send_ok s i b e on room) j =
    by_task a s t i
      (λ stage v.
        rw (on, ==_refl i, owned-append i s.queue ((i, b) ∷ []), ==_refl i)
          (submit_own b (rw e at v)))
      (λ k h stage v. (stage, stay, rw (h, owned-append k s.queue ((i, b) ∷ []), h, append-nil) v))
      j
Acts-Follows {a} {t = t} (send_err s i b e off) j =
    by_task a s t i (λ stage v. rw (off, ==_refl i) (refuse_own b (rw e at v)))
      (λ k h stage v. (stage, stay, rw h v)) j
Acts-Follows {a} {t = t} (keepalive s i n e none_yet) j =
    by_task a s t i (λ stage v. rw (==_refl i, e, none_yet) (keepalive_own (rw (e, none_yet) at v)))
      (λ k h stage v. rw h (stage, stay, v)) j
Acts-Follows {a} {t = t} (ack_batch s i n seq more e got) j =
    by_task a s t i (λ stage v. rw (==_refl i, got) (ack_own (rw (e, got) at v)))
      (λ k h stage v. rw h (stage, stay, v)) j
Acts-Follows {a} {t = t} (leave_filling s i e) j =
    by_task a s t i (λ stage v. rw (==_refl i) (leave_own (rw e at v)))
      (λ k h stage v. (stage, stay, rw h v)) j
Acts-Follows {a} {t = t} (leave_awaiting s i n e) j =
    by_task a s t i (λ stage v. rw (==_refl i) (leave_awaiting_own n (rw e at v)))
      (λ k h stage v. (stage, stay, rw h v)) j
Acts-Follows {a} {t = t} (recv_some s i b rest on e) j =
    by_task a s t i
      (λ stage v.
        rw (on, ==_refl i, owned-append i s.held ((i, b) ∷ []), ==_refl i)
          (recv_own (rw (e, ==_refl i) at v)))
      (λ k h stage v.
        rw (h, owned-append k s.held ((i, b) ∷ []), h, append-nil) (stage, stay, rw (e, h) at v))
      j
Acts-Follows (recv_none s on off e gone) j = λ stage v. (stage, stay, v)
Acts-Follows {a} {t = t} (finish_batch s u before i b after e) j =
    by_task a s t i
      (λ stage v.
        rw (==_refl i, owned-append i before after)
          (finish_own u b (owned i before) (owned i after) v
            (ap (owned i) e ∙ rw (owned-append i before ((i, b) ∷ after), ==_refl i) refl)))
      (λ k h stage v. (stage, stay, rw (h, owned-remove_ne k i b before after h, ← e) v)) j
Acts-Follows (lose_receiver s on) j =
    λ stage v. rw (on, discard-owned j s.queue s.tasks) (drop_own v)
Acts-Follows (stop_listening s) j = λ stage v. (stage, stay, v)

History-refines :
    (i : ℕ) {acts : List Act} {s t : System} (stage : Stage)
    → History acts s t
    → Views i s stage
    → (stage' : Stage) × Journey s.is_open stage (seen_all i acts) t.is_open stage'
      × Views i t stage'
History-refines i stage (no_acts s) v = (stage, here stage, v)
History-refines i stage (and_then act later) v =
    let (stage', m, v') = Acts-Follows act i stage v in
    let (stage'', path, v'') = History-refines i stage' later v' in
    (stage'', onward m path refl, v'')

-- The bounded channel that all connections of a server share keeps what is promised to each of them
-- alone. Whatever the handler tasks, the accept loop and the holder of the server do, in whatever
-- order, with whatever capacity: what is seen at one connection (its batch is complete, `recv`
-- gives it, a keepalive, an acknowledgement, the drop of the server) is a path of the promise, in
-- which a batch of the connection is taken by `recv` and acknowledged with its last sequence number
-- once the application is done with it, before the next batch begins; keepalives come only while
-- there is no answer; a batch is refused only when the server has been dropped; and one that is in
-- the channel at that moment is acknowledged. The state of the system stands for the stage that the
-- path has come to.
pub new_system_refines :
    (capacity i : ℕ) (acts : List Act) (t : System)
    → History acts (new_system capacity) t
    → (stage : Stage) × Journey true not_yet (seen_all i acts) t.is_open stage × Views i t stage
unfolding new_system
new_system_refines capacity i acts t h = History-refines i not_yet h fits_unborn
