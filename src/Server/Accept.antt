-- ===== src/Server/Accept.antt =====
-- src/server.rs: the accept loop that `bind` spawns, the gauge of live connections, and the drop
-- of the server. The loop, the handler tasks and the holder of the server run side by side: a
-- run is any sequence of their steps.
pub mod Gauge
pub mod Shutdown
mod UnitTests
use lumberjack_protocol.Error.{M, err, io, lift}
use lumberjack_protocol.Server.Connection.{Conn, ConnectionConfig, run_connection}
use lumberjack_protocol.Frame.Flate.{Zlib}
use lumberjack_protocol.Base.{
  if◌then◌else◌, ◌≡◌, ◌++◌, ℕ, [], Option, false, ◌∷◌, true, ◌+◌, List, String, ◌^◌, some, Bool,
  ◌%◌, ◌-◌, none,
}

-- Where the loop stands: about to poll `shutdown_rx`, with that poll pending and `accept` next, or
-- after the `break`.
pub data Phase : Type 0 where
  at_shutdown at_accept stopped : Phase

-- The state shared by the tasks. `open` holds the handler tasks that have not ended, `accepted`
-- counts them all, `active` is the gauge, `is_held` says that the server still has its shutdown
-- sender, and `is_signalled` that the loop's end of that channel has a message.
pub record Hub : Type 0 where
  pub phase : Phase
  pub active : ℕ
  pub open_tasks : List ℕ
  pub accepted : ℕ
  pub is_held : Bool
  pub is_signalled : Bool

unfoldable pub new_hub : Hub
new_hub = record {
  phase = at_shutdown;
  active = 0;
  open_tasks = [];
  accepted = 0;
  is_held = true;
  is_signalled = false;
}

-- `ActiveGuard::new` and `ActiveGuard::drop`: an `AtomicUsize` wraps.
pub guard_new : ℕ → ℕ
guard_new n = (n + 1) % 2 ^ 64

pub guard_drop : ℕ → ℕ
guard_drop n = (n + 2 ^ 64 - 1) % 2 ^ 64

-- A connection is accepted: its guard is made before its task is spawned.
unfoldable pub accept : Hub → Hub
unfolding guard_new
accept s = record s {
  phase = at_shutdown;
  active = guard_new s.active;
  open_tasks = s.open_tasks ++ s.accepted ∷ [];
  accepted = s.accepted + 1;
}

-- A task ends, one way or another, and its guard goes with it.
unfoldable pub finish : List ℕ → Hub → Hub
unfolding guard_drop
finish rest s = record s { active = guard_drop s.active; open_tasks = rest }

-- `Server::drop`: `if let Some(tx) = self.shutdown.take() { let _ = tx.send(()); }`
unfoldable pub drop_server : Hub → Hub
drop_server s = if s.is_held then record s { is_held = false; is_signalled = true } else s

-- `active_connections`
abbrev pub active_connections : Hub → ℕ
active_connections s = s.active

pub data Label : Type 0 where
  looks sees_shutdown accepts waits fails finishes drops : Label

-- The steps of the loop: its two polls in their `biased` order, with what each can give. `waits`
-- is a poll of `accept` that is pending; the `select!` then starts again.
pub data Step : Label → Hub → Hub → Type 0 where
  look :
      (s : Hub)
      → s.phase ≡ at_shutdown
      → s.is_signalled ≡ false
      → Step looks s (record s { phase = at_accept })
  see_shutdown :
      (s : Hub)
      → s.phase ≡ at_shutdown
      → s.is_signalled ≡ true
      → Step sees_shutdown s (record s { phase = stopped })
  accept_ok : (s : Hub) → s.phase ≡ at_accept → Step accepts s (accept s)
  wait : (s : Hub) → s.phase ≡ at_accept → Step waits s (record s { phase = at_shutdown })
  accept_err : (s : Hub) → s.phase ≡ at_accept → Step fails s (record s { phase = stopped })
  task_ends :
      (s : Hub) (before : List ℕ) (task : ℕ) (after : List ℕ)
      → s.open_tasks ≡ before ++ task ∷ after
      → Step finishes s (finish (before ++ after) s)
  dropped : (s : Hub) → Step drops s (drop_server s)

-- A sequence of steps, the first one first.
pub data Run : List Label → Hub → Hub → Type 0 where
  done : (s : Hub) → Run [] s s
  more : {l : Label} {ls : List Label} {s t u : Hub} → Step l s t → Run ls t u → Run (l ∷ ls) s u

-- The body of a handler task; the acceptor, if there is one, gives an error or a stream.
abbrev pub handle :
    Zlib → ConnectionConfig → (acceptor : Option (Option String)) → M Conn (Unit {0})
handle z cfg none = run_connection z cfg
handle z cfg (some none) = run_connection z cfg
handle z cfg (some (some m)) = λ s. (err (io m), s)
