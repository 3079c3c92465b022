-- ===== src/Server/Queue.antt =====
-- src/server.rs: the bounded channel that the handler tasks of a server share with `Server::recv`.
-- The tasks, the accept loop and the holder of the server run side by side: a history is any
-- sequence of what they do.
pub mod Promise
pub mod Owned
pub mod Stages
pub mod Refines
pub mod Sights
pub mod Delivery
pub mod Script
pub mod Adequate
pub mod Order
pub mod Close
use lumberjack_protocol.Server.Batch.{Batch, Channel, sender, Usage, drops, consume, new}
use lumberjack_protocol.Server.Connection.{acked}
use lumberjack_protocol.Base.{
  ℕ, List, [], ◌∷◌, ◌++◌, Bool, true, false, ◌≡◌, ◌<◌, ◌==◌, if◌then◌else◌, length, Bytes, ◌⊎◌,
}

-- Where a handler task stands: it is not spawned; it reads a window; it is at
-- `out.send(batch).await`; it waits on `ack_rx`, with its `last_seq`; it has ended.
pub data Pc : Type 0 where
  unborn : Pc
  filling : Pc
  offering : Batch → Pc
  awaiting : ℕ → Pc
  over : Pc

-- A task, and what its current `ack_rx` has received.
pub record Task : Type 0 where
  pub pc : Pc
  pub mailbox : Channel

-- `queue` is the channel, a batch with the task that waits for it; `held` are the batches that
-- `recv` has returned and that the application has not done with. `is_open` says that the server
-- still has the receiver, `is_listening` that the accept loop has not ended.
pub record System : Type 0 where
  pub capacity : ℕ
  pub is_open : Bool
  pub is_listening : Bool
  pub queue : List (ℕ × Batch)
  pub held : List (ℕ × Batch)
  pub tasks : ℕ → Task

-- `mpsc::channel::<Batch>(self.channel_capacity)`, before the accept loop is spawned.
unfoldable pub new_system : ℕ → System
new_system capacity = record {
  capacity = capacity;
  is_open = true;
  is_listening = true;
  queue = [];
  held = [];
  tasks = λ i. record { pc = unborn; mailbox = [] };
}

abbrev pub put : (ℕ → Task) → ℕ → Task → ℕ → Task
put tasks i t j = if i == j then t else tasks j

abbrev pub move : ℕ → Pc → System → System
move i pc s = record s { tasks = put s.tasks i (record (s.tasks i) { pc = pc }) }

-- `let (ack_tx, mut ack_rx) = oneshot::channel(); let batch = Batch::new(events, last_seq, ack_tx);`
unfoldable pub offer : ℕ → List Bytes → ℕ → System → System
offer i events last_seq s = record s {
  tasks = put s.tasks i (record { pc = offering (new events last_seq sender); mailbox = [] });
}

-- `out.send(batch).await`, when there is room; the task keeps `last_seq` and `ack_rx`.
unfoldable pub submit : ℕ → Batch → System → System
submit i batch s = record (move i (awaiting batch.last_seq) s) {
  queue = s.queue ++ (i, batch) ∷ [];
}

-- `self.rx.recv().await`, where the channel is not empty.
unfoldable pub recv : ℕ × Batch → List (ℕ × Batch) → System → System
recv entry rest s = record s { queue = rest; held = s.held ++ entry ∷ [] }

-- A batch is acknowledged, dropped or turned into its events; a task has one batch under way at
-- most, so that the sender in it goes with the `ack_rx` that its task has now.
abbrev pub respond : Usage → Batch → Task → Task
respond usage batch t = record t { mailbox = consume usage batch t.mailbox }

unfoldable pub release : Usage → ℕ × Batch → List (ℕ × Batch) → System → System
release usage (i, batch) rest s = record s {
  held = rest;
  tasks = put s.tasks i (respond usage batch (s.tasks i));
}

-- The batches in a channel are dropped with its receiver.
unfoldable pub discard : List (ℕ × Batch) → (ℕ → Task) → ℕ → Task
discard [] tasks = tasks
discard ((i, batch) ∷ rest) tasks = discard rest (put tasks i (respond drops batch (tasks i)))

-- The drop of the server, as far as the channel goes: its field `rx` is dropped.
unfoldable pub drop_receiver : System → System
unfolding discard
drop_receiver s = record s { is_open = false; queue = []; tasks = discard s.queue s.tasks }

-- What is done, and by which task: what `Ack` a task writes, how an application is done with a
-- batch.
pub data Act : Type 0 where
  spawns : ℕ → Act
  offers : ℕ → Batch → Act
  submits : ℕ → Batch → Act
  is_refused : ℕ → Act
  keeps_alive : ℕ → Act
  acknowledges : ℕ → ℕ → Act
  leaves : ℕ → Act
  receives : ℕ → Batch → Act
  receives_none : Act
  finishes : ℕ → Batch → Act
  drops_receiver : Act
  stops_listening : Act

-- A task that has not been spawned, or has ended, has no sender of the channel.
abbrev pub HasNoSender : Task → Type 0
HasNoSender t = (t.pc ≡ unborn) ⊎ (t.pc ≡ over)

-- The conditions are those of the code and of the channel: a send waits for room and fails without
-- a receiver; the `select!` looks at `ack_rx` first; `recv` gives `None` when nothing is left and no
-- sender is. The end of a task covers the end of its stream, a bad frame and a failed write.
pub data Acts : Act → System → System → Type 0 where
  spawn :
      (s : System) (i : ℕ)
      → s.is_listening ≡ true
      → (s.tasks i).pc ≡ unborn
      → Acts (spawns i) s (move i filling s)
  offer_batch :
      (s : System) (i : ℕ) (events : List Bytes) (last_seq : ℕ)
      → (s.tasks i).pc ≡ filling
      → Acts (offers i (new events last_seq sender)) s (offer i events last_seq s)
  send_ok :
      (s : System) (i : ℕ) (batch : Batch)
      → (s.tasks i).pc ≡ offering batch
      → s.is_open ≡ true
      → length s.queue < s.capacity
      → Acts (submits i batch) s (submit i batch s)
  send_err :
      (s : System) (i : ℕ) (batch : Batch)
      → (s.tasks i).pc ≡ offering batch
      → s.is_open ≡ false
      → Acts (is_refused i) s (move i over s)
  keepalive :
      (s : System) (i last_seq : ℕ)
      → (s.tasks i).pc ≡ awaiting last_seq
      → (s.tasks i).mailbox ≡ []
      → Acts (keeps_alive i) s s
  ack_batch :
      (s : System) (i last_seq seq : ℕ) (more : Channel)
      → (s.tasks i).pc ≡ awaiting last_seq
      → (s.tasks i).mailbox ≡ seq ∷ more
      → Acts (acknowledges i (acked last_seq (seq ∷ more))) s (move i filling s)
  leave_filling :
      (s : System) (i : ℕ) → (s.tasks i).pc ≡ filling → Acts (leaves i) s (move i over s)
  leave_awaiting :
      (s : System) (i last_seq : ℕ)
      → (s.tasks i).pc ≡ awaiting last_seq
      → Acts (leaves i) s (move i over s)
  recv_some :
      (s : System) (i : ℕ) (batch : Batch) (rest : List (ℕ × Batch))
      → s.is_open ≡ true
      → s.queue ≡ (i, batch) ∷ rest
      → Acts (receives i batch) s (recv (i, batch) rest s)
  recv_none :
      (s : System)
      → s.is_open ≡ true
      → s.is_listening ≡ false
      → s.queue ≡ []
      → ((i : ℕ) → HasNoSender (s.tasks i))
      → Acts receives_none s s
  finish_batch :
      (s : System) (usage : Usage) (before : List (ℕ × Batch)) (i : ℕ) (batch : Batch)
      (after : List (ℕ × Batch))
      → s.held ≡ before ++ (i, batch) ∷ after
      → Acts (finishes i batch) s (release usage (i, batch) (before ++ after) s)
  lose_receiver : (s : System) → s.is_open ≡ true → Acts drops_receiver s (drop_receiver s)
  stop_listening : (s : System) → Acts stops_listening s (record s { is_listening = false })

-- A sequence of acts, the first one first.
pub data History : List Act → System → System → Type 0 where
  no_acts : (s : System) → History [] s s
  and_then :
      {a : Act} {acts : List Act} {s t u : System}
      → Acts a s t
      → History acts t u
      → History (a ∷ acts) s u
