-- ===== src/DbServer/Writer.antt =====
-- The threads of the constructor of DBServer.cpp: two that put messages into the queue (`UpdateThread`), and one
-- that takes them out and handles them (`DBWriterThread`).
pub mod Order
mod Steps
pub mod Stopped
use game_programmer_portfoli.Base.{
  ℕ, ◌+◌, ◌≡◌, Bool, true, false, List, [], ◌∷◌, ◌++◌, ◌==◌, if◌then◌else◌, is_null,
}
use game_programmer_portfoli.DbServer.{Message, Database, DbServer, write}

-- A thread that puts messages into the queue: before the next of them, or between `push` and `SetEvent`;
-- the last one of the two waits for the queue to be empty, sets `bTerminate`, and sets the event.
pub data Updater : Type 0 where
  making : List Message → Updater
  signalling : List Message → Updater
  awaiting : Updater
  terminating : Updater
  last_signal : Updater
  ended : Updater

-- The thread that writes: at the wait, at the lock, with a message, at the test of `bTerminate`.
pub data Writer : Type 0 where
  waits : Writer
  pops : Writer
  handles : Message → Writer
  tests : Writer
  stopped : Writer

-- What the threads share, with where the writer is. `pushed` and `handled` are the messages that
-- have gone into the queue and that were handled, in this order.
pub record Shared (D : Type 0) : Type 0 where
  pub queue : List Message
  pub event : Bool
  pub finished : ℕ
  pub terminate : Bool
  pub writer : Writer
  pub server : DbServer D
  pub pushed : List Message
  pub handled : List Message

pub record World (D : Type 0) : Type 0 where
  pub shared : Shared D
  pub first : Updater
  pub second : Updater

-- The end of `UpdateThread`: `mFinishedUpdateThreads.fetch_add(1) + 1 == 2`.
abbrev pub after_last : ℕ → Updater
after_last finished = if finished + 1 == 2 then awaiting else ended

-- `DBQueue.empty()`, and 100 ms of sleep if it is not.
abbrev pub after_check : List Message → Updater
after_check queue = if is_null queue then terminating else awaiting

-- The next step of a thread that puts messages in. The event resets by itself, so that it is set or not.
abbrev pub update : {D : Type 0} → Shared D → Updater → Shared D × Updater
update s (making []) = (record s { finished = s.finished + 1 }, after_last s.finished)
update s (making (m ∷ ms)) =
    (record s { queue = s.queue ++ (m ∷ []); pushed = s.pushed ++ (m ∷ []) }, signalling ms)
update s (signalling ms) = (record s { event = true }, making ms)
update s awaiting = (s, after_check s.queue)
update s terminating = (record s { terminate = true }, last_signal)
update s last_signal = (record s { event = true }, ended)
update s ended = (s, ended)

-- The writer at the lock.
abbrev pub pop : {D : Type 0} → Shared D → List Message → Shared D
pop s [] = record s { writer = tests }
pop s (m ∷ ms) = record s { queue = ms; writer = handles m }

module _ {D Tables : Type 0} (db : Database D Tables) where
  -- The next step of the writer.
  abbrev pub go_on : Shared D → Writer → Shared D
  go_on s waits = if s.event then record s { event = false; writer = pops } else s
  go_on s pops = pop s s.queue
  go_on s (handles m) = record s {
    server = write db s.server m;
    handled = s.handled ++ (m ∷ []);
    writer = pops;
  }
  go_on s tests = record s { writer = if s.terminate then stopped else waits }
  go_on s stopped = s

  -- A step of one of the threads.
  pub data Step (w : World D) : World D → Type 0 where
    first_goes :
        Step w
          (record w { shared = (update w.shared w.first).0; first = (update w.shared w.first).1 })
    second_goes :
        Step w (record w {
          shared = (update w.shared w.second).0;
          second = (update w.shared w.second).1;
        })
    writer_goes : Step w (record w { shared = go_on w.shared w.shared.writer })

  pub data Reaches (w : World D) : World D → Type 0 where
    here : Reaches w w
    later : {u v : World D} → Reaches w u → Step u v → Reaches w v

-- The start, with the messages that the two threads will make.
abbrev pub begun : {D : Type 0} → DbServer D → List Message → List Message → World D
begun server as_ bs = record {
  shared = record {
    queue = [];
    event = false;
    finished = 0;
    terminate = false;
    writer = waits;
    server = server;
    pushed = [];
    handled = [];
  };
  first = making as_;
  second = making bs;
}
