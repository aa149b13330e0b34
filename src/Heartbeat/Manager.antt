-- ===== src/Heartbeat/Manager.antt =====
-- `heartbeat` of src/heartbeat.rs: the manager holds for each device the sender of the oneshot
-- channel that stops its heartbeat, and takes requests one by one from an mpsc channel.
pub mod Accounts
pub mod Latest
use jit_streamer_eb.Prelude.{ℕ, Option, none, some, String, List, [], ◌∷◌, ◌++◌}
use jit_streamer_eb.HashMap.{HashMap, get, insert, remove}

-- `oneshot::Sender<()>`: a number names the channel.
abbrev pub Sender : Type 0
Sender = ℕ

pub data SendRequest : Type 0 where
  store : String → Sender → SendRequest
  kill : String → SendRequest

-- The task's cache, and the senders on which it has called `send(())`, the last one first.
pub record Manager : Type 0 where
  pub cache : HashMap Sender
  pub signalled : List Sender

abbrev pub start : Manager
start = record { cache = []; signalled = [] }

-- `if let Some(old_sender) = … { old_sender.send(()).ok(); }`
abbrev pub signal : Option Sender → List Sender → List Sender
signal none l = l
signal (some old) l = old ∷ l

unfoldable pub handle : Manager → SendRequest → Manager
handle m (store udid sender) = record {
  cache = insert udid sender m.cache;
  signalled = signal (get udid m.cache) m.signalled;
}
handle m (kill udid) = record {
  cache = remove udid m.cache;
  signalled = signal (get udid m.cache) m.signalled;
}

-- `while let Some(msg) = receiver.recv().await`
unfoldable pub run : Manager → List SendRequest → Manager
run m [] = m
run m (msg ∷ rest) = run (handle m msg) rest
