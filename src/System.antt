-- ===== src/System.antt =====
-- The server at work: what the requests, the mount tasks and the heartbeat manager of src/main.rs,
-- src/mount.rs and src/heartbeat.rs do to the state that they share, one step at a time. Between an
-- `.await` and the next another request may take its steps.
pub mod Invariant
pub mod Heartbeats
pub mod Walks
pub mod Requests
pub mod Receivers
mod Tests
use jit_streamer_eb.Prelude.{
  ℕ, suc, ◌+◌, ◌<◌, ◌≤◌, ◌==◌, String, Option, some, List, [], ◌∷◌, ◌++◌, ◌≡◌, ◌⊎◌, ok, length, set,
  false,
}
use jit_streamer_eb.HashMap.{get, insert}
use jit_streamer_eb.Server.{Own, Progress, Change}
use jit_streamer_eb.Heartbeat.Manager.{Sender, SendRequest, kill, store}
use jit_streamer_eb.Heartbeat.Manager.Accounts.{count, stored}
use jit_streamer_eb.Mount.{forget}

-- The state of the program, with the senders of the heartbeats that were started and whose `Store`
-- has not reached the manager's channel yet.
pub record Config : Type 0 where
  pub own : Own
  pub flying : List (String × Sender)

-- The device stands in the list with the number of its channel.
abbrev pub HasEntry : String → ℕ → List (String × ℕ) → Type 0
HasEntry udid channel [] = ⊥
HasEntry udid channel ((j, c) ∷ l) = ((j ≡ udid) × (c ≡ channel)) ⊎ HasEntry udid channel l

abbrev pub started : String → Config → Config
started udid c = record {
  own = record c.own {
    next_sender = suc c.own.next_sender;
    beating = (udid, c.own.next_sender) ∷ c.own.beating;
  };
  flying = (udid, c.own.next_sender) ∷ c.flying;
}

-- The channel of a mount task, and the task.
abbrev pub spawned : String → Own → Own
spawned udid own = record own {
  channels = own.channels ++ (ok (0, 100, false) ∷ []);
  mounting = (udid, length own.channels) ∷ own.mounting;
}

pub data Step (c d : Config) : Type 0 where
  -- `heartbeat_thread` starts a loop, and its sender is sent to the manager later.
  start : (udid : String) → d ≡ started udid c → Step c d
  deliver :
      (udid : String) (s : Sender) (before behind : List (String × Sender))
      → c.flying ≡ before ++ ((udid, s) ∷ behind)
      → d ≡ record {
        own = record c.own { sent = c.own.sent ++ (store udid s ∷ []) };
        flying = before ++ behind;
      }
      → Step c d
  tell_kill :
      (udid : String)
      → d ≡ record c { own = record c.own { sent = c.own.sent ++ (kill udid ∷ []) } }
      → Step c d
  -- `mount_thread` spawns a task, whose receiver goes into the cache later.
  spawn : (udid : String) → d ≡ record c { own = spawned udid c.own } → Step c d
  remember :
      (udid : String) (channel : ℕ)
      → HasEntry udid channel c.own.mounting
      → d ≡ record c { own = record c.own { mount_cache = insert udid channel c.own.mount_cache } }
      → Step c d
  report :
      (channel : ℕ) (p : Progress)
      → d ≡ record c { own = record c.own { channels = set c.own.channels channel p } }
      → Step c d
  settle : (udid : String) → d ≡ record c { own = forget udid c.own } → Step c d
  alter :
      (what : Change)
      → d ≡ record c { own = record c.own { changes = c.own.changes ++ (what ∷ []) } }
      → Step c d

pub data Reach (c : Config) : Config → Type 0 where
  here : Reach c c
  next : {d e : Config} → Reach c d → Step d e → Reach c e

pub Reach-trans : {c d e : Config} → Reach c d → Reach d e → Reach c e
Reach-trans r here = r
Reach-trans r (next q st) = next (Reach-trans r q) st

-- A server that has just started.
abbrev pub initial : Own
initial = record {
  sent = [];
  next_sender = 0;
  beating = [];
  mount_cache = [];
  channels = [];
  mounting = [];
  changes = [];
}

abbrev pub second : {A : Type 0} → List (String × A) → List A
second [] = []
second ((k, a) ∷ l) = a ∷ second l

-- The devices and senders of the `Store` requests.
abbrev pub pairs : List SendRequest → List (String × Sender)
pairs [] = []
pairs (store udid s ∷ rest) = (udid, s) ∷ pairs rest
pairs (kill udid ∷ rest) = pairs rest

-- What is to hold at all times: of the senders of the heartbeats, of the channels of the mount
-- tasks, and of the receivers in the mount cache.
pub record Valid (c : Config) : Type 0 where
  pub senders : (s : Sender) → c.own.next_sender ≤ s → count s (second c.own.beating) ≡ 0
  pub once : (s : Sender) → count s (second c.own.beating) ≤ 1
  pub sent_or_flying :
      (s : Sender)
      → count s (second c.own.beating) ≡ count s (second c.flying) + count s (stored c.own.sent)
  pub flying_started :
      (udid : String) (s : Sender) → HasEntry udid s c.flying → HasEntry udid s c.own.beating
  pub sent_started :
      (udid : String) (s : Sender)
      → HasEntry udid s (pairs c.own.sent)
      → HasEntry udid s c.own.beating
  pub tasks : (n : ℕ) → length c.own.channels ≤ n → count n (second c.own.mounting) ≡ 0
  pub own_channel : (n : ℕ) → count n (second c.own.mounting) ≤ 1
  pub receivers :
      (udid : String) (channel : ℕ)
      → get udid c.own.mount_cache ≡ some channel
      → HasEntry udid channel c.own.mounting
