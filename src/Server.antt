-- ===== src/Server.antt =====
-- The state that the request handlers of src/main.rs and src/mount.rs share (`JitStreamerState`),
-- and how a handler reaches what is outside the program.
pub mod Quiet
use jit_streamer_eb.Prelude.{ℕ, suc, Bool, String, List, [], ◌∷◌, ◌++◌, Result}
use jit_streamer_eb.HashMap.{HashMap}
use jit_streamer_eb.Net.{Ipv6}
use jit_streamer_eb.Heartbeat.Manager.{Sender, SendRequest, store, kill}
use jit_streamer_eb.Flow.{Outcome, next, reply, panicked, Flow}

-- What a `watch` channel of a mount holds: the two numbers of the progress and whether it is
-- complete, or an error.
abbrev pub Progress : Type 0
Progress = Result (ℕ × ℕ × Bool) String

-- What a registration changes on its host, other than by the programs that it calls: the row of a
-- device, a WireGuard configuration and its peers by their public keys, a stored property list, the
-- task that inserts a device, and the commands that it runs.
pub data Change : Type 0 where
  deleted : String → Change
  configured : String → Change
  unpeered : String → Change
  peered : Ipv6 → Change
  stored : String → List ℕ → Change
  inserting : String → Ipv6 → Change
  ran : String → Change

-- What the program itself holds. `sent` is what has gone into the heartbeat manager's channel, in
-- order; the manager lives as long as the state, so that a send never fails. `next_sender` numbers
-- the oneshot channels, and `beating` lists the heartbeat loops that were started. A receiver in the
-- mount cache is the number of its `watch` channel in `channels`, and `mounting` lists the mount
-- tasks that were spawned, each with the channel that it sends to. `changes` keeps what the
-- registrations have changed, in order.
pub record Own : Type 0 where
  pub sent : List SendRequest
  pub next_sender : Sender
  pub beating : List (String × Sender)
  pub mount_cache : HashMap ℕ
  pub channels : List Progress
  pub mounting : List (String × ℕ)
  pub changes : List Change

pub record Server (W : Type 0) : Type 0 where
  pub world : W
  pub pairing_file_storage : String
  pub own : Own

module _ {W R A : Type 0} where
  -- A step that only the world outside sees.
  unfoldable pub outside : (W → A × W) → Flow (Server W) R A
  outside f s = let (a, w) = f s.world in (next a, record s { world = w })

module _ {W R : Type 0} where
  -- `state.new_heartbeat_sender.send(…).await.unwrap()`
  unfoldable pub send : SendRequest → Flow (Server W) R Unit
  send msg s = (next tt, record s { own = record s.own { sent = s.own.sent ++ (msg ∷ []) } })

  -- `oneshot::channel::<()>()` and the spawn of the heartbeat's loop with its receiver.
  unfoldable pub spawn_heartbeat : String → Flow (Server W) R Sender
  spawn_heartbeat udid s =
      let fresh = s.own.next_sender in
      (
        next fresh,
        record s {
          own = record s.own { next_sender = suc fresh; beating = (udid, fresh) ∷ s.own.beating };
        },
      )

  unfoldable pub change : Change → Flow (Server W) R Unit
  change c s = (next tt, record s { own = record s.own { changes = s.own.changes ++ (c ∷ []) } })
