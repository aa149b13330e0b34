-- ===== src/Mount/Socket.antt =====
-- The websocket of src/mount.rs, which tells a client how the mount of its device goes. The socket
-- and the `watch` channel change while the handler waits, so that each turn of its loop brings what
-- it finds there.
pub mod Watched
pub mod Ending
pub mod Tests
use jit_streamer_eb.Prelude.{
  ℕ, Bool, true, false, Option, none, some, String, List, [], ◌∷◌, Result, ok, err,
}
use jit_streamer_eb.HashMap.{get}
use jit_streamer_eb.Db.{Sqlite}
use jit_streamer_eb.Net.{IpAddr}
use jit_streamer_eb.Net
use jit_streamer_eb.Flow.{Flow, pure, or_reply, some_or_reply, gets, call, ◌>>=◌}
use jit_streamer_eb.Server.{Server, Progress}
use jit_streamer_eb.Common.{get_udid_from_ip}

-- `f32`: zero, the conversion of a `usize`, and the division.
pub record Floats : Type 1 where
  pub F32 : Type 0
  pub zero_f32 : F32
  pub as_f32 : ℕ → F32
  pub div_f32 : F32 → F32 → F32

-- What `receiver.borrow()` shows, whether the socket takes the message, and whether
-- `receiver.changed()` succeeds.
pub record Turn : Type 0 where
  pub borrowed : Progress
  pub accepted : Bool
  pub changed : Bool

-- Why the handler returned: at once, with one message; since a message was not taken; since the
-- channel is closed. It is still `watching` when there are no more turns.
pub data Return : Type 0 where
  at_once unsent channel_closed watching : Return

module _ (floats : Floats) where
  open floats use {F32, zero_f32, as_f32, div_f32}

  pub record MountWebSocketMessage : Type 0 where
    pub ok : Bool
    pub percentage : F32
    pub error : Option String
    pub done : Bool

  abbrev pub error_message : String → MountWebSocketMessage
  error_message e = record { ok = false; percentage = zero_f32; error = some e; done = false }

  -- The device is not being mounted.
  abbrev pub idle_message : MountWebSocketMessage
  idle_message = record { ok = true; percentage = zero_f32; error = none; done = false }

  -- `match msg { … }`
  abbrev pub progress_message : Progress → MountWebSocketMessage
  progress_message (ok (a, b, complete)) = record {
    ok = true;
    percentage = div_f32 (as_f32 a) (as_f32 b);
    error = none;
    done = complete;
  }
  progress_message (err e) = error_message e

  -- The messages that were given to the socket, in order, and why the handler returned.
  abbrev pub Served : Type 0
  Served = List MountWebSocketMessage × Return

  -- How a turn ends, by whether its message is taken and the channel changes.
  abbrev pub after_message : MountWebSocketMessage → Served → Bool → Bool → Served
  after_message message rest false changed = (message ∷ [], unsent)
  after_message message rest true false = (message ∷ [], channel_closed)
  after_message message (messages, return) true true = (message ∷ messages, return)

  -- The loop.
  unfoldable pub watch_mount : List Turn → Served
  watch_mount [] = ([], watching)
  watch_mount (t ∷ turns) =
      after_message (progress_message t.borrowed) (watch_mount turns) t.accepted t.changed

  module _ {W : Type 0} (db : Sqlite W) where
    -- `turns` are what the loop finds with a receiver of the channel.
    unfoldable pub handle_socket : (ℕ → List Turn) → String → Flow (Server W) Served Served
    handle_socket turns ip = do
      found ← call (get_udid_from_ip db ip)
      udid ← or_reply (λ e. (error_message e ∷ [], at_once)) found
      cached ← gets (λ s. get udid s.own.mount_cache)
      receiver ← some_or_reply (idle_message ∷ [], at_once) cached
      pure (watch_mount (turns receiver))

    abbrev pub handle_upgrade : (ℕ → List Turn) → IpAddr → Flow (Server W) Served Served
    handle_upgrade turns ip = handle_socket turns (Net.to_string ip)
