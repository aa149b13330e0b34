-- ===== src/Handlers/Session.antt =====
-- What the handlers of src/main.rs have in common: they find the device of the address, read its
-- pairing file, start a heartbeat and give its sender to the manager; and `heartbeat_thread` of
-- src/heartbeat.rs.
pub mod Course
use jit_streamer_eb.Prelude.{ℕ, String, List, [], ◌∷◌, Result, ok, err}
use Prim.Native.String.{◌++◌}
use jit_streamer_eb.Db.{Sqlite}
use jit_streamer_eb.Device.{
  IdeviceError, invalid_host_id, unexpected_response, other, TcpProvider, Device,
}
use jit_streamer_eb.Net.{IpAddr}
use jit_streamer_eb.Net
use jit_streamer_eb.Flow.{Flow, pure, or_reply, gets, call, ◌>>=◌, ◌>>◌}
use jit_streamer_eb.Server.{Server, outside, send, spawn_heartbeat}
use jit_streamer_eb.Heartbeat.Manager.{Sender, store}
use jit_streamer_eb.Common.{get_udid_from_ip, get_pairing_file}

abbrev pub label : String
label = "JitStreamer-EB"

module _ {W Value : Type 0} (db : Sqlite W) (dev : Device W Value) where
  open dev use {PairingFile, display, debug, heartbeat_connect}

  -- `heartbeat_thread`: the loop itself is `beat`, which the spawned task runs.
  unfoldable pub heartbeat_thread :
      String
      → IpAddr
      → PairingFile
      → Flow (Server W) (Result Sender IdeviceError) (Result Sender IdeviceError)
  heartbeat_thread udid ip pairing_file = do
    connected ←
        outside
          (heartbeat_connect (record { addr = ip; pairing_file = pairing_file; label = label }))
    or_reply (λ e. err e) connected
    sender ← spawn_heartbeat udid
    pure (ok sender)

  -- The handlers' `match e { InvalidHostID => …, _ => e.to_string() }`.
  abbrev pub explain : IdeviceError → String
  explain invalid_host_id = "your pairing file is invalid. Regenerate it with jitterbug pair."
  explain unexpected_response = display unexpected_response
  explain (other n) = display (other n)

  module _ {R : Type 0} (fail : String → R) where
    -- The device of the address and its pairing file.
    unfoldable pub find_device : IpAddr → Flow (Server W) R (String × PairingFile)
    find_device ip = do
      found ← call (get_udid_from_ip db (Net.to_string ip))
      udid ← or_reply fail found
      storage ← gets (λ s. s.pairing_file_storage)
      read ← call (get_pairing_file dev udid storage)
      pairing_file ← or_reply (λ e. fail ("Failed to get pairing file: " ++ debug e)) read
      pure (udid, pairing_file)

    -- Starts the device's heartbeat and stores its sender.
    unfoldable pub start_heartbeat : IpAddr → String → PairingFile → Flow (Server W) R Unit
    start_heartbeat ip udid pairing_file = do
      started ← call (heartbeat_thread udid ip pairing_file)
      sender ← or_reply (λ e. fail ("Failed to heartbeat device: " ++ explain e)) started
      send (store udid sender)
