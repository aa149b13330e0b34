-- ===== src/Handlers/AttachApp.antt =====
-- `attach_app` of src/main.rs: attaches the debugger to a running process and detaches it.
pub mod Course
use jit_streamer_eb.Prelude.{ℕ, Bool, true, false, String, List, [], ◌∷◌, Result, ok, err}
use Prim.Native.String.{◌++◌}
use jit_streamer_eb.Db.{Sqlite}
use jit_streamer_eb.Device.{IdeviceError, TcpProvider, Device}
use jit_streamer_eb.Net.{IpAddr}
use jit_streamer_eb.Net.Hex.{show_02X}
use jit_streamer_eb.Flow.{Flow, pure, or_reply, some_or_reply, ◌>>=◌, ◌>>◌}
use jit_streamer_eb.Server.{Server, outside, send}
use jit_streamer_eb.Heartbeat.Manager.{kill}
use jit_streamer_eb.Handlers.Session.{label, find_device, start_heartbeat}

pub record AttachReturn : Type 0 where
  pub success : Bool
  pub message : String

-- `AttachReturn::fail`
unfoldable pub fail : String → AttachReturn
fail message = record { success = false; message = message }

abbrev pub attach_commands : ℕ → List String
attach_commands pid = ("vAttach;" ++ show_02X pid) ∷ "D" ∷ []

module _ {W Value : Type 0} (dev : Device W Value) where
  open dev use {
    PairingFile, DebugProxy, display, debug, core_proxy_connect, server_rsd_port,
    create_software_tunnel, connect, close, xpc_new, service_port, xpc_into_inner, debug_proxy_new,
    send_command, debug_proxy_service_name,
  }

  -- `for command in commands { … }`
  unfoldable pub send_commands : DebugProxy → List String → Flow (Server W) AttachReturn Unit
  send_commands dp [] = pure tt
  send_commands dp (command ∷ commands) = do
    sent ← outside (send_command dp command)
    or_reply (λ e. fail ("Failed to send command to debug server: " ++ debug e)) sent
    send_commands dp commands

  -- From the core device proxy to the last command.
  unfoldable pub attach : IpAddr → PairingFile → ℕ → Flow (Server W) AttachReturn Unit
  attach ip pairing_file pid = do
    connected ←
        outside
          (core_proxy_connect (record { addr = ip; pairing_file = pairing_file; label = label }))
    proxy ← or_reply (λ e. fail ("Failed to start core device proxy: " ++ display e)) connected
    let rsd_port = server_rsd_port proxy
    tunnel ←
        or_reply (λ e. fail ("Failed to create software tunnel: " ++ display e))
          (create_software_tunnel proxy)
    joined ← outside (connect tunnel rsd_port)
    or_reply (λ e. fail ("Failed to connect to RemoteXPC port: " ++ display e)) joined
    opened ← outside (xpc_new tunnel)
    xpc_client ← or_reply (λ e. fail "Failed to connect to RemoteXPC") opened
    service_port ←
        some_or_reply (fail "Device did not contain debug server service. Is the image mounted?")
          (service_port xpc_client debug_proxy_service_name)
    let adapter = xpc_into_inner xpc_client
    closed ← outside (close adapter)
    or_reply (λ e. fail ("Failed to close RemoteXPC port: " ++ debug e)) closed
    reached ← outside (connect adapter service_port)
    or_reply (λ e. fail ("Failed to connect to debug proxy port: " ++ debug e)) reached
    send_commands (debug_proxy_new adapter) (attach_commands pid)

  -- The handler; `pid` is a `u16`.
  unfoldable pub attach_app : Sqlite W → IpAddr → ℕ → Flow (Server W) AttachReturn AttachReturn
  attach_app db ip pid = do
    (udid, pairing_file) ← find_device db dev fail ip
    start_heartbeat db dev fail ip udid pairing_file
    attach ip pairing_file pid
    send (kill udid)
    pure (record { success = true; message = "" })
