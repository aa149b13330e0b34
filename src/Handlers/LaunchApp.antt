-- ===== src/Handlers/LaunchApp.antt =====
-- `launch_app` of src/main.rs: launches an app on the device, attaches the debugger to its process
-- and detaches it.
pub mod Course
use jit_streamer_eb.Prelude.{ℕ, Bool, true, false, Option, none, some, String, List, [], ◌∷◌}
use Prim.Native.String.{◌++◌}
use jit_streamer_eb.Db.{Sqlite}
use jit_streamer_eb.Device.{Device}
use jit_streamer_eb.Net.{IpAddr}
use jit_streamer_eb.Net.Hex.{show_02X}
use jit_streamer_eb.Flow.{Flow, pure, or_reply, some_or_reply, ◌>>=◌, ◌>>◌}
use jit_streamer_eb.Server.{Server, outside, send}
use jit_streamer_eb.Heartbeat.Manager.{kill}
use jit_streamer_eb.Handlers.Session.{label, find_device, start_heartbeat}

pub record LaunchAppReturn : Type 0 where
  pub ok : Bool
  pub launching : Bool
  pub position : Option ℕ
  pub error : Option String
  pub mounting : Bool

-- The reply that the handler writes out at each of its failures.
unfoldable pub failure : String → LaunchAppReturn
failure message = record {
  ok = false;
  launching = false;
  position = none;
  error = some message;
  mounting = false;
}

abbrev pub success : LaunchAppReturn
success = record { ok = true; launching = true; position = some 0; error = none; mounting = false }

abbrev pub launch_commands : ℕ → List String
launch_commands pid = ("vAttach;" ++ show_02X pid) ∷ "D" ∷ "D" ∷ "D" ∷ "D" ∷ []

module _ {W Value : Type 0} (dev : Device W Value) where
  open dev use {
    PairingFile, XpcDevice, RemoteServer, DebugProxy, display, debug, core_proxy_connect,
    server_rsd_port, create_software_tunnel, connect, close, xpc_new, service_port, xpc_into_inner,
    remote_server_new, read_message, remote_server_into_inner, process_control_new,
    launch_app as launch_process, disable_memory_limit, debug_proxy_new, send_command,
    dvt_service_name, debug_proxy_service_name,
  }

  -- From the core device proxy to the ports of the two services.
  unfoldable pub open_services :
      IpAddr → PairingFile → Flow (Server W) LaunchAppReturn (XpcDevice × ℕ × ℕ)
  open_services ip pairing_file = do
    connected ←
        outside
          (core_proxy_connect (record { addr = ip; pairing_file = pairing_file; label = label }))
    proxy ← or_reply (λ e. failure ("Failed to start core device proxy: " ++ display e)) connected
    let rsd_port = server_rsd_port proxy
    adapter ←
        or_reply (λ e. failure ("Failed to create software tunnel: " ++ display e))
          (create_software_tunnel proxy)
    joined ← outside (connect adapter rsd_port)
    or_reply (λ e. failure ("Failed to connect to RemoteXPC port: " ++ display e)) joined
    opened ← outside (xpc_new adapter)
    xpc_client ← or_reply (λ e. failure "Failed to connect to RemoteXPC") opened
    dvt_port ←
        some_or_reply (failure "Device did not contain DVT service. Is the image mounted?")
          (service_port xpc_client dvt_service_name)
    debug_proxy_port ←
        some_or_reply (failure "Device did not contain debug server service. Is the image mounted?")
          (service_port xpc_client debug_proxy_service_name)
    pure (xpc_client, dvt_port, debug_proxy_port)

  -- From the RemoteXPC client to the process of the app. That the memory limit could not be
  -- disabled is only logged.
  unfoldable pub launch :
      XpcDevice → ℕ → String → Flow (Server W) LaunchAppReturn (RemoteServer × ℕ)
  launch xpc_client dvt_port bundle_id = do
    let adapter = xpc_into_inner xpc_client
    closed ← outside (close adapter)
    or_reply (λ e. failure "Failed to close RemoteXPC port") closed
    joined ← outside (connect adapter dvt_port)
    or_reply (λ e. failure "Failed to connect to DVT port") joined
    rs_client ←
        or_reply (λ e. failure ("Failed to create remote server client: " ++ debug e))
          (remote_server_new adapter)
    message ← outside (read_message rs_client 0)
    or_reply (λ e. failure ("Failed to read first message from remote server client: " ++ debug e))
        message
    controlled ← outside (process_control_new rs_client)
    pc_client ←
        or_reply (λ e. failure ("Failed to create process control client: " ++ debug e)) controlled
    launched ← outside (launch_process pc_client bundle_id)
    pid ← or_reply (λ e. failure ("Failed to launch app: " ++ debug e)) launched
    limit ← outside (disable_memory_limit pc_client pid)
    pure (rs_client, pid)

  -- `for command in commands { … }`
  unfoldable pub send_commands : DebugProxy → List String → Flow (Server W) LaunchAppReturn Unit
  send_commands dp [] = pure tt
  send_commands dp (command ∷ commands) = do
    sent ← outside (send_command dp command)
    or_reply (λ e. failure ("Failed to send command to debug server: " ++ debug e)) sent
    send_commands dp commands

  -- From the process to the last command of the debugger.
  unfoldable pub debug_process : RemoteServer → ℕ → ℕ → Flow (Server W) LaunchAppReturn Unit
  debug_process rs_client debug_proxy_port pid = do
    let adapter = remote_server_into_inner rs_client
    closed ← outside (close adapter)
    or_reply (λ e. failure "Failed to close RemoteXPC port") closed
    joined ← outside (connect adapter debug_proxy_port)
    or_reply (λ e. failure "Failed to connect to debug proxy port") joined
    send_commands (debug_proxy_new adapter) (launch_commands pid)

  -- What the handler does with the device between the heartbeat's start and its end.
  unfoldable pub work : IpAddr → String → PairingFile → Flow (Server W) LaunchAppReturn Unit
  work ip bundle_id pairing_file = do
    (xpc_client, dvt_port, debug_proxy_port) ← open_services ip pairing_file
    (rs_client, pid) ← launch xpc_client dvt_port bundle_id
    debug_process rs_client debug_proxy_port pid

  unfoldable pub launch_app :
      Sqlite W → IpAddr → String → Flow (Server W) LaunchAppReturn LaunchAppReturn
  launch_app db ip bundle_id = do
    (udid, pairing_file) ← find_device db dev failure ip
    start_heartbeat db dev failure ip udid pairing_file
    work ip bundle_id pairing_file
    send (kill udid)
    pure success
