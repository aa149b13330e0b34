-- ===== src/Device.antt =====
-- What the program asks of crates and systems that are not part of the repository: `idevice` (the
-- services of an iOS device), `plist` and the file system. The fields are named after the calls in
-- the source; a call takes the world from one state to the next, and its handle may refer to the
-- world.
use jit_streamer_eb.Prelude.{ℕ, Bool, Option, String, List, Result}
use jit_streamer_eb.Net.{IpAddr}

-- `idevice::IdeviceError`: the two variants that the source names, and the others by a number.
pub data IdeviceError : Type 0 where
  invalid_host_id unexpected_response : IdeviceError
  other : ℕ → IdeviceError

-- `plist::Value` as far as the source tells its variants apart.
pub data Shape (Dictionary : Type 0) : Type 0 where
  dictionary : Dictionary → Shape Dictionary
  string : String → Shape Dictionary
  boolean : Bool → Shape Dictionary
  other_shape : Shape Dictionary

pub record Plist : Type 1 where
  pub Value : Type 0
  pub Dictionary : Type 0
  pub shape : Value → Shape Dictionary
  -- `dictionary.get(key)`, and what `dictionary.remove(key)` returns
  pub get : Dictionary → String → Option Value

-- `TcpProvider { addr, pairing_file, label }`
pub record TcpProvider (PairingFile : Type 0) : Type 0 where
  pub addr : IpAddr
  pub pairing_file : PairingFile
  pub label : String

-- Calls that may fail with an `IdeviceError`.
abbrev pub Call : Type 0 → Type 0 → Type 0
Call W A = W → Result A IdeviceError × W

pub record Device (W : Type 0) (Value : Type 0) : Type 1 where
  pub PairingFile : Type 0
  pub HeartbeatClient : Type 0
  pub InstallationProxy : Type 0
  pub CoreDeviceProxy : Type 0
  pub Adapter : Type 0
  pub XpcDevice : Type 0
  pub RemoteServer : Type 0
  pub ProcessControl : Type 0
  pub DebugProxy : Type 0
  -- `{e}` and `{e:?}`
  pub display : IdeviceError → String
  pub debug : IdeviceError → String
  -- `tokio::fs::read(path).await?`, its error converted by `?`
  pub read_file : String → Call W (List ℕ)
  -- `PairingFile::from_bytes`
  pub pairing_file_from_bytes : List ℕ → Result PairingFile IdeviceError
  pub heartbeat_connect : TcpProvider PairingFile → Call W HeartbeatClient
  pub instproxy_connect : TcpProvider PairingFile → Call W InstallationProxy
  -- `get_apps(Some("User"), None)`: the entries in the order of the map's iteration
  pub get_apps : InstallationProxy → Option String → Call W (List (String × Value))
  pub core_proxy_connect : TcpProvider PairingFile → Call W CoreDeviceProxy
  pub server_rsd_port : CoreDeviceProxy → ℕ
  pub create_software_tunnel : CoreDeviceProxy → Result Adapter IdeviceError
  pub connect : Adapter → ℕ → Call W Unit
  pub close : Adapter → Call W Unit
  pub xpc_new : Adapter → Call W XpcDevice
  -- `xpc_client.services.get(name)`, its port
  pub service_port : XpcDevice → String → Option ℕ
  pub xpc_into_inner : XpcDevice → Adapter
  pub remote_server_new : Adapter → Result RemoteServer IdeviceError
  pub read_message : RemoteServer → ℕ → Call W Unit
  pub remote_server_into_inner : RemoteServer → Adapter
  pub process_control_new : RemoteServer → Call W ProcessControl
  -- `launch_app(bundle_id, None, None, true, false)`, which gives the process id
  pub launch_app : ProcessControl → String → Call W ℕ
  pub disable_memory_limit : ProcessControl → ℕ → Call W Unit
  pub debug_proxy_new : Adapter → DebugProxy
  pub send_command : DebugProxy → String → Call W Unit
  -- `idevice::dvt::SERVICE_NAME` and `idevice::debug_proxy::SERVICE_NAME`
  pub dvt_service_name : String
  pub debug_proxy_service_name : String
