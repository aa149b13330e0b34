-- ===== src/Handlers/GetApps.antt =====
-- `get_apps` of src/main.rs: the installed apps that allow a debugger, by name.
pub mod Selection
pub mod Course
use jit_streamer_eb.Prelude.{
  ℕ, Bool, true, false, Option, none, some, String, List, [], ◌∷◌, Result, if◌then◌else◌,
}
use Prim.Native.String.{◌++◌}
use jit_streamer_eb.HashMap.{HashMap, insert, keys}
use jit_streamer_eb.Db.{Sqlite}
use jit_streamer_eb.Device.{Shape, dictionary, string, boolean, other_shape, Plist, Device}
use jit_streamer_eb.Net.{IpAddr}
use jit_streamer_eb.Flow.{Flow, pure, stop, or_reply, ◌>>=◌, ◌>>◌}
use jit_streamer_eb.Server.{Server, outside, send}
use jit_streamer_eb.Heartbeat.Manager.{kill}
use jit_streamer_eb.Handlers.Session.{label, find_device, start_heartbeat}

pub record GetAppsReturn : Type 0 where
  pub ok : Bool
  pub apps : List String
  pub bundle_ids : Option (HashMap String)
  pub error : Option String

-- The reply that the handler writes out at each of its failures.
unfoldable pub failure : String → GetAppsReturn
failure message = record { ok = false; apps = []; bundle_ids = none; error = some message }

abbrev pub other_entry : String
other_entry = "Other..."

abbrev pub update_notice : String
update_notice = "UPDATE YOUR SHORTCUT"

module _ (plist : Plist) where
  open plist use {Value, Dictionary, shape, get}

  -- `matches!(entitlements.get("get-task-allow"), Some(Value::Boolean(true)))`
  is_true : Option Value → Bool
  is_true none = false
  is_true (some v) = elim (shape v) [
    | dictionary d ↦ false
    | string s ↦ false
    | boolean b ↦ b
    | other_shape ↦ false
  ]

  allows : Option Value → Bool
  unfolding is_true
  allows none = false
  allows (some v) = elim (shape v) [
    | dictionary entitlements ↦ is_true (get entitlements "get-task-allow")
    | string s ↦ false
    | boolean b ↦ false
    | other_shape ↦ false
  ]

  -- The test of the `filter`.
  unfoldable pub has_get_task_allow : Value → Bool
  unfolding allows
  has_get_task_allow app = elim (shape app) [
    | dictionary d ↦ allows (get d "Entitlements")
    | string s ↦ false
    | boolean b ↦ false
    | other_shape ↦ false
  ]

  name_or : String → Option Value → String
  name_or bundle_id none = bundle_id
  name_or bundle_id (some v) = elim (shape v) [
    | dictionary d ↦ bundle_id
    | string bundle_name ↦ bundle_name
    | boolean b ↦ bundle_id
    | other_shape ↦ bundle_id
  ]

  -- The name that the `map` gives an app.
  unfoldable pub app_name : String → Value → String
  unfolding name_or
  app_name bundle_id app = elim (shape app) [
    | dictionary d ↦ name_or bundle_id (get d "CFBundleName")
    | string s ↦ bundle_id
    | boolean b ↦ bundle_id
    | other_shape ↦ bundle_id
  ]

  -- `.filter(…).map(…).collect()` into a map from names to bundle ids: a later app of the same name
  -- takes the entry over.
  unfoldable pub collect : HashMap String → List (String × Value) → HashMap String
  collect m [] = m
  collect m ((bundle_id, app) ∷ rest) =
      collect (if has_get_task_allow app then insert (app_name bundle_id app) bundle_id m else m)
        rest

-- `if apps.is_empty() { return … }`, and the map with the entry that `apps.insert` adds.
unfoldable pub with_notice :
    {W : Type 0} → HashMap String → Flow (Server W) GetAppsReturn (HashMap String)
with_notice [] = stop (failure "No apps with get-task-allow found")
with_notice (app ∷ apps) = pure (insert other_entry update_notice (app ∷ apps))

abbrev pub success : HashMap String → GetAppsReturn
success apps = record { ok = true; apps = keys apps; bundle_ids = some apps; error = none }

module _ {W : Type 0} (plist : Plist) (dev : Device W (plist.Value)) where
  open dev use {PairingFile, debug, instproxy_connect, get_apps as installed_apps}

  -- What the handler does with the device between the heartbeat's start and its end.
  unfoldable pub select_apps : IpAddr → PairingFile → Flow (Server W) GetAppsReturn (HashMap String)
  select_apps ip pairing_file = do
    connected ←
        outside
          (instproxy_connect (record { addr = ip; pairing_file = pairing_file; label = label }))
    instproxy_client ← or_reply (λ e. failure ("Failed to start instproxy: " ++ debug e)) connected
    listed ← outside (installed_apps instproxy_client (some "User"))
    apps ← or_reply (λ e. failure ("Failed to get apps: " ++ debug e)) listed
    with_notice (collect plist [] apps)

  unfoldable pub get_apps : Sqlite W → IpAddr → Flow (Server W) GetAppsReturn GetAppsReturn
  get_apps db ip = do
    (udid, pairing_file) ← find_device db dev failure ip
    start_heartbeat db dev failure ip udid pairing_file
    apps ← select_apps ip pairing_file
    send (kill udid)
    pure (success apps)
