-- ===== src/Handlers/Tests.antt =====
-- The handlers against a device that answers every call, and a database that knows every address.
-- The world is the list of the debugger's commands, the last one first.
use jit_streamer_eb.Prelude.{
  ◌≡◌, refl, Bool, true, false, Option, none, some, String, List, [], ◌∷◌, Result, ok, str_eq,
  if◌then◌else◌,
}
use jit_streamer_eb.HashMap.{insert, remove}
use jit_streamer_eb.Db.{row, Sqlite, retry, db_prepare, statement_next}
use jit_streamer_eb.Device.{IdeviceError, Shape, dictionary, string, boolean, Plist, Device}
use jit_streamer_eb.Net.{IpAddr, v4, to_string}
use jit_streamer_eb.Net.Hex.{show_02X}
use jit_streamer_eb.Flow.{next, pure, unwrap, or_reply, some_or_reply, gets, call, ◌>>=◌}
use jit_streamer_eb.Server.{Own, Server, outside, send, spawn_heartbeat}
use jit_streamer_eb.Heartbeat.Manager.{store, kill}
use jit_streamer_eb.Common.{get_udid_from_ip, get_pairing_file}
use jit_streamer_eb.Handlers.Session.{heartbeat_thread, find_device, start_heartbeat}
use jit_streamer_eb.Handlers.Session.Course.{Course}
use jit_streamer_eb.Handlers.AttachApp
use jit_streamer_eb.Handlers.AttachApp.Course as AttachCourse
use jit_streamer_eb.Handlers.LaunchApp
use jit_streamer_eb.Handlers.LaunchApp.Course as LaunchCourse
use jit_streamer_eb.Handlers.GetApps
use jit_streamer_eb.Handlers.GetApps.Course as GetAppsCourse
use jit_streamer_eb.Handlers.GetApps.Selection.{Choice, with_notice-collect}

abbrev pub World : Type 0
World = List String

abbrev pub known : Sqlite World
known = record {
  open_db = λ path w. (ok tt, w);
  prepare = λ query w. (ok tt, w);
  step = λ statement w. (ok (row (λ column. some "udid-1")), w);
  sleep = λ w. w;
}

-- A property list: an app by its name, allowed to be debugged or not, and what it is made of.
pub data Item : Type 0 where
  app : String → Bool → Item
  entitlements : Bool → Item
  text : String → Item
  truth : Bool → Item

abbrev shape_of : Item → Shape Item
shape_of (app name allowed) = dictionary (app name allowed)
shape_of (entitlements allowed) = dictionary (entitlements allowed)
shape_of (text s) = string s
shape_of (truth b) = boolean b

abbrev field_of : Item → String → Option Item
field_of (app name allowed) key =
    if str_eq key "CFBundleName"
    then some (text name)
    else if str_eq key "Entitlements"
    then some (entitlements allowed)
    else none
field_of (entitlements allowed) key =
    if str_eq key "get-task-allow" then some (truth allowed) else none
field_of (text s) key = none
field_of (truth b) key = none

abbrev pub items : Plist
items = record { Value = Item; Dictionary = Item; shape = shape_of; get = field_of }

abbrev installed : List (String × Item)
installed =
    ("com.a", app "Emulator" true)
    ∷ ("com.b", app "Shop" false)
    ∷ ("com.c", app "Emulator" true)
    ∷ []

abbrev pub fine : {A B : Type 0} → A → B → Result A IdeviceError × B
fine a w = (ok a, w)

abbrev pub answering : {W : Type 0} → Device W Item
answering = record {
  PairingFile = Unit;
  HeartbeatClient = Unit;
  InstallationProxy = Unit;
  CoreDeviceProxy = Unit;
  Adapter = Unit;
  XpcDevice = Unit;
  RemoteServer = Unit;
  ProcessControl = Unit;
  DebugProxy = Unit;
  display = λ e. "error";
  debug = λ e. "error";
  read_file = λ path w. fine [] w;
  pairing_file_from_bytes = λ bytes. ok tt;
  heartbeat_connect = λ provider w. fine tt w;
  instproxy_connect = λ provider w. fine tt w;
  get_apps = λ proxy kind w. fine installed w;
  core_proxy_connect = λ provider w. fine tt w;
  server_rsd_port = λ proxy. 1;
  create_software_tunnel = λ proxy. ok tt;
  connect = λ adapter port w. fine tt w;
  close = λ adapter w. fine tt w;
  xpc_new = λ adapter w. fine tt w;
  service_port = λ xpc name. some 2;
  xpc_into_inner = λ xpc. tt;
  remote_server_new = λ adapter. ok tt;
  read_message = λ server channel w. fine tt w;
  remote_server_into_inner = λ server. tt;
  process_control_new = λ server w. fine tt w;
  launch_app = λ control bundle_id w. fine 300 w;
  disable_memory_limit = λ control pid w. fine tt w;
  debug_proxy_new = λ adapter. tt;
  send_command = λ proxy command w. fine tt w;
  dvt_service_name = "dvt";
  debug_proxy_service_name = "debug";
}

abbrev pub willing : Device World Item
willing = record answering { send_command = λ proxy command w. fine tt (command ∷ w) }

abbrev pub own : Own
own = record {
  sent = [];
  next_sender = 0;
  beating = [];
  mount_cache = [];
  channels = [];
  mounting = [];
  changes = [];
}

abbrev pub server : Server World
server = record { world = []; pairing_file_storage = "/var/lib/lockdown"; own = own }

abbrev pub client : IpAddr
client = v4 10 7 0 1

launched : LaunchApp.launch_app willing known client "com.a" server ≡ (
  next LaunchApp.success,
  record server {
    world = "D" ∷ "D" ∷ "D" ∷ "D" ∷ "vAttach;12C" ∷ [];
    own = record own {
      sent = store "udid-1" 0 ∷ kill "udid-1" ∷ [];
      next_sender = 1;
      beating = ("udid-1", 0) ∷ [];
    };
  },
)
unfolding LaunchApp.launch_app LaunchApp.work LaunchApp.open_services LaunchApp.launch
    LaunchApp.debug_process LaunchApp.send_commands find_device start_heartbeat heartbeat_thread
    get_udid_from_ip get_pairing_file db_prepare statement_next retry to_string show_02X ◌>>=◌ call
    outside send spawn_heartbeat or_reply some_or_reply unwrap gets pure
launched = refl

launch_app-Course_example :
    let p = LaunchApp.launch_app willing known client "com.a" server in
    Course LaunchCourse.IsFailure LaunchCourse.IsSuccess own p.0 p.1.own
launch_app-Course_example = LaunchCourse.launch_app-Course willing known client "com.a" server

attach_app-Course_example :
    let p = AttachApp.attach_app willing known client 300 server in
    Course AttachCourse.IsFailure AttachCourse.IsSuccess own p.0 p.1.own
attach_app-Course_example = AttachCourse.attach_app-Course willing known client 300 server

get_apps-Course_example :
    let p = GetApps.get_apps items willing known client server in
    Course GetAppsCourse.IsFailure GetAppsCourse.IsSuccess own p.0 p.1.own
get_apps-Course_example = GetAppsCourse.get_apps-Course items willing known client server

-- Of two apps of one name the last is offered.
collected : GetApps.collect items [] installed ≡ ("Emulator", "com.c") ∷ []
unfolding GetApps.collect GetApps.has_get_task_allow GetApps.app_name insert remove
collected = refl

with_notice-collect_example : Choice items installed (GetApps.collect items [] installed) server
with_notice-collect_example = with_notice-collect items installed server
