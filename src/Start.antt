-- ===== src/Start.antt =====
-- The start of the server: `main` of src/main.rs up to the point where it serves, with its table of
-- routes, and `check_wireguard` of src/register.rs; and the constant reply of `status`.
pub mod Prepared
pub mod Storage
pub mod Stored
pub mod Tests
use jit_streamer_eb.Prelude.{
  ℕ, ◌==◌, Bool, true, false, Option, none, some, String, List, [], ◌∷◌, ◌++◌, if◌then◌else◌,
}
use Prim.Native.String.{◌++◌ as str_append}
use jit_streamer_eb.Flow.{Flow, pure, unwrap, io, ◌>>=◌, ◌>>◌}
use jit_streamer_eb.Version.{parse_uint}
use jit_streamer_eb.Common.{database}
use jit_streamer_eb.Register.Host.{Host, Wireguard, variable, config_name, number_or}
use jit_streamer_eb.Register.Handler.{register_mode}

-- What the start asks of the system besides what a registration asks: `std::fs::exists`; opening the
-- database and executing src/sql/up.sql in it; and `TcpListener::bind` to the port at `::0`. A call
-- that is `none` makes the code panic.
pub record Platform (W : Type 0) : Type 0 where
  pub exists : String → W → Option Bool × W
  pub open_db : String → W → Option (Unit {0}) × W
  pub execute_up : String → W → Option (Unit {0}) × W
  pub bind : ℕ → W → Option (Unit {0}) × W

pub data Method : Type 0 where
  get_method post_method any_method : Method

-- What answers a request.
pub data RouteHandler : Type 0 where
  on_hello on_version on_mount on_mount_ws on_mount_status on_get_apps on_launch_app on_attach
        on_status on_register on_upload :
      RouteHandler

pub record Route : Type 0 where
  pub path : String
  pub method : Method
  pub endpoint : RouteHandler

abbrev pub at_path : String → Method → RouteHandler → Route
at_path path method endpoint = record { path = path; method = method; endpoint = endpoint }

-- The routes that every server has.
abbrev pub base_routes : List Route
base_routes =
    at_path "/hello" get_method on_hello
    ∷ at_path "/version" post_method on_version
    ∷ at_path "/mount" get_method on_mount
    ∷ at_path "/mount_ws" any_method on_mount_ws
    ∷ at_path "/mount_status" get_method on_mount_status
    ∷ at_path "/get_apps" get_method on_get_apps
    ∷ at_path "/launch_app/{bundle_id}" get_method on_launch_app
    ∷ at_path "/attach/{pid}" post_method on_attach
    ∷ at_path "/status" get_method on_status
    ∷ []

abbrev pub routes_of : ℕ → List Route
routes_of allow_registration =
    if allow_registration == 1
    then base_routes ++ (at_path "/register" post_method on_register ∷ [])
    else if allow_registration == 2
    then base_routes
      ++ (at_path "/register" post_method on_register ∷ at_path "/upload" get_method on_upload ∷ [])
    else base_routes

-- The reply of `/status`.
pub record StatusReturn : Type 0 where
  pub done : Bool
  pub ok : Bool
  pub position : ℕ
  pub error : Option String
  pub in_progress : Bool

abbrev pub status : StatusReturn
status = record { ok = true; done = true; position = 0; error = none; in_progress = false }

-- A server that listens.
pub record Service : Type 0 where
  pub allow_registration : ℕ
  pub port : ℕ
  pub pairing_file_storage : String
  pub routes : List Route

module _ {W : Type 0} (host : Host W) where
  abbrev pub server_port : Option ℕ
  server_port = parse_uint 65535 (host.as_bytes (variable host "JITSTREAMER_PORT" "9172"))

  abbrev pub read_storage : String
  read_storage = variable host "PLIST_STORAGE" "/var/lib/lockdown"

  abbrev pub wireguard_conf : String
  wireguard_conf = str_append "/etc/wireguard/" (str_append (config_name host) ".conf")

  abbrev pub wireguard_port : ℕ
  wireguard_port =
      number_or (parse_uint 65535 (host.as_bytes (variable host "WIREGUARD_PORT" "51869"))) 51869

  module _ (platform : Platform W) where
    unfoldable pub create_database : Bool → Flow W Unit Unit
    create_database true = pure tt
    create_database false = do
      opened ← io (platform.open_db database)
      unwrap opened
      executed ← io (platform.execute_up database)
      unwrap executed

    module _ (wg : Wireguard W) where
      unfoldable pub create_wireguard : Bool → Flow W Unit Unit
      create_wireguard true = pure tt
      create_wireguard false = do
        generated ← io wg.generate_private_key
        key ← unwrap generated
        address ← unwrap (wg.parse_address (variable host "WIREGUARD_SERVER_ADDRESS" "fd00::/128"))
        interface ← unwrap (wg.new_interface key address wireguard_port)
        created ← io (wg.create wireguard_conf interface)
        unwrap created
        output ← io (host.bash (str_append "wg-quick up " (config_name host)))
        unwrap output

      unfoldable pub check_wireguard : Flow W Unit Unit
      check_wireguard = do
        asked ← io (platform.exists wireguard_conf)
        there ← unwrap asked
        create_wireguard there

      unfoldable pub main : Flow W Unit Service
      main = do
        allow_registration ← unwrap (register_mode host)
        port ← unwrap server_port
        (if allow_registration == 1 then check_wireguard else pure tt)
        asked ← io (platform.exists database)
        there ← unwrap asked
        create_database there
        bound ← io (platform.bind port)
        unwrap bound
        pure (record {
          allow_registration = allow_registration;
          port = port;
          pairing_file_storage = read_storage;
          routes = routes_of allow_registration;
        })
