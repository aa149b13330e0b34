-- ===== src/Register/Handler.antt =====
-- `register` and `refresh_wireguard` of src/register.rs.
pub mod Logs
pub mod Tracks
pub mod Course
pub mod Assigned
pub mod Ending
pub mod Registers
pub mod Peers
pub mod Tests
use jit_streamer_eb.Prelude.{
  ℕ, ◌==◌, Bool, true, false, Option, none, some, String, List, [], ◌∷◌, Result, ok, err, str_eq,
  if◌then◌else◌, get_elem?,
}
use Prim.Native.String.{◌++◌}
use jit_streamer_eb.Db.{Sqlite}
use jit_streamer_eb.Device.{Shape, dictionary, string, boolean, other_shape, Plist}
use jit_streamer_eb.Net.{IpAddr, Ipv6, v4, v6, to_ipv6_mapped}
use jit_streamer_eb.Net
use jit_streamer_eb.Flow.{Flow, pure, stop, unwrap, or_reply, some_or_reply, ◌>>=◌, ◌>>◌}
use jit_streamer_eb.Server.{
  Server, Change, configured, unpeered, peered, stored, inserting, ran, outside, change,
}
use jit_streamer_eb.Version.{parse_u8, parse_uint}
use jit_streamer_eb.Register.Address.{generate_ipv6_from_udid}
use jit_streamer_eb.Register.Host.{
  variable, config_name, generated_ip, Registering, Host, WgConfError, not_found, other_error,
  Wireguard, Reply, bad_request, internal_server_error, refuse, text_or, number_or, join, take_ip,
}
use jit_streamer_eb.Register.Wireguard.{register_wireguard}

-- `match std::env::consts::OS { … }`, which panics (`none`) on another system.
abbrev pub default_storage : String → Option String
default_storage os =
    if str_eq os "macos"
    then some "/var/db/lockdown"
    else if str_eq os "linux"
    then some "/var/lib/lockdown"
    else if str_eq os "windows"
    then some "C:/ProgramData/Apple/Lockdown"
    else none

abbrev pub plist_path : String → String → String
plist_path storage udid = storage ++ ("/" ++ (udid ++ ".plist"))

-- `register_mode == 2`
abbrev pub direct_ip : IpAddr → Ipv6
direct_ip (v4 a b c d) = to_ipv6_mapped a b c d
direct_ip (v6 a) = a

module _ (plist : Plist) where
  open plist use {Value, Dictionary, shape, get}

  -- `match plist.get("UDID") { Some(Value::String(udid)) => udid, … }`
  abbrev string_of : Option Value → Option String
  string_of none = none
  string_of (some v) = elim (shape v) [
    | dictionary d ↦ none
    | string s ↦ some s
    | boolean b ↦ none
    | other_shape ↦ none
  ]

  -- The UDID that the property list of the request names.
  abbrev pub udid_of : Dictionary → Option String
  udid_of d = string_of (get d "UDID")

  unfoldable pub read_udid :
      {W : Type 0} → (List ℕ → Option Dictionary) → List ℕ → Registering W String
  read_udid from_bytes plist_bytes = do
    d ← some_or_reply (err (bad_request, "bad plist")) (from_bytes plist_bytes)
    some_or_reply (err (bad_request, "no UDID")) (udid_of d)

module _ {W : Type 0} (host : Host W) where
  open host use {as_bytes, create_dir_all, write, bash}

  unfoldable pub run_bash : String → Registering W Unit
  run_bash command = do output ← outside (bash command); unwrap output; change (ran command)

  abbrev pub syncconf : String
  syncconf = "wg syncconf jitstreamer <(wg-quick strip " ++ (config_name host ++ ")")

  abbrev pub route : String → String
  route ip = "ip route add " ++ (ip ++ (" dev " ++ config_name host))

  unfoldable pub refresh_wireguard : String → Registering W Unit
  refresh_wireguard ip = do run_bash syncconf; run_bash (route ip)

  -- The default is computed first, even if the variable is set.
  unfoldable pub save_plist : String → List ℕ → Registering W Unit
  save_plist udid plist_bytes = do
    default ← unwrap (default_storage host.os)
    let storage = variable host "PLIST_STORAGE" default
    created ← outside (create_dir_all storage)
    written ← outside (write (plist_path storage udid) plist_bytes)
    or_reply (refuse "failed to save plist") written
    change (stored (plist_path storage udid) plist_bytes)

  abbrev pub text_of : Ipv6 → String
  text_of ip = Net.to_string (v6 ip)

  abbrev pub register_mode : Option ℕ
  register_mode = parse_u8 (as_bytes (variable host "ALLOW_REGISTRATION" "1"))

  unfoldable pub refresh : ℕ → Ipv6 → Registering W Unit
  refresh mode ip = if mode == 1 then refresh_wireguard (text_of ip) else pure tt

  -- The property list is stored, the device inserted, and WireGuard told.
  unfoldable pub conclude : List ℕ → String → ℕ × Ipv6 × List ℕ → Registering W Reply
  conclude plist_bytes udid (mode, ip_final, client_config) = do
    save_plist udid plist_bytes
    change (inserting udid ip_final)
    refresh mode ip_final
    pure (ok client_config)

  module _ (wg : Wireguard W) where
    -- The address of the device, and what the client is sent.
    unfoldable pub assign : ℕ → IpAddr → String → Option String → Registering W (Ipv6 × List ℕ)
    assign mode client_ip udid ip =
        if mode == 1
        then register_wireguard host wg udid ip
        else if mode == 2
        then pure (direct_ip client_ip, as_bytes (text_of (direct_ip client_ip)))
        else stop (refuse "Unknown registration mode" tt)

    -- From the device's old address to its new one.
    unfoldable pub new_address : Sqlite W → IpAddr → String → Registering W (ℕ × Ipv6 × List ℕ)
    new_address db client_ip udid = do
      found ← join (take_ip db udid)
      ip ← or_reply (refuse "failed to get IP") found
      mode ← unwrap register_mode
      (ip_final, client_config) ← assign mode client_ip udid ip
      pure (mode, ip_final, client_config)

    module _ (plist : Plist) (from_bytes : List ℕ → Option (plist.Dictionary)) (db : Sqlite W) where
      unfoldable pub register : IpAddr → List ℕ → Registering W Reply
      register client_ip plist_bytes = do
        udid ← read_udid plist from_bytes plist_bytes
        assigned ← new_address db client_ip udid
        conclude plist_bytes udid assigned
