-- ===== src/Register/Host.antt =====
-- What `register` of src/register.rs asks of the system and of the `wg_config` crate, as records of
-- operations, and its two closures over the database.
use jit_streamer_eb.Prelude.{ℕ, Option, none, some, String, List, [], ◌∷◌, Result, ok, err}
use jit_streamer_eb.Db.{State, row, done, Sqlite, db_prepare, statement_next, bind}
use jit_streamer_eb.Net.{IpAddr, Ipv6, v4, v6, to_ipv6_mapped}
use jit_streamer_eb.Net
use jit_streamer_eb.Register.Address.{generate_ipv6_from_udid}
use jit_streamer_eb.Flow.{
  Flow, Outcome, next, reply, panicked, pure, stop, unwrap, or_reply, some_or_reply, ◌>>=◌, ◌>>◌,
}
use jit_streamer_eb.Server.{Server, deleted, outside, change}
use jit_streamer_eb.Common.{database}

-- The environment, the file system and the shell. A call that is `none` makes the code panic.
pub record Host (W : Type 0) : Type 0 where
  -- `std::env::var(name)`, `std::env::consts::OS` and `as_bytes`
  pub env : String → Option String
  pub os : String
  pub as_bytes : String → List ℕ
  -- SHA-256
  pub hash : List ℕ → List ℕ
  pub create_dir_all : String → W → Result (Unit {0}) (Unit {0}) × W
  pub write : String → List ℕ → W → Result (Unit {0}) (Unit {0}) × W
  -- `Command::new("bash").arg("-c").arg(command).output()`
  pub bash : String → W → Option (Unit {0}) × W

pub data WgConfError : Type 0 where
  not_found other_error : WgConfError

-- `wg_config`, with what the parse of a text gives.
pub record Wireguard (W : Type 0) : Type 1 where
  pub Conf : Type 0
  pub Key : Type 0
  pub Interface : Type 0
  pub Peer : Type 0
  pub Address : Type 0
  pub Endpoint : Type 0
  pub Allowed : Type 0
  pub parse_address : String → Option Address
  pub parse_allowed : String → Option Allowed
  pub parse_endpoint : String → Option Endpoint
  pub generate_private_key : W → Option Key × W
  pub new_interface : Key → Address → ℕ → Option Interface
  pub create : String → Interface → W → Option (Unit {0}) × W
  pub open_conf : String → W → Result Conf WgConfError × W
  pub peers : Conf → W → Result (List Peer) (Unit {0}) × W
  -- the texts of the allowed addresses and of the public key
  pub allowed_ips : Peer → List String
  pub public_key : Peer → String
  pub remove_peer_by_pub_key : Conf → String → W → Option Conf × W
  -- the text of the client's configuration
  pub generate_peer : Conf → Ipv6 → Endpoint → Allowed → W → Result String (Unit {0}) × W

-- The body of the reply, or a status code with a message.
abbrev pub Reply : Type 0
Reply = Result (List ℕ) (ℕ × String)

abbrev pub bad_request : ℕ
bad_request = 400

abbrev pub internal_server_error : ℕ
internal_server_error = 500

abbrev pub refuse : {E : Type 0} → String → E → Reply
refuse message e = err (internal_server_error, message)

abbrev pub text_or : Option String → String → String
text_or none d = d
text_or (some s) d = s

abbrev pub number_or : Option ℕ → ℕ → ℕ
number_or none d = d
number_or (some n) d = n

-- `spawn_blocking(…).await`: a panic of the closure is an error here.
abbrev pub joined : {R Q : Type 0} → Outcome R R → Outcome Q (Result R (Unit {0}))
joined (next a) = next (ok a)
joined (reply a) = next (ok a)
joined panicked = next (err tt)

unfoldable pub join :
    {W R Q : Type 0} → Flow (Server W) R R → Flow (Server W) Q (Result R (Unit {0}))
join m s = let (o, t) = m s in (joined o, t)

abbrev pub select_ip : String
select_ip = "SELECT ip FROM devices WHERE udid = ?"

abbrev pub delete_device : String
delete_device = "DELETE FROM devices WHERE udid = ?"

abbrev pub insert_device_query : String
insert_device_query = "INSERT INTO devices (udid, ip, last_used) VALUES (?, ?, CURRENT_TIMESTAMP)"

module _ {W : Type 0} (db : Sqlite W) where
  unfoldable pub read_ip : Option State → Flow (Server W) (Option String) String
  read_ip (some (row columns)) = unwrap (columns "ip")
  read_ip (some done) = stop none
  read_ip none = stop none

  -- A failure to delete is only logged.
  unfoldable pub note_deleted : {R : Type 0} → String → Option State → Flow (Server W) R Unit
  note_deleted udid none = pure tt
  note_deleted udid (some state) = change (deleted udid)

  -- The closure that looks a device's address up, and deletes the device if it is there.
  unfoldable pub take_ip : String → Flow (Server W) (Option String) (Option String)
  unfolding read_ip note_deleted
  take_ip udid = do
    opened ← outside (db.open_db database)
    or_reply (λ e. none) opened
    prepared ← outside (db_prepare db select_ip)
    statement ← some_or_reply none prepared
    found ← outside (statement_next db (bind ((1, udid) ∷ []) statement))
    ip ← read_ip found
    prepared_delete ← outside (db_prepare db delete_device)
    delete ← some_or_reply none prepared_delete
    enacted ← outside (statement_next db (bind ((1, udid) ∷ []) delete))
    note_deleted udid enacted
    pure (some ip)

  -- The closure that inserts the device, a task of its own that the handler does not wait for.
  unfoldable pub insert_device : String → Ipv6 → Flow (Server W) Unit Unit
  insert_device udid ip = do
    opened ← outside (db.open_db database)
    or_reply (λ e. tt) opened
    prepared ← outside (db_prepare db insert_device_query)
    statement ← some_or_reply tt prepared
    enacted ←
        outside (statement_next db (bind ((1, udid) ∷ (2, Net.to_string (v6 ip)) ∷ []) statement))
    pure tt

abbrev pub Registering : Type 0 → Type 0 → Type 0
Registering W A = Flow (Server W) Reply A

module _ {W : Type 0} (host : Host W) where
  open host use {env, as_bytes}

  -- A variable of the environment, or its default.
  abbrev pub variable : String → String → String
  variable name d = text_or (env name) d

  abbrev pub config_name : String
  config_name = variable "WIREGUARD_CONFIG_NAME" "jitstreamer"

  abbrev pub generated_ip : String → Option Ipv6
  generated_ip udid = generate_ipv6_from_udid host.hash (as_bytes udid)
