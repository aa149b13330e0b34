-- ===== src/Common.antt =====
-- src/common.rs: the device behind an address, and its pairing file.
pub mod Lookup
pub mod Found
use jit_streamer_eb.Prelude.{ℕ, Option, none, some, String, List, [], ◌∷◌, Result, ok, err}
use Prim.Native.String.{◌++◌}
use jit_streamer_eb.Db.{Statement, State, row, done, Sqlite, db_prepare, statement_next, bind}
use jit_streamer_eb.Flow.{Flow, pure, stop, unwrap, or_reply, some_or_reply, gets, ◌>>=◌, ◌>>◌}
use jit_streamer_eb.Server.{Server, outside}
use jit_streamer_eb.Device.{IdeviceError, Device}

abbrev pub database : String
database = "jitstreamer.db"

abbrev pub select_udid : String
select_udid = "SELECT udid FROM devices WHERE ip = ?"

abbrev pub no_device : String → String
no_device ip = "No device found for IP \"" ++ (ip ++ "\"")

module _ {W : Type 0} (db : Sqlite W) where
  -- `if let Some(State::Row) = statement_next(…) { read("udid") } else { return Err(…) }`
  read_udid : String → Option State → Flow (Server W) (Result String String) String
  read_udid ip (some (row columns)) = unwrap (columns "udid")
  read_udid ip (some done) = stop (err (no_device ip))
  read_udid ip none = stop (err (no_device ip))

  unfoldable pub get_udid_from_ip :
      String → Flow (Server W) (Result String String) (Result String String)
  unfolding read_udid
  get_udid_from_ip ip = do
    opened ← outside (db.open_db database)
    or_reply (λ e. err ("Failed to open database: " ++ e)) opened
    prepared ← outside (db_prepare db select_udid)
    statement ← some_or_reply (err "Failed to open database") prepared
    found ← outside (statement_next db (bind ((1, ip) ∷ []) statement))
    udid ← read_udid ip found
    pure (ok udid)

module _ {W Value : Type 0} (dev : Device W Value) where
  open dev use {PairingFile, read_file, pairing_file_from_bytes}

  unfoldable pub get_pairing_file :
      String
      → String
      → Flow (Server W) (Result PairingFile IdeviceError) (Result PairingFile IdeviceError)
  get_pairing_file udid pairing_file_storage = do
    let path = pairing_file_storage ++ ("/" ++ (udid ++ ".plist"))
    contents ← outside (read_file path)
    pairing_file ← or_reply (λ e. err e) contents
    pure (pairing_file_from_bytes pairing_file)
