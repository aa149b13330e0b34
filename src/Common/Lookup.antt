-- ===== src/Common/Lookup.antt =====
-- `get_udid_from_ip` and `get_pairing_file` leave the program's own state alone.
use jit_streamer_eb.Prelude.{Option, none, some, String}
use jit_streamer_eb.Db.{State, row, done, Sqlite}
use jit_streamer_eb.Device.{Device}
use jit_streamer_eb.Server.Quiet.{Quiet, Quiet-unwrap, Quiet-stop, quiet_rules}
use jit_streamer_eb.Common.{read_udid, get_udid_from_ip, get_pairing_file}

module _ {W : Type 0} (db : Sqlite W) where
  read_udid-Quiet : (ip : String) (found : Option State) → Quiet (λ _. Unit) (read_udid db ip found)
  unfolding read_udid
  read_udid-Quiet ip (some (row columns)) = Quiet-unwrap (columns "udid")
  read_udid-Quiet ip (some done) = Quiet-stop _ tt
  read_udid-Quiet ip none = Quiet-stop _ tt

  pub get_udid_from_ip-Quiet : (ip : String) → Quiet (λ _. Unit) (get_udid_from_ip db ip)
  unfolding get_udid_from_ip
  get_udid_from_ip-Quiet ip = search (quiet_rules, read_udid-Quiet) depth 20

module _ {W Value : Type 0} (dev : Device W Value) where
  pub get_pairing_file-Quiet :
      (udid storage : String) → Quiet (λ _. Unit) (get_pairing_file dev udid storage)
  unfolding get_pairing_file
  get_pairing_file-Quiet udid storage = search quiet_rules depth 20
