-- ===== src/Register/Handler/Course.antt =====
-- What a registration changes before it stores the property list.
use jit_streamer_eb.Prelude.{
  Bool-cases, Option, none, some, String, List, [], ◌∷◌, ◌≡◌, refl, inl, inr, Result, ok, err,
  str_eq,
}
use jit_streamer_eb.Db.{State, row, done, Sqlite}
use jit_streamer_eb.Flow.{Flow}
use jit_streamer_eb.Server.{
  Server, Change, deleted, configured, unpeered, peered, stored, inserting, ran,
}
use jit_streamer_eb.Register.Host.{
  Host, internal_server_error, WgConfError, not_found, other_error, Wireguard, Reply, read_ip,
  note_deleted, take_ip,
}
use jit_streamer_eb.Register.Wireguard.{
  conf_or_panic, create_conf, conf_or_create, find_peer, old_peer, remove_peer, server_conf,
}
use jit_streamer_eb.Register.Handler.Logs.{
  Logs, Logs-change, Any-pure, Any-stop, Any-unwrap, Any-bind, log_rules,
}

-- An error of the server's, with a message.
abbrev pub IsError : Reply → Type 0
IsError (ok body) = ⊥
IsError (err e) = e.0 ≡ internal_server_error

module _ {W : Type 0} (host : Host W) where
  -- What may be changed before the device has its address: its row, the configuration, and a peer
  -- that is removed.
  abbrev pub IsPreparation : String → Change → Type 0
  IsPreparation udid (deleted device) = device ≡ udid
  IsPreparation udid (configured path) = Unit
  IsPreparation udid (unpeered key) = Unit
  IsPreparation udid (peered ip) = ⊥
  IsPreparation udid (stored path bytes) = ⊥
  IsPreparation udid (inserting device ip) = ⊥
  IsPreparation udid (ran command) = ⊥

  module _ (udid : String) where
    abbrev Prepares : {R A : Type 0} → (R → Type 0) → Flow (Server W) R A → Type 0
    Prepares Bad m = Logs (IsPreparation udid) Bad (λ _. Unit) m

    module _ (db : Sqlite W) where
      read_ip-Logs : (found : Option State) → Prepares (λ _. Unit) (read_ip db found)
      unfolding read_ip
      read_ip-Logs (some (row columns)) = Any-unwrap (columns "ip")
      read_ip-Logs (some done) = Any-stop _ tt
      read_ip-Logs none = Any-stop _ tt

      note_deleted-Logs :
          (found : Option State)
          → Prepares (λ (_ : Option String). Unit) (note_deleted db udid found)
      unfolding note_deleted
      note_deleted-Logs (some state) = Logs-change _ refl
      note_deleted-Logs none = Any-pure tt

      pub take_ip-Logs : Prepares (λ _. Unit) (take_ip db udid)
      unfolding take_ip
      take_ip-Logs = search (log_rules, read_ip-Logs, note_deleted-Logs) depth 60

    module _ (wg : Wireguard W) where
      conf_or_panic-Logs :
          (r : Result wg.Conf WgConfError) → Prepares IsError (conf_or_panic host wg r)
      unfolding conf_or_panic
      conf_or_panic-Logs (ok conf) = Any-pure conf
      conf_or_panic-Logs (err e) = Any-unwrap none

      create_conf-Logs :
          (path : String) (e : WgConfError) → Prepares IsError (create_conf host wg path e)
      unfolding create_conf
      create_conf-Logs path other_error = Any-stop _ refl
      create_conf-Logs path not_found = search (log_rules, conf_or_panic-Logs) depth 60

      conf_or_create-Logs :
          (path : String) (r : Result wg.Conf WgConfError)
          → Prepares IsError (conf_or_create host wg path r)
      unfolding conf_or_create
      conf_or_create-Logs path (ok conf) = Any-pure conf
      conf_or_create-Logs path (err e) = create_conf-Logs path e

      find_peer-Logs :
          (ip : String) (peers : List wg.Peer) (public_ip : Option String)
          → Prepares IsError (find_peer host wg ip peers public_ip)
      unfolding find_peer
      find_peer-Logs ip [] public_ip = Any-pure public_ip
      find_peer-Logs ip (peer ∷ peers) public_ip = elim (Bool-cases (str_eq ip "")) [
        | inl e ↦ rw e (find_peer-Logs ip peers public_ip)
        | inr e ↦ rw e (Any-bind _ _ (Any-unwrap _) (λ first. find_peer-Logs ip peers _))
      ]

      old_peer-Logs :
          (conf : wg.Conf) (ip : Option String) → Prepares IsError (old_peer host wg conf ip)
      unfolding old_peer
      old_peer-Logs conf none = Any-pure none
      old_peer-Logs conf (some ip) = search (log_rules, find_peer-Logs) depth 20

      remove_peer-Logs :
          (conf : wg.Conf) (key : Option String) → Prepares IsError (remove_peer host wg conf key)
      unfolding remove_peer
      remove_peer-Logs conf none = Any-pure conf
      remove_peer-Logs conf (some key) = search log_rules depth 20

      pub server_conf-Logs : (ip : Option String) → Prepares IsError (server_conf host wg ip)
      unfolding server_conf
      server_conf-Logs ip =
          search (log_rules, conf_or_create-Logs, old_peer-Logs, remove_peer-Logs) depth 20
