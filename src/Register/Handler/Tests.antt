-- ===== src/Register/Handler/Tests.antt =====
-- Registrations on a host where every call succeeds, with a device that is known already. A property
-- list is the UDID that it names.
use jit_streamer_eb.Prelude.{
  ℕ, ◌≡◌, refl, Option, none, some, String, List, [], ◌∷◌, ok, err, str_eq, if◌then◌else◌, ◌↔◌, ◌⊎◌,
  replicate,
}
use jit_streamer_eb.Db.{row, Sqlite, retry, db_prepare, statement_next}
use jit_streamer_eb.Device.{string, Plist}
use jit_streamer_eb.Net.{IpAddr, v4, to_string}
use jit_streamer_eb.Flow.{next, reply, panicked, pure, unwrap, or_reply, some_or_reply, ◌>>=◌}
use jit_streamer_eb.Server.{Server, deleted, stored, inserting, outside, change}
use jit_streamer_eb.Version.{parse_uint, parse_digits}
use jit_streamer_eb.Handlers.Tests.{own}
use jit_streamer_eb.Register.Host.{
  Host, Wireguard, bad_request, join, take_ip, read_ip, note_deleted,
}
use jit_streamer_eb.Register.Handler.{
  udid_of, read_udid, new_address, assign, conclude, save_plist, refresh, register, direct_ip,
}
use jit_streamer_eb.Register.Wireguard.{find_peer}
use jit_streamer_eb.Register.Handler.Registers.{
  NamesNone, IsServers, Registers, register-bad_request,
}
use jit_streamer_eb.Register.Handler.Peers.{HasBarePeer, find_peer-panics_iff}

abbrev known : Sqlite Unit
known = record {
  open_db = λ path w. (ok tt, w);
  prepare = λ query w. (ok tt, w);
  step = λ statement w. (ok (row (λ column. some "fd00::1")), w);
  sleep = λ w. w;
}

abbrev mode_text : String → List ℕ
mode_text s = if str_eq s "2" then b'2' ∷ [] else b'1' ∷ []

-- A host that registers in the mode of the text.
abbrev pub host : {W : Type 0} → String → Host W
host mode = record {
  env = λ name. if str_eq name "ALLOW_REGISTRATION" then some mode else none;
  os = "linux";
  as_bytes = mode_text;
  hash = λ bytes. replicate 32 1;
  create_dir_all = λ path w. (ok tt, w);
  write = λ path bytes w. (ok tt, w);
  bash = λ command w. (some tt, w);
}

abbrev pub wireguard : {W : Type 0} → Wireguard W
wireguard = record {
  Conf = Unit;
  Key = Unit;
  Interface = Unit;
  Peer = String × List String;
  Address = Unit;
  Endpoint = Unit;
  Allowed = Unit;
  parse_address = λ s. some tt;
  parse_allowed = λ s. some tt;
  parse_endpoint = λ s. some tt;
  generate_private_key = λ w. (some tt, w);
  new_interface = λ key address port. some tt;
  create = λ path interface w. (some tt, w);
  open_conf = λ path w. (ok tt, w);
  peers = λ conf w. (ok (("key-1", "fd00::1" ∷ []) ∷ ("key-2", "fd00::2" ∷ []) ∷ []), w);
  allowed_ips = λ p. p.1;
  public_key = λ p. p.0;
  remove_peer_by_pub_key = λ conf key w. (some tt, w);
  generate_peer = λ conf ip endpoint allowed w. (ok "config", w);
}

abbrev pub plists : Plist
plists = record {
  Value = String;
  Dictionary = String;
  shape = λ v. string v;
  get = λ d key. if str_eq key "UDID" then some d else none;
}

abbrev pub read : List ℕ → Option String
read bytes = elim bytes [ [] ↦ none | b ∷ l ↦ some "udid-1" ]

abbrev server : Server Unit
server = record { world = tt; pairing_file_storage = "/var/lib/lockdown"; own = own }

abbrev pub client : IpAddr
client = v4 10 7 0 1

registered_directly : register (host "2") wireguard plists read known client (7 ∷ []) server ≡ (
  next (ok (b'1' ∷ [])),
  record server {
    own = record own {
      changes =
          deleted "udid-1"
          ∷ stored "/var/lib/lockdown/udid-1.plist" (7 ∷ [])
          ∷ inserting "udid-1" (direct_ip client)
          ∷ [];
    };
  },
)
unfolding register read_udid new_address join take_ip read_ip note_deleted assign conclude
    save_plist refresh parse_uint parse_digits db_prepare statement_next retry to_string ◌>>=◌
    outside change or_reply some_or_reply unwrap pure
registered_directly = refl

register-bad_request_example :
    let p = register (host "1") wireguard plists read known client [] server in
    (NamesNone (host "1") wireguard plists read known []
      × ((message : String) × (p ≡ (reply (err (bad_request, message)), server))))
    ⊎ ((d : String) × (udid : String) × (read [] ≡ some d)
        × (udid_of plists d ≡ some udid)
        × IsServers p.0)
register-bad_request_example =
    register-bad_request (host "1") wireguard plists read known client [] server

abbrev bare : List (String × List String)
bare = ("key-1", "fd00::1" ∷ []) ∷ ("key-2", []) ∷ []

find_peer-panics_iff_example :
    ((find_peer (host "1") wireguard "fd00::1" bare none server).0 ≡ panicked)
    ↔ HasBarePeer {W = Unit} (host "1") wireguard bare
find_peer-panics_iff_example =
    find_peer-panics_iff (host "1") wireguard "fd00::1" bare none server refl
