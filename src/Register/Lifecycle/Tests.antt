-- ===== src/Register/Lifecycle/Tests.antt =====
-- A database of devices: a log of what was written at each address, the latest entry first, and
-- registrations with it.
use jit_streamer_eb.Prelude.{
  ℕ, Option, none, some, String, str_eq, eq_iff, List, [], ◌∷◌, ◌≡◌, ◌≢◌, refl, subst, ap, Result,
  ok, err, Bool, true, false, Bool-cases, inl, inr, if◌then◌else◌, ◌↔◌, arith,
}
use mathlib.Core.Path.{fun_ext}
use jit_streamer_eb.Db.{Sqlite, State, row, done}
use jit_streamer_eb.Db.Table.{Rows, without, unless, Shows, ShowsIpOf}
use jit_streamer_eb.Common.{select_udid}
use jit_streamer_eb.Register.Host.{select_ip}
use jit_streamer_eb.Register.Rows.{Devices, Apart}
use jit_streamer_eb.Register.Taken.{register-without}
use jit_streamer_eb.Register.Lifecycle.{lookup-registered, lookup-refused, registered}
use jit_streamer_eb.Register.Handler.{direct_ip, text_of, register}
use jit_streamer_eb.Register.Handler.Tests.{host, wireguard, plists, read, client}
use jit_streamer_eb.Server.{Server}
use jit_streamer_eb.Handlers.Tests.{own}
use jit_streamer_eb.Net.{to_string}
use jit_streamer_eb.Common.{get_udid_from_ip}
use jit_streamer_eb.Common.Found.{get_udid_from_ip-Finds}
use jit_streamer_eb.Flow.{next}

abbrev pub Log : Type 0
Log = List (String × Option String)

abbrev pub look : Log → Rows
look [] ip = none
look ((k, v) ∷ log) ip = if str_eq k ip then v else look log ip

abbrev is_of : String → Option String → Bool
is_of udid none = false
is_of udid (some u) = str_eq u udid

abbrev answer : Option String → State
answer none = done
answer (some v) = row (λ column. some v)

abbrev search_ip : String → Log → Log → State
search_ip udid log [] = done
search_ip udid log ((k, v) ∷ rest) =
    let later = search_ip udid log rest in
    if is_of udid (look log k) then row (λ column. some k) else later

abbrev erase : String → Log → Log
erase udid [] = []
erase udid ((k, v) ∷ log) = (k, unless udid v) ∷ erase udid log

abbrev insert_row : String → String → Option String → Log → Result State (Unit {0}) × Log
insert_row udid ip none log = (ok done, (ip, some udid) ∷ log)
insert_row udid ip (some u) log = (err tt, log)

abbrev execute : String → List (ℕ × String) → Log → Result State (Unit {0}) × Log
execute query [] log = (err tt, log)
execute query ((i, a) ∷ []) log =
    if str_eq query select_udid
    then (ok (answer (look log a)), log)
    else if str_eq query select_ip
    then (ok (search_ip a log log), log)
    else (ok done, erase a log)
execute query ((i, a) ∷ (j, b) ∷ rest) log = insert_row a b (look log b) log

abbrev pub sqlite : Sqlite Log
sqlite = record {
  open_db = λ path log. (ok tt, log);
  prepare = λ query log. (ok tt, log);
  step = λ statement log. execute (statement.query) (statement.bindings) log;
  sleep = λ log. log;
}

pub answer-Shows : (column : String) (o : Option String) → Shows column o (answer o)
answer-Shows column none = tt
answer-Shows column (some v) = refl

is_of_iff : (udid : String) (o : Option String) → (is_of udid o ≡ true) ↔ (o ≡ some udid)
is_of_iff udid none = ground arith
is_of_iff udid (some u) = ground (arith, eq_iff u udid)

-- Either an address of the device is found, or none of the entries seen is the device's.
abbrev Searched : String → Log → Log → State → Type 0
Searched udid log rest (row columns) = ShowsIpOf udid (look log) (row columns)
Searched udid log rest done = (ip : String) → look rest ip ≡ some udid → look log ip ≢ some udid

pub search_ip-Searched :
    (udid : String) (log rest : Log) → Searched udid log rest (search_ip udid log rest)
search_ip-Searched udid log [] = λ ip h. ground arith
search_ip-Searched udid log ((k, v) ∷ rest) = elim (Bool-cases (is_of udid (look log k))) [
  | inl e ↦ rw e (k, refl, (is_of_iff udid (look log k)).0 e)
  | inr e ↦
      rw e (later udid log k v rest (search_ip udid log rest) (search_ip-Searched udid log rest) e)
]
  where
    later :
        (udid : String) (log : Log) (k : String) (v : Option String) (rest : Log) (state : State)
        → Searched udid log rest state
        → is_of udid (look log k) ≡ false
        → Searched udid log ((k, v) ∷ rest) state
    later udid log k v rest (row columns) h e = h
    later udid log k v rest done h e = λ ip q. elim (Bool-cases (str_eq k ip)) [
      | inl same ↦ ground (arith, is_of_iff udid (look log k), ap (look log) ((eq_iff k ip).0 same))
      | inr other ↦ h ip (subst (λ b. (if b then v else look rest ip) ≡ some udid) other q)
    ]

pub look-erase :
    (udid : String) (log : Log) (ip : String) → look (erase udid log) ip ≡ unless udid (look log ip)
look-erase udid [] ip = refl
look-erase udid ((k, v) ∷ log) ip = elim (Bool-cases (str_eq k ip)) [
  | inl e ↦ rw e refl
  | inr e ↦ rw e (look-erase udid log ip)
]

pub shows_ip :
    (udid : String) (log : Log) (state : State)
    → Searched udid log log state
    → ShowsIpOf udid (look log) state
shows_ip udid log (row columns) h = h
shows_ip udid log done h = λ ip e. h ip e e

abbrev pub table : Devices sqlite
table = record {
  rows = look;
  sleeps = λ log. refl;
  opens = λ path log. (log, refl, refl);
  prepares = λ query log. (log, refl, refl);
  selects_udid =
      λ ip log. (answer (look log ip), log, refl, refl, answer-Shows "udid" (look log ip));
  selects_ip = λ udid log. (
    search_ip udid log log,
    log,
    refl,
    refl,
    shows_ip udid log _ (search_ip-Searched udid log log),
  );
  deletes = λ udid log. (done, erase udid log, refl, fun_ext (look-erase udid log));
  inserts = λ udid ip log h. (done, (ip, some udid) ∷ log, rw h refl, refl);
  conflicts = λ udid ip other log h. (log, rw h refl, refl);
}

apart : Apart look (host "2") wireguard
apart = record {
  create_dir_all = λ path log. refl;
  write = λ path bytes log. refl;
  bash = λ command log. refl;
  generate_private_key = λ log. refl;
  create = λ path interface log. refl;
  open_conf = λ path log. refl;
  peers = λ conf log. refl;
  remove_peer_by_pub_key = λ conf key log. refl;
  generate_peer = λ conf ip endpoint allowed log. refl;
}

-- `udid-1` has an address that it leaves, and `udid-2` one that it keeps.
abbrev pub log : Log
log = ("fd00::9", some "udid-1") ∷ ("fd00::2", some "udid-2") ∷ []

-- `udid-2` has the address that `udid-1` asks for.
abbrev contested : Log
contested =
    (text_of {W = Log} (host "2") (direct_ip client), some "udid-2")
    ∷ ("fd00::9", some "udid-1")
    ∷ []

abbrev pub server : Log → Server Log
server log = record { world = log; pairing_file_storage = "/var/lib/lockdown"; own = own }

get_udid_from_ip-Finds_example :
    let p = get_udid_from_ip sqlite "fd00::2" (server log) in
    (p.0 ≡ next (ok "udid-2")) × (look p.1.world ≡ look log)
get_udid_from_ip-Finds_example = get_udid_from_ip-Finds sqlite table "fd00::2" (server log)

register-without_example :
    look (register (host "2") wireguard plists read sqlite client (7 ∷ []) (server log)).1.world
    ≡ without "udid-1" (look log)
register-without_example =
    register-without sqlite table (host "2") wireguard apart plists read client (7 ∷ []) "udid-1"
      "udid-1" (server log) refl refl

lookup-registered_example :
    (get_udid_from_ip sqlite "::ffff:10.7.0.1" (
      registered sqlite table
        (host "2")
        wireguard
        apart
        plists
        read
        client
        (7 ∷ [])
        "udid-1"
        (direct_ip client)
        (server log))).0
    ≡ next (ok "udid-1")
unfolding to_string
lookup-registered_example =
    lookup-registered sqlite table (host "2") wireguard apart plists read client (7 ∷ []) "udid-1"
      "udid-1" (direct_ip client) (server log) refl refl refl "::ffff:10.7.0.1"

lookup-refused_example :
    (get_udid_from_ip sqlite "::ffff:10.7.0.1" (
      registered sqlite table
        (host "2")
        wireguard
        apart
        plists
        read
        client
        (7 ∷ [])
        "udid-1"
        (direct_ip client)
        (server contested))).0
    ≡ next (ok "udid-2")
unfolding to_string
lookup-refused_example =
    lookup-refused sqlite table (host "2") wireguard apart plists read client (7 ∷ []) "udid-1"
      "udid-1" "udid-2" (direct_ip client) (server contested) refl refl refl "::ffff:10.7.0.1"
