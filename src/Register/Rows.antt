-- ===== src/Register/Rows.antt =====
-- What `register` of src/register.rs does to the table of the devices: of its parts, only the lookup of the
-- device's old address changes it.
use jit_streamer_eb.Prelude.{
  ℕ, ◌==◌, Bool-cases, Option, none, some, String, str_eq, List, [], ◌∷◌, ◌≡◌, refl, ◌∙◌, Result,
  ok, err, inl, inr,
}
use jit_streamer_eb.Db.{Sqlite}
use jit_streamer_eb.Db.Table.{Rows, Table}
use jit_streamer_eb.Net.{IpAddr, Ipv6}
use jit_streamer_eb.Flow.{
  Outcome, next, reply, panicked, Flow, pure, stop, unwrap, or_reply, ◌>>=◌, continue,
}
use jit_streamer_eb.Server.{Server, Change, outside, change}
use jit_streamer_eb.Common.{select_udid}
use jit_streamer_eb.Register.Host.{
  Host, WgConfError, not_found, other_error, Wireguard, select_ip, delete_device,
  insert_device_query,
}
use jit_streamer_eb.Register.Wireguard.{
  conf_or_panic, create_conf, conf_or_create, find_peer, old_peer, remove_peer, server_conf,
  add_peer, register_wireguard,
}
use jit_streamer_eb.Register.Handler.{
  run_bash, refresh_wireguard, save_plist, refresh, conclude, assign,
}

-- The table of the program's four statements.
abbrev pub Devices : {W : Type 0} → Sqlite W → Type 0
Devices db = Table select_udid select_ip delete_device insert_device_query db

-- Code that changes what is seen of the world as a function does, however it ends.
pub record Turns {W R A V : Type 0} (view : W → V) (g : V → V) (m : Flow (Server W) R A)
    : Type 0 where
  pub turns : (s : Server W) → view (m s).1.world ≡ g (view s.world)

abbrev pub Keeps : {W R A V : Type 0} → (W → V) → Flow (Server W) R A → Type 0
Keeps view m = Turns view (λ v. v) m

module _ {W R A V : Type 0} {view : W → V} where
  pub Keeps-pure : (a : A) → Keeps {R = R} view (pure a)
  unfolding pure
  Keeps-pure a = record { turns = λ s. refl }

  pub Keeps-stop : (r : R) → Keeps {A = A} view (stop r)
  unfolding stop
  Keeps-stop r = record { turns = λ s. refl }

  pub Keeps-unwrap : (o : Option A) → Keeps {R = R} view (unwrap o)
  unfolding unwrap
  Keeps-unwrap none = record { turns = λ s. refl }
  Keeps-unwrap (some a) = record { turns = λ s. refl }

  pub Keeps-or_reply : {E : Type 0} (f : E → R) (r : Result A E) → Keeps view (or_reply f r)
  unfolding or_reply
  Keeps-or_reply f (ok a) = record { turns = λ s. refl }
  Keeps-or_reply f (err e) = record { turns = λ s. refl }

  pub Keeps-outside :
      (f : W → A × W) → ((w : W) → view (f w).1 ≡ view w) → Keeps {R = R} view (outside f)
  unfolding outside
  Keeps-outside f h = record { turns = λ s. h s.world }

module _ {W R V : Type 0} {view : W → V} where
  pub Keeps-change : (c : Change) → Keeps {R = R} view (change c)
  unfolding change
  Keeps-change c = record { turns = λ s. refl }

module _ {W R A B V : Type 0} {view : W → V} where
  continue-Keeps :
      (f : A → Flow (Server W) R B)
      → ((a : A) → Keeps view (f a))
      → (o : Outcome R A) (s : Server W) → view (continue o f s).1.world ≡ view s.world
  continue-Keeps f q (next a) s = (q a).turns s
  continue-Keeps f q (reply r) s = refl
  continue-Keeps f q panicked s = refl

module _ {W R A B V : Type 0} {view : W → V} {g : V → V} where
  pub Turns-bind :
      (m : Flow (Server W) R A) (f : A → Flow (Server W) R B)
      → Turns view g m
      → ((a : A) → Keeps view (f a))
      → Turns view g (m >>= f)
  unfolding ◌>>=◌
  Turns-bind m f qm qf = record { turns = λ s. continue-Keeps f qf (m s).0 (m s).1 ∙ qm.turns s }

pub ruleset keep_rules =
    (Keeps-pure, Keeps-stop, Keeps-unwrap, Keeps-or_reply, Keeps-outside, Keeps-change, Turns-bind)

-- The calls of the system and of `wg_config` leave the database alone.
pub record Apart {W : Type 0} (rows : W → Rows) (host : Host W) (wg : Wireguard W) : Type 0 where
  pub create_dir_all : (path : String) (w : W) → rows (host.create_dir_all path w).1 ≡ rows w
  pub write : (path : String) (bytes : List ℕ) (w : W) → rows (host.write path bytes w).1 ≡ rows w
  pub bash : (command : String) (w : W) → rows (host.bash command w).1 ≡ rows w
  pub generate_private_key : (w : W) → rows (wg.generate_private_key w).1 ≡ rows w
  pub create :
      (path : String) (interface : wg.Interface) (w : W)
      → rows (wg.create path interface w).1 ≡ rows w
  pub open_conf : (path : String) (w : W) → rows (wg.open_conf path w).1 ≡ rows w
  pub peers : (conf : wg.Conf) (w : W) → rows (wg.peers conf w).1 ≡ rows w
  pub remove_peer_by_pub_key :
      (conf : wg.Conf) (key : String) (w : W)
      → rows (wg.remove_peer_by_pub_key conf key w).1 ≡ rows w
  pub generate_peer :
      (conf : wg.Conf) (ip : Ipv6) (endpoint : wg.Endpoint) (allowed : wg.Allowed) (w : W)
      → rows (wg.generate_peer conf ip endpoint allowed w).1 ≡ rows w

module _ {W : Type 0} {rows : W → Rows} (host : Host W) (wg : Wireguard W)
    (apart : Apart rows host wg) where
  conf_or_panic-Keeps : (r : Result wg.Conf WgConfError) → Keeps rows (conf_or_panic host wg r)
  unfolding conf_or_panic
  conf_or_panic-Keeps (ok conf) = Keeps-pure conf
  conf_or_panic-Keeps (err e) = Keeps-unwrap none

  create_conf-Keeps : (path : String) (e : WgConfError) → Keeps rows (create_conf host wg path e)
  unfolding create_conf
  create_conf-Keeps path other_error = Keeps-stop _
  create_conf-Keeps path not_found =
      search
        (keep_rules, apart.generate_private_key, apart.create, apart.open_conf, conf_or_panic-Keeps)
        depth 60

  conf_or_create-Keeps :
      (path : String) (r : Result wg.Conf WgConfError) → Keeps rows (conf_or_create host wg path r)
  unfolding conf_or_create
  conf_or_create-Keeps path (ok conf) = Keeps-pure conf
  conf_or_create-Keeps path (err e) = create_conf-Keeps path e

  find_peer-Keeps :
      (ip : String) (peers : List wg.Peer) (public_ip : Option String)
      → Keeps rows (find_peer host wg ip peers public_ip)
  unfolding find_peer
  find_peer-Keeps ip [] public_ip = Keeps-pure public_ip
  find_peer-Keeps ip (peer ∷ peers) public_ip = elim (Bool-cases (str_eq ip "")) [
    | inl e ↦ rw e (find_peer-Keeps ip peers public_ip)
    | inr e ↦ rw e (Turns-bind _ _ (Keeps-unwrap _) (λ first. find_peer-Keeps ip peers _))
  ]

  old_peer-Keeps : (conf : wg.Conf) (ip : Option String) → Keeps rows (old_peer host wg conf ip)
  unfolding old_peer
  old_peer-Keeps conf none = Keeps-pure none
  old_peer-Keeps conf (some ip) = search (keep_rules, apart.peers, find_peer-Keeps) depth 20

  remove_peer-Keeps :
      (conf : wg.Conf) (key : Option String) → Keeps rows (remove_peer host wg conf key)
  unfolding remove_peer
  remove_peer-Keeps conf none = Keeps-pure conf
  remove_peer-Keeps conf (some key) = search (keep_rules, apart.remove_peer_by_pub_key) depth 20

  server_conf-Keeps : (ip : Option String) → Keeps rows (server_conf host wg ip)
  unfolding server_conf
  server_conf-Keeps ip =
      search (keep_rules, apart.open_conf, conf_or_create-Keeps, old_peer-Keeps, remove_peer-Keeps)
        depth 20

  add_peer-Keeps : (conf : wg.Conf) (ip : Ipv6) → Keeps rows (add_peer host wg conf ip)
  unfolding add_peer
  add_peer-Keeps conf ip = search (keep_rules, apart.generate_peer) depth 60

  register_wireguard-Keeps :
      (udid : String) (ip : Option String) → Keeps rows (register_wireguard host wg udid ip)
  unfolding register_wireguard
  register_wireguard-Keeps udid ip = search (keep_rules, server_conf-Keeps, add_peer-Keeps) depth 20

  pub assign-Keeps :
      (mode : ℕ) (client_ip : IpAddr) (udid : String) (ip : Option String)
      → Keeps rows (assign host wg mode client_ip udid ip)
  unfolding assign
  assign-Keeps mode client_ip udid ip = elim (Bool-cases (mode == 1)) [
    | inl e ↦ rw e (register_wireguard-Keeps udid ip)
    | inr e ↦ elim (Bool-cases (mode == 2)) [
      | inl f ↦ rw (e, f) (Keeps-pure _)
      | inr f ↦ rw (e, f) (Keeps-stop _)
    ]
  ]

  run_bash-Keeps : (command : String) → Keeps rows (run_bash host command)
  unfolding run_bash
  run_bash-Keeps command = search (keep_rules, apart.bash) depth 20

  refresh-Keeps : (mode : ℕ) (ip : Ipv6) → Keeps rows (refresh host mode ip)
  unfolding refresh refresh_wireguard
  refresh-Keeps mode ip = elim (Bool-cases (mode == 1)) [
    | inl e ↦ rw e (Turns-bind _ _ (run_bash-Keeps _) (λ _. run_bash-Keeps _))
    | inr e ↦ rw e (Keeps-pure tt)
  ]

  save_plist-Keeps : (udid : String) (bytes : List ℕ) → Keeps rows (save_plist host udid bytes)
  unfolding save_plist
  save_plist-Keeps udid bytes = search (keep_rules, apart.create_dir_all, apart.write) depth 20

  pub conclude-Keeps :
      (bytes : List ℕ) (udid : String) (a : ℕ × Ipv6 × List ℕ)
      → Keeps rows (conclude host bytes udid a)
  unfolding conclude
  conclude-Keeps bytes udid (mode, ip, config) =
      search (keep_rules, save_plist-Keeps, refresh-Keeps) depth 20
