-- ===== src/Register/Taken.antt =====
-- The devices' rows that are left by `register` of src/register.rs.
use jit_streamer_eb.Prelude.{
  ℕ, Option, none, some, String, str_eq, eq_iff, List, [], ◌∷◌, ◌≡◌, ◌≢◌, refl, sym, subst, ap, ◌∙◌,
  ok, inl, inr, Bool-cases,
}
use mathlib.Core.Path.{fun_ext}
use jit_streamer_eb.Db.{State, row, done, Sqlite, db_prepare, statement_next}
use jit_streamer_eb.Db.Table.{
  Rows, without, unless, ShowsIpOf, asking, db_prepare_first, statement_next_first,
}
use jit_streamer_eb.Net.{IpAddr}
use jit_streamer_eb.Device.{Plist}
use jit_streamer_eb.Flow.{Flow, pure, stop, unwrap, or_reply, some_or_reply, ◌>>=◌}
use jit_streamer_eb.Server.{Server, outside, change}
use jit_streamer_eb.Common.{database}
use jit_streamer_eb.Register.Host.{
  Host, Wireguard, select_ip, delete_device, join, read_ip, note_deleted, take_ip,
}
use jit_streamer_eb.Register.Handler.{udid_of, read_udid, new_address, conclude, register}
use jit_streamer_eb.Register.Rows.{
  Devices, Turns, Turns-bind, Keeps-or_reply, Keeps-unwrap, Keeps-pure, Apart, assign-Keeps,
  conclude-Keeps,
}

unless-other : (udid : String) (o : Option String) → o ≢ some udid → unless udid o ≡ o
unless-other udid none h = refl
unless-other udid (some u) h = elim (Bool-cases (str_eq u udid)) [
  | inl same ↦ absurd (h (ap some ((eq_iff u udid).0 same)))
  | inr other ↦ rw other refl
]

-- A device without a row has none to lose.
without-none :
    (udid : String) (rows : Rows) → ((ip : String) → rows ip ≢ some udid) → without udid rows ≡ rows
without-none udid rows h = fun_ext (λ ip. unless-other udid (rows ip) (h ip))

pub Turns-join :
    {W R Q V : Type 0} {view : W → V} {g : V → V} (m : Flow (Server W) R R)
    → Turns view g m
    → Turns view g (join {Q = Q} m)
unfolding join
Turns-join m q = record { turns = λ s. q.turns s }

module _ {W : Type 0} (db : Sqlite W) (devices : Devices db) where
  open devices use {rows}

  -- The answer of the query decides.
  take_ip-state :
      (udid : String) (s : Server W) (w1 w2 w3 : W) (state : State)
      → db.open_db database s.world ≡ (ok tt, w1)
      → db_prepare db select_ip w1 ≡ (some (asking select_ip []), w2)
      → statement_next db (asking select_ip ((1, udid) ∷ [])) w2 ≡ (some state, w3)
      → ShowsIpOf udid (rows s.world) state
      → rows w3 ≡ rows s.world
      → rows (take_ip db udid s).1.world ≡ without udid (rows s.world)
  unfolding take_ip read_ip note_deleted outside or_reply some_or_reply unwrap pure stop change
      ◌>>=◌
  take_ip-state udid s w1 w2 w3 done e f g shows k =
      rw (e, f, g) (k ∙ sym (without-none udid (rows s.world) shows))
  take_ip-state udid s w1 w2 w3 (row columns) e f g shows k =
      let (w4, prepared, k4) = devices.prepares delete_device w3 in
      let (state, w5, stepped, k5) = devices.deletes udid w4 in
      rw
        (
          e,
          f,
          g,
          shows.1,
          db_prepare_first db delete_device w3 w4 prepared,
          statement_next_first db (asking delete_device ((1, udid) ∷ [])) w4 w5 state stepped,
        )
        (k5 ∙ ap (without udid) (k4 ∙ k))

  pub take_ip-Turns : (udid : String) → Turns rows (without udid) (take_ip db udid)
  take_ip-Turns udid = record {
    turns = λ s.
        let (w1, opened, k1) = devices.opens database s.world in
        let (w2, prepared, k2) = devices.prepares select_ip w1 in
        let (state, w3, stepped, k3, shows) = devices.selects_ip udid w2 in
        take_ip-state udid s w1 w2 w3 state opened (db_prepare_first db select_ip w1 w2 prepared)
          (statement_next_first db (asking select_ip ((1, udid) ∷ [])) w2 w3 state stepped)
          (subst (λ r. ShowsIpOf udid r state) (k2 ∙ k1) shows) (k3 ∙ k2 ∙ k1);
  }

  module _ (host : Host W) (wg : Wireguard W) (apart : Apart rows host wg) where
    new_address-Turns :
        (client_ip : IpAddr) (udid : String)
        → Turns rows (without udid) (new_address host wg db client_ip udid)
    unfolding new_address
    new_address-Turns client_ip udid = Turns-bind _ _ (Turns-join _ (take_ip-Turns udid)) (λ found.
        Turns-bind _ _ (Keeps-or_reply _ _) (λ ip. Turns-bind _ _ (Keeps-unwrap _) (λ mode.
          Turns-bind _ _ (assign-Keeps host wg apart mode client_ip udid ip)
            (λ a. Keeps-pure (mode, a.0, a.1)))))

    module _ (plist : Plist) (from_bytes : List ℕ → Option (plist.Dictionary)) where
      register-named :
          (client_ip : IpAddr) (plist_bytes : List ℕ) (d : plist.Dictionary) (udid : String)
          (s : Server W)
          → from_bytes plist_bytes ≡ some d
          → udid_of plist d ≡ some udid
          → register host wg plist from_bytes db client_ip plist_bytes s
            ≡ (new_address host wg db client_ip udid >>= conclude host plist_bytes udid) s
      unfolding register read_udid some_or_reply ◌>>=◌
      register-named client_ip plist_bytes d udid s e f = rw (e, f) refl

      -- With an available database, that the system and WireGuard leave alone, a registration
      -- whose property list names a device leaves every row of other devices and none of the
      -- device, whether it succeeds, is refused or panics.
      pub register-without :
          (client_ip : IpAddr) (plist_bytes : List ℕ) (d : plist.Dictionary) (udid : String)
          (s : Server W)
          → from_bytes plist_bytes ≡ some d
          → udid_of plist d ≡ some udid
          → rows (register host wg plist from_bytes db client_ip plist_bytes s).1.world
            ≡ without udid (rows s.world)
      register-without client_ip plist_bytes d udid s e f =
          rw (register-named client_ip plist_bytes d udid s e f) (
            (Turns-bind _ _ (new_address-Turns client_ip udid)
                (conclude-Keeps host wg apart plist_bytes udid)).turns
              s)
