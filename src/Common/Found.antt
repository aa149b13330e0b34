-- ===== src/Common/Found.antt =====
-- `get_udid_from_ip` in terms of the table of the devices.
use jit_streamer_eb.Prelude.{
  Option, none, some, String, [], ◌∷◌, ◌≡◌, refl, ◌∙◌, subst, Result, ok, err,
}
use jit_streamer_eb.Db.{State, row, done, Sqlite}
use jit_streamer_eb.Db.Table.{Table, Shows, asking, db_prepare_first, statement_next_first}
use jit_streamer_eb.Flow.{Outcome, next, reply, pure, stop, unwrap, or_reply, some_or_reply, ◌>>=◌}
use jit_streamer_eb.Server.{Server, outside}
use jit_streamer_eb.Common.{get_udid_from_ip, read_udid, select_udid, database, no_device}

-- What a lookup replies, by the row that there may be.
abbrev pub Finds :
    String → Option String → Outcome (Result String String) (Result String String) → Type 0
Finds ip (some udid) o = o ≡ next (ok udid)
Finds ip none o = o ≡ reply (err (no_device ip))

module _ {W : Type 0} (db : Sqlite W) {select_ip delete_device insert_device : String}
    (table : Table select_udid select_ip delete_device insert_device db) where
  open table use {rows}

  read_udid-Finds :
      (ip : String) (o : Option String) (state : State) (s : Server W)
      → Shows "udid" o state
      → let p = (do udid ← read_udid db ip (some state); pure (ok udid)) s in
        Finds ip o p.0 × (p.1 ≡ s)
  unfolding read_udid unwrap stop pure ◌>>=◌
  read_udid-Finds ip (some u) (row columns) s h = rw h (refl, refl)
  read_udid-Finds ip none (row columns) s h = absurd h
  read_udid-Finds ip (some u) done s h = absurd h
  read_udid-Finds ip none done s h = (refl, refl)

  -- With an available database, a lookup answers with the UDID in the row of the address, or with
  -- the message that there is no device if there is no such row; it leaves the rows as they are.
  pub get_udid_from_ip-Finds :
      (ip : String) (s : Server W)
      → let p = get_udid_from_ip db ip s in
        Finds ip (rows s.world ip) p.0 × (rows p.1.world ≡ rows s.world)
  unfolding get_udid_from_ip outside or_reply some_or_reply ◌>>=◌
  get_udid_from_ip-Finds ip s =
      let (w1, opened, k1) = table.opens database s.world in
      let (w2, prepared, k2) = table.prepares select_udid w1 in
      let (state, w3, stepped, k3, shows) = table.selects_udid ip w2 in
      let chain : get_udid_from_ip db ip s
          ≡ (do udid ← read_udid db ip (some state); pure (ok udid)) (record s { world = w3 }) =
        rw
          (
            opened,
            db_prepare_first db select_udid w1 w2 prepared,
            statement_next_first db (asking select_udid ((1, ip) ∷ [])) w2 w3 state stepped,
          )
          refl in
      let (found, kept) =
        read_udid-Finds ip (rows s.world ip) state (record s { world = w3 })
          (subst (λ r. Shows "udid" (r ip) state) (k2 ∙ k1) shows) in
      rw chain (found, rw kept (k3 ∙ k2 ∙ k1))
