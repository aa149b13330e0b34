-- ===== src/Db/Table.antt =====
-- The table `devices` of src/sql/up.sql, behind the statements of the source: what SQLite documents
-- of them when it is available. `ip` is the table's primary key, so that a row is found by it.
use jit_streamer_eb.Prelude.{
  ℕ, suc, Option, none, some, String, str_eq, if◌then◌else◌, List, [], ◌∷◌, ◌≡◌, ◌≢◌, refl, ◌∙◌,
  sym, subst, arith, ok, err, Result,
}
use Prim.Native.Nat.{zero}
use jit_streamer_eb.Db.{Statement, State, row, done, Sqlite, retry, db_prepare, statement_next}
use jit_streamer_eb.Db.Retry.{retry-ok, retry-err}

-- Each address with the UDID of its device.
abbrev pub Rows : Type 0
Rows = String → Option String

-- What is left of an answer when it must not be a device.
abbrev pub unless : String → Option String → Option String
unless udid none = none
unless udid (some u) = if str_eq u udid then none else some u

-- The rows without those of a device.
abbrev pub without : String → Rows → Rows
without udid rows ip = unless udid (rows ip)

abbrev pub with_row : String → String → Rows → Rows
with_row ip udid rows j = if str_eq ip j then some udid else rows j

-- The answer of a query for the one column of the one row that there may be.
abbrev pub Shows : String → Option String → State → Type 0
Shows column none (row columns) = ⊥
Shows column (some v) (row columns) = columns column ≡ some v
Shows column none done = Unit
Shows column (some v) done = ⊥

-- The answer of a query for the address of some row of a device.
abbrev pub ShowsIpOf : String → Rows → State → Type 0
ShowsIpOf udid rows (row columns) = (ip : String) × (columns "ip" ≡ some ip) × (rows ip ≡ some udid)
ShowsIpOf udid rows done = (ip : String) → rows ip ≢ some udid

abbrev pub asking : String → List (ℕ × String) → Statement
asking query bindings = record { query = query; bindings = bindings }

-- `select_udid`, `select_ip`, `delete_device` and `insert_device` are the texts of the statements.
pub record Table {W : Type 0} (select_udid select_ip delete_device insert_device : String)
    (db : Sqlite W) : Type 0 where
  pub rows : W → Rows
  pub sleeps : (w : W) → rows (db.sleep w) ≡ rows w
  pub opens :
      (path : String) (w : W) → (v : W) × (db.open_db path w ≡ (ok tt, v)) × (rows v ≡ rows w)
  pub prepares :
      (query : String) (w : W) → (v : W) × (db.prepare query w ≡ (ok tt, v)) × (rows v ≡ rows w)
  pub selects_udid :
      (ip : String) (w : W)
      → (state : State) × (v : W) × (db.step (asking select_udid ((1, ip) ∷ [])) w ≡ (ok state, v))
        × (rows v ≡ rows w)
        × Shows "udid" (rows w ip) state
  pub selects_ip :
      (udid : String) (w : W)
      → (state : State) × (v : W) × (db.step (asking select_ip ((1, udid) ∷ [])) w ≡ (ok state, v))
        × (rows v ≡ rows w)
        × ShowsIpOf udid (rows w) state
  pub deletes :
      (udid : String) (w : W)
      → (state : State) × (v : W) × (db.step (asking delete_device ((1, udid) ∷ [])) w
          ≡ (ok state, v))
        × (rows v ≡ without udid (rows w))
  pub inserts :
      (udid ip : String) (w : W)
      → rows w ip ≡ none
      → (state : State) × (v : W) × (db.step (asking insert_device ((1, udid) ∷ (2, ip) ∷ [])) w
          ≡ (ok state, v))
        × (rows v ≡ with_row ip udid (rows w))
  -- The primary key: a second row with the address is refused.
  pub conflicts :
      (udid ip other : String) (w : W)
      → rows w ip ≡ some other
      → (v : W) × (db.step (asking insert_device ((1, udid) ∷ (2, ip) ∷ [])) w ≡ (err tt, v))
        × (rows v ≡ rows w)

-- A loop whose attempts all fail ends with nothing, and keeps what they and the pauses keep.
pub retry_never :
    {W A E V : Type 0} (view : W → V) (attempt : W → Result A E × W) (pause : W → W) (z : V)
    → ((w : W) → view w ≡ z → (e : E) × (v : W) × (attempt w ≡ (err e, v)) × (view v ≡ z))
    → ((w : W) → view (pause w) ≡ view w)
    → (n : ℕ) (w : W) → view w ≡ z
    → ((retry n attempt pause w).0 ≡ none) × (view (retry n attempt pause w).1 ≡ z)
unfolding retry
retry_never view attempt pause z fails rests zero w h = (refl, h)
retry_never view attempt pause z fails rests (suc n) w h =
    let (e, v, a, k) = fails w h in
    subst (λ p. (p.0 ≡ none) × (view p.1 ≡ z)) (sym (retry-err attempt pause n w a))
      (retry_never view attempt pause z fails rests n (pause v) (rests v ∙ k))

module _ {W : Type 0} (db : Sqlite W) where
  pub db_prepare_first :
      (query : String) (w v : W)
      → db.prepare query w ≡ (ok tt, v)
      → db_prepare db query w ≡ (some (asking query []), v)
  unfolding db_prepare
  db_prepare_first query w v e = ground (arith, retry-ok (db.prepare query) db.sleep 49 w e)

  pub statement_next_first :
      (statement : Statement) (w v : W) (state : State)
      → db.step statement w ≡ (ok state, v)
      → statement_next db statement w ≡ (some state, v)
  unfolding statement_next
  statement_next_first statement w v state e = retry-ok (db.step statement) db.sleep 49 w e
