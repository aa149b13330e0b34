-- ===== src/Db.antt =====
-- src/db.rs, and what the program asks of SQLite. The `sqlite` crate is not part of the repository:
-- `Sqlite` is its interface as the program uses it, over a type `W` of states of the world.
pub mod Retry
pub mod Table
mod Tests
use jit_streamer_eb.Prelude.{
  ℕ, zero, suc, Option, none, some, String, List, [], ◌∷◌, ◌++◌, Result, ok, err,
}

-- `sqlite::Statement`: the text that was prepared, and the values bound to its parameters.
pub record Statement : Type 0 where
  pub query : String
  pub bindings : List (ℕ × String)

-- `sqlite::State`; a row is read by the names of its columns.
pub data State : Type 0 where
  row : (String → Option String) → State
  done : State

pub record Sqlite (W : Type 0) : Type 0 where
  -- `sqlite::open(path)`, with the error as `{:?}` prints it
  pub open_db : String → W → Result (Unit {0}) String × W
  -- `db.prepare(query)`
  pub prepare : String → W → Result (Unit {0}) (Unit {0}) × W
  -- `statement.next()`
  pub step : Statement → W → Result State (Unit {0}) × W
  -- `std::thread::sleep(Duration::from_millis(100))`
  pub sleep : W → W

-- `for _ in 0..n { match attempt { Ok(s) => return Some(s), Err(_) => sleep } } None`
unfoldable pub retry {ℓ} : {W A E : Type ℓ} → ℕ → (W → Result A E × W) → (W → W) → W → Option A × W
retry zero attempt pause w = (none, w)
retry (suc n) attempt pause w =
    let (r, w') = attempt w in
    elim r [ ok a ↦ (some a, w') | err e ↦ retry n attempt pause (pause w') ]

abbrev pub attempts : ℕ
attempts = 50

module _ {W : Type 0} (db : Sqlite W) where
  unfoldable pub db_prepare : String → W → Option Statement × W
  db_prepare query w =
      let (prepared, w') = retry attempts (db.prepare query) db.sleep w in
      elim prepared [
        | none ↦ (none, w')
        | some _ ↦ (some (record { query = query; bindings = [] }), w')
      ]

  unfoldable pub statement_next : Statement → W → Option State × W
  statement_next statement w = retry attempts (db.step statement) db.sleep w

-- `statement.bind(…)`
abbrev pub bind : List (ℕ × String) → Statement → Statement
bind values statement = record statement { bindings = statement.bindings ++ values }
