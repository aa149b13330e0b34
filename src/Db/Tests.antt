-- ===== src/Db/Tests.antt =====
-- The retry loops against a database that is locked for its first two calls. The world counts the
-- calls.
use jit_streamer_eb.Prelude.{
  ℕ, ◌+◌, ◌≡◌, ◌↔◌, refl, none, some, [], Result, ok, err, ltb, if◌then◌else◌,
}
use jit_streamer_eb.Db.{Statement, State, done, Sqlite, retry, db_prepare, statement_next}
use jit_streamer_eb.Db.Retry.{Succeeds, Fails, statement_next-retries, db_prepare-retries}

abbrev locked : {A : Type 0} → A → ℕ → Result A (Unit {0}) × ℕ
locked a w = if ltb w 2 then (err tt, w + 1) else (ok a, w + 1)

abbrev busy : Sqlite ℕ
busy = record {
  open_db = λ path w. (ok tt, w);
  prepare = λ query w. locked tt w;
  step = λ statement w. locked done w;
  sleep = λ w. w;
}

abbrev query : Statement
query = record { query = "SELECT 1"; bindings = [] }

third_attempt : statement_next busy query 0 ≡ (some done, 3)
unfolding statement_next retry
third_attempt = refl

statement_next-retries_example :
    ((s : State)
      → (statement_next busy query 0 ≡ (some s, 3))
        ↔ Succeeds (busy.step query) busy.sleep 50 0 s 3)
    × ((statement_next busy query 0 ≡ (none, 3)) ↔ Fails (busy.step query) busy.sleep 50 0 3)
statement_next-retries_example = statement_next-retries busy query 0 3

db_prepare-retries_example :
    ((s : Statement)
      → (db_prepare busy "SELECT 1" 0 ≡ (some s, 3)) ↔ (
          (s ≡ record { query = "SELECT 1"; bindings = [] })
          × Succeeds (busy.prepare "SELECT 1") busy.sleep 50 0 tt 3))
    × ((db_prepare busy "SELECT 1" 0 ≡ (none, 3))
        ↔ Fails (busy.prepare "SELECT 1") busy.sleep 50 0 3)
db_prepare-retries_example = db_prepare-retries busy "SELECT 1" 0 3
