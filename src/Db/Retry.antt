-- ===== src/Db/Retry.antt =====
-- The retry loops of src/db.rs end with the first success, or after 50 failures.
use jit_streamer_eb.Prelude.{
  ℕ, zero, suc, ◌<◌, Option, none, some, String, [], Result, ok, err, ◌≡◌, refl, ap, sym, arith,
  ◌⊎◌, inl, inr, ◌↔◌, ◌∙◌,
}
use jit_streamer_eb.Db.{retry, Statement, State, Sqlite, db_prepare, statement_next}

module _ {W A E : Type 0} (attempt : W → Result A E × W) (pause : W → W) where
  -- `n` attempts in a row fail, with a pause behind each, and take the world from `w` to `u`.
  pub Fails : ℕ → W → W → Type 0
  Fails zero w u = w ≡ u
  Fails (suc n) w u = (e : E) × (v : W) × (attempt w ≡ (err e, v)) × Fails n (pause v) u

  -- Fewer than `n` failures, and then a success with `a` that leaves the world `w'`.
  pub Succeeds : ℕ → W → A → W → Type 0
  unfolding Fails
  Succeeds n w a w' = (k : ℕ) × (u : W) × (k < n) × Fails k w u × (attempt u ≡ (ok a, w'))

  outcome-cases :
      (p : Result A E × W)
      → ((a : A) × (v : W) × (p ≡ (ok a, v))) ⊎ ((e : E) × (v : W) × (p ≡ (err e, v)))
  outcome-cases (ok a, v) = inl (a, v, refl)
  outcome-cases (err e, v) = inr (e, v, refl)

  pub retry-ok :
      (n : ℕ) (w : W) {a : A} {v : W}
      → attempt w ≡ (ok a, v)
      → retry (suc n) attempt pause w ≡ (some a, v)
  unfolding retry
  retry-ok n w h = ground arith

  pub retry-err :
      (n : ℕ) (w : W) {e : E} {v : W}
      → attempt w ≡ (err e, v)
      → retry (suc n) attempt pause w ≡ retry n attempt pause (pause v)
  unfolding retry
  retry-err n w h = ground arith

  retry-Fails : (n : ℕ) (w u : W) → Fails n w u → retry n attempt pause w ≡ (none, u)
  unfolding Fails
  retry-Fails zero w u h = unfold retry in ap (λ (x : W). (none, x)) h
  retry-Fails (suc n) w u (e, v, h, f) = retry-err n w h ∙ retry-Fails n (pause v) u f

  retry-Succeeds :
      (k n : ℕ) (w u : W) {a : A} {w' : W}
      → k < n
      → Fails k w u
      → attempt u ≡ (ok a, w')
      → retry n attempt pause w ≡ (some a, w')
  unfolding Fails
  retry-Succeeds k zero w u h f s = absurd (omega arith)
  retry-Succeeds zero (suc n) w u h f s = retry-ok n w (rw f s)
  retry-Succeeds (suc k) (suc n) w u h (e, v, x, f) s =
      retry-err n w x ∙ retry-Succeeds k n (pause v) u (omega arith) f s

  Succeeds-retry :
      (n : ℕ) (w : W) {a : A} {w' : W} → Succeeds n w a w' → retry n attempt pause w ≡ (some a, w')
  unfolding Succeeds
  Succeeds-retry n w (k, u, lt, f, x) = retry-Succeeds k n w u lt f x

  retry-eq-none : (n : ℕ) (w : W) {w' : W} → retry n attempt pause w ≡ (none, w') → Fails n w w'
  unfolding Fails
  retry-eq-none zero w h = unfold retry in ap (λ (p : Option A × W). p.1) h
  retry-eq-none (suc n) w h = elim (outcome-cases (attempt w)) [
    | inl (a, v, e) ↦ cc (retry-ok n w e)
    | inr (x, v, e) ↦ (x, v, e, retry-eq-none n (pause v) (sym (retry-err n w e) ∙ h))
  ]

  Succeeds-later :
      (n : ℕ) (w : W) {e : E} {v : W} (a : A) (w' : W)
      → attempt w ≡ (err e, v)
      → Succeeds n (pause v) a w'
      → Succeeds (suc n) w a w'
  unfolding Succeeds
  Succeeds-later n w {e} {v} a w' h (k, u, lt, f, s) = (suc k, u, omega arith, (e, v, h, f), s)

  retry-eq-some :
      (n : ℕ) (w : W) {a : A} {w' : W} → retry n attempt pause w ≡ (some a, w') → Succeeds n w a w'
  unfolding Succeeds
  retry-eq-some zero w h = unfold retry in cc
  retry-eq-some (suc n) w {a} {w'} h = elim (outcome-cases (attempt w)) [
    | inl (b, v, e) ↦ (0, w, omega arith, refl, e ∙ ground (arith, sym (retry-ok n w e) ∙ h))
    | inr (x, v, e) ↦
        Succeeds-later n w a w' e (retry-eq-some n (pause v) (sym (retry-err n w e) ∙ h))
  ]

module _ {W : Type 0} (db : Sqlite W) where
  -- `statement_next` returns what the first successful step of at most 50 gives, and sleeps after
  -- each failure before it; it returns `None` exactly if 50 steps in a row fail.
  pub statement_next-retries :
      (statement : Statement) (w w' : W)
      → ((s : State)
          → (statement_next db statement w ≡ (some s, w'))
            ↔ Succeeds (db.step statement) db.sleep 50 w s w')
        × ((statement_next db statement w ≡ (none, w'))
            ↔ Fails (db.step statement) db.sleep 50 w w')
  unfolding statement_next
  statement_next-retries statement w w' = (
    λ s. (
      λ e. retry-eq-some (db.step statement) db.sleep 50 w e,
      λ h. Succeeds-retry (db.step statement) db.sleep 50 w h,
    ),
    (
      λ e. retry-eq-none (db.step statement) db.sleep 50 w e,
      λ f. retry-Fails (db.step statement) db.sleep 50 w w' f,
    ),
  )

  -- `db_prepare` returns the statement of its text, with nothing bound, exactly if one of at most
  -- 50 attempts succeeds, and `None` exactly if 50 attempts in a row fail.
  pub db_prepare-retries :
      (query : String) (w w' : W)
      → ((s : Statement)
          → (db_prepare db query w ≡ (some s, w')) ↔ (
              (s ≡ record { query = query; bindings = [] })
              × Succeeds (db.prepare query) db.sleep 50 w tt w'))
        × ((db_prepare db query w ≡ (none, w')) ↔ Fails (db.prepare query) db.sleep 50 w w')
  unfolding db_prepare
  db_prepare-retries query w w' = (
    λ s. (
      λ e. (ground arith, retry-eq-some (db.prepare query) db.sleep 50 w (ground arith)),
      λ (e, h). ground (arith, Succeeds-retry (db.prepare query) db.sleep 50 w h),
    ),
    (
      λ e. retry-eq-none (db.prepare query) db.sleep 50 w (ground arith),
      λ f. ground (arith, retry-Fails (db.prepare query) db.sleep 50 w w' f),
    ),
  )
