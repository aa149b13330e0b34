-- ===== src/Flow.antt =====
-- The shape of the request handlers: code over a state that may return early with a reply
-- (`return …` inside a `match`), go on with a value, or panic. What was written before stays
-- written in every case.
use jit_streamer_eb.Prelude.{Option, none, some, Result, ok, err, Panics, returns, panic}

pub data Outcome {ℓ} (R A : Type ℓ) : Type ℓ where
  next : A → Outcome R A
  reply : R → Outcome R A
  panicked : Outcome R A

abbrev pub Flow {ℓ} : Type ℓ → Type ℓ → Type ℓ → Type ℓ
Flow S R A = S → Outcome R A × S

module _ {ℓ} {S R A : Type ℓ} where
  unfoldable pub pure : A → Flow S R A
  pure a s = (next a, s)

  -- `return r`
  unfoldable pub stop : R → Flow S R A
  stop r s = (reply r, s)

  -- `unwrap()` of an option
  unfoldable pub unwrap : Option A → Flow S R A
  unwrap none s = (panicked, s)
  unwrap (some a) s = (next a, s)

  -- `match r { Ok(a) => a, Err(e) => return f(e) }`
  unfoldable pub or_reply : {E : Type ℓ} → (E → R) → Result A E → Flow S R A
  or_reply f (ok a) s = (next a, s)
  or_reply f (err e) s = (reply (f e), s)

-- A call that takes the state from one to the next.
unfoldable pub io {ℓ} : {S R A : Type ℓ} → (S → A × S) → Flow S R A
io f s = let (a, t) = f s in (next a, t)

-- `match o { Some(a) => a, None => return r }`
unfoldable pub some_or_reply {ℓ} : {S R A : Type ℓ} → R → Option A → Flow S R A
some_or_reply r none s = (reply r, s)
some_or_reply r (some a) s = (next a, s)

-- A read of the state.
unfoldable pub gets {ℓ} : {S R A : Type ℓ} → (S → A) → Flow S R A
gets f s = (next (f s), s)

-- A function's own body: its reply is its value.
abbrev pub returned {ℓ} : {R Q : Type ℓ} → Outcome R R → Outcome Q R
returned (next a) = next a
returned (reply a) = next a
returned panicked = panicked

-- A call of a function from another one, whose early replies are of another type.
unfoldable pub call {ℓ} : {S R Q : Type ℓ} → Flow S R R → Flow S Q R
call m s = let (o, s') = m s in (returned o, s')

-- What a handler answers: its reply, or nothing if it panicked.
abbrev pub answer {ℓ} : {R : Type ℓ} → Outcome R R → Panics R
answer (next a) = returns a
answer (reply a) = returns a
answer panicked = panic

module _ {ℓ} {S R A B : Type ℓ} where
  abbrev pub continue : Outcome R A → (A → Flow S R B) → Flow S R B
  continue (next a) f s = f a s
  continue (reply r) f s = (reply r, s)
  continue panicked f s = (panicked, s)

  infixl 5 ◌>>=◌ ◌>>◌
  unfoldable pub ◌>>=◌ : Flow S R A → (A → Flow S R B) → Flow S R B
  ◌>>=◌ m f s = let (o, s') = m s in continue o f s'

  abbrev pub ◌>>◌ : Flow S R A → Flow S R B → Flow S R B
  m >> n = m >>= λ _. n
