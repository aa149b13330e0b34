-- ===== src/Register/Handler/Logs.antt =====
-- Parts of `register` that change only what a predicate allows: one rule for each way to build them.
use jit_streamer_eb.Prelude.{
  Option, none, some, List, [], ◌∷◌, ◌++◌, ◌≡◌, refl, ap, sym, ◌∙◌, Result, ok, err, All,
}
use mathlib.Core.List.{append-nil, append_assoc}
use jit_streamer_eb.Flow.{
  Outcome, next, reply, panicked, Flow, pure, stop, unwrap, or_reply, some_or_reply, ◌>>=◌,
  continue,
}
use jit_streamer_eb.Server.{Own, Server, Change, outside, change}
use jit_streamer_eb.Register.Host.{join, joined}

-- The state of the program after some more changes.
abbrev pub changed : List Change → Own → Own
changed l own = record own { changes = own.changes ++ l }

-- What is returned early is one of `Bad`, and a value one of `Good`.
abbrev pub Ends : {R A : Type 0} → (R → Type 0) → (A → Type 0) → Outcome R A → Type 0
Ends Bad Good (next a) = Good a
Ends Bad Good (reply r) = Bad r
Ends Bad Good panicked = Unit

-- What an outcome and the state behind it say of the state before.
abbrev pub Logged :
    {W R A : Type 0}
    → (Change → Type 0)
    → (R → Type 0)
    → (A → Type 0)
    → Own
    → Outcome R A × Server W
    → Type 0
Logged P Bad Good before p =
    ((l : List Change) × (p.1.own ≡ changed l before) × All P l) × Ends Bad Good p.0

pub record Logs {W R A : Type 0} (P : Change → Type 0) (Bad : R → Type 0) (Good : A → Type 0)
    (m : Flow (Server W) R A) : Type 0 where
  pub logged : (s : Server W) → Logged P Bad Good s.own (m s)

pub changed-nil : (own : Own) → own ≡ changed [] own
changed-nil own = ap (λ l. record own { changes = l }) (sym (append-nil own.changes))

pub changed-changed :
    (l m : List Change) (own : Own) → changed m (changed l own) ≡ changed (l ++ m) own
changed-changed l m own = ap (λ c. record own { changes = c }) (append_assoc own.changes l m)

pub All-append : (P : Change → Type 0) (l m : List Change) → All P l → All P m → All P (l ++ m)
All-append P [] m h k = k
All-append P (c ∷ l) m (h, hs) k = (h, All-append P l m hs k)

module _ {W R A : Type 0} {P : Change → Type 0} {Bad : R → Type 0} {Good : A → Type 0} where
  pub Logs-pure : (a : A) → Good a → Logs {W = W} P Bad Good (pure a)
  unfolding pure
  Logs-pure a h = record { logged = λ s. (([], changed-nil s.own, tt), h) }

  pub Logs-stop : (r : R) → Bad r → Logs {W = W} P Bad Good (stop r)
  unfolding stop
  Logs-stop r h = record { logged = λ s. (([], changed-nil s.own, tt), h) }

  pub Logs-unwrap :
      (o : Option A) → ((a : A) → o ≡ some a → Good a) → Logs {W = W} P Bad Good (unwrap o)
  unfolding unwrap
  Logs-unwrap none h = record { logged = λ s. (([], changed-nil s.own, tt), tt) }
  Logs-unwrap (some a) h = record { logged = λ s. (([], changed-nil s.own, tt), h a refl) }

  pub Logs-some_or_reply :
      (r : R) (o : Option A)
      → Bad r
      → ((a : A) → o ≡ some a → Good a)
      → Logs {W = W} P Bad Good (some_or_reply r o)
  unfolding some_or_reply
  Logs-some_or_reply r none b h = record { logged = λ s. (([], changed-nil s.own, tt), b) }
  Logs-some_or_reply r (some a) b h = record {
    logged = λ s. (([], changed-nil s.own, tt), h a refl);
  }

  pub Logs-or_reply :
      {E : Type 0} (f : E → R) (r : Result A E)
      → ((e : E) → Bad (f e))
      → ((a : A) → Good a)
      → Logs {W = W} P Bad Good (or_reply f r)
  unfolding or_reply
  Logs-or_reply f (ok a) b h = record { logged = λ s. (([], changed-nil s.own, tt), h a) }
  Logs-or_reply f (err e) b h = record { logged = λ s. (([], changed-nil s.own, tt), b e) }

  pub Logs-outside : (f : W → A × W) → ((a : A) → Good a) → Logs P Bad Good (outside f)
  unfolding outside
  Logs-outside f h = record { logged = λ s. (([], changed-nil s.own, tt), h (f s.world).0) }

module _ {W R : Type 0} {P : Change → Type 0} {Bad : R → Type 0} where
  pub Logs-change : (c : Change) → P c → Logs {W = W} P Bad (λ _. Unit) (change c)
  unfolding change
  Logs-change c h = record { logged = λ s. ((c ∷ [], refl, (h, tt)), tt) }

module _ {W R A B : Type 0} {P : Change → Type 0} {Bad : R → Type 0} {Good : A → Type 0}
    {Fine : B → Type 0} where
  continue-Logged :
      (f : A → Flow (Server W) R B)
      → ((a : A) → Good a → Logs P Bad Fine (f a))
      → (before : Own) (o : Outcome R A) (s : Server W) → Logged P Bad Good before (o, s)
      → Logged P Bad Fine before (continue o f s)
  continue-Logged f q before (next a) s ((l, e, h), g) =
      let ((m, d, k), r) = (q a g).logged s in
      ((l ++ m, d ∙ ap (changed m) e ∙ changed-changed l m before, All-append P l m h k), r)
  continue-Logged f q before (reply r) s h = h
  continue-Logged f q before panicked s h = h

  pub Logs-bind_with :
      (m : Flow (Server W) R A) (f : A → Flow (Server W) R B)
      → Logs P Bad Good m
      → ((a : A) → Good a → Logs P Bad Fine (f a))
      → Logs P Bad Fine (m >>= f)
  unfolding ◌>>=◌
  Logs-bind_with m f qm qf = record {
    logged = λ s. continue-Logged f qf s.own (m s).0 (m s).1 (qm.logged s);
  }

joined-Ends :
    {R Q : Type 0} (Bad : Q → Type 0) (o : Outcome R R) → Ends {R = Q} Bad (λ _. Unit) (joined o)
joined-Ends Bad (next a) = tt
joined-Ends Bad (reply a) = tt
joined-Ends Bad panicked = tt

module _ {W R Q : Type 0} {P : Change → Type 0} {Bad : Q → Type 0} where
  pub Logs-join :
      (m : Flow (Server W) R R) → Logs P (λ _. Unit) (λ _. Unit) m → Logs P Bad (λ _. Unit) (join m)
  unfolding join
  Logs-join m q = record { logged = λ s. ((q.logged s).0, joined-Ends Bad (m s).0) }

-- The rules for parts whose values are not spoken of.
module _ {W R A : Type 0} {P : Change → Type 0} {Bad : R → Type 0} where
  pub Any-pure : (a : A) → Logs {W = W} P Bad (λ _. Unit) (pure a)
  Any-pure a = Logs-pure a tt

  pub Any-stop : (r : R) → Bad r → Logs {W = W} {A = A} P Bad (λ _. Unit) (stop r)
  Any-stop r h = Logs-stop r h

  pub Any-unwrap : (o : Option A) → Logs {W = W} P Bad (λ _. Unit) (unwrap o)
  Any-unwrap o = Logs-unwrap o (λ a e. tt)

  pub Any-some_or_reply :
      (r : R) (o : Option A) → Bad r → Logs {W = W} P Bad (λ _. Unit) (some_or_reply r o)
  Any-some_or_reply r o b = Logs-some_or_reply r o b (λ a e. tt)

  pub Any-or_reply :
      {E : Type 0} (f : E → R) (r : Result A E)
      → ((e : E) → Bad (f e))
      → Logs {W = W} P Bad (λ _. Unit) (or_reply f r)
  Any-or_reply f r b = Logs-or_reply f r b (λ a. tt)

  pub Any-outside : (f : W → A × W) → Logs P Bad (λ _. Unit) (outside f)
  Any-outside f = Logs-outside f (λ a. tt)

module _ {W R A B : Type 0} {P : Change → Type 0} {Bad : R → Type 0} where
  pub Any-bind :
      (m : Flow (Server W) R A) (f : A → Flow (Server W) R B)
      → Logs P Bad (λ _. Unit) m
      → ((a : A) → Logs P Bad (λ _. Unit) (f a))
      → Logs P Bad (λ _. Unit) (m >>= f)
  Any-bind m f qm qf = Logs-bind_with m f qm (λ a _. qf a)

pub ruleset log_rules = (
  Any-pure, Any-stop, Any-unwrap, Any-some_or_reply, Any-or_reply, Any-outside, Any-bind,
  Logs-change,
)

Ends-weaken :
    {R A : Type 0} (Bad : R → Type 0) (Good Fine : A → Type 0)
    → ((a : A) → Good a → Fine a)
    → (o : Outcome R A) → Ends Bad Good o
    → Ends Bad Fine o
Ends-weaken Bad Good Fine f (next a) h = f a h
Ends-weaken Bad Good Fine f (reply r) h = h
Ends-weaken Bad Good Fine f panicked h = h

pub weaken :
    {W R A : Type 0} {P : Change → Type 0} {Bad : R → Type 0} {Good Fine : A → Type 0}
    {m : Flow (Server W) R A}
    → Logs P Bad Good m
    → ((a : A) → Good a → Fine a)
    → Logs P Bad Fine m
weaken {Bad = Bad} {Good = Good} {Fine = Fine} {m = m} q f = record {
  logged = λ s. ((q.logged s).0, Ends-weaken Bad Good Fine f (m s).0 (q.logged s).1);
}
