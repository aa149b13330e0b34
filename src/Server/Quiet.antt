-- ===== src/Server/Quiet.antt =====
-- Parts of the handlers that leave the program's own state alone and return early only with
-- replies of a given kind: one rule for each way to build them.
use jit_streamer_eb.Prelude.{◌≡◌, refl, ◌∙◌, Option, none, some, Result, ok, err}
use jit_streamer_eb.Flow.{
  Outcome, next, reply, panicked, Flow, pure, stop, unwrap, or_reply, some_or_reply, gets, call,
  ◌>>=◌, continue, returned,
}
use jit_streamer_eb.Server.{Server, outside}

-- A reply that is returned early is one of `Bad`, and there is a panic only where `J` allows one.
abbrev pub RepliesIn : {R A : Type 0} → Type 0 → (R → Type 0) → Outcome R A → Type 0
RepliesIn J Bad (next a) = Unit
RepliesIn J Bad (reply r) = Bad r
RepliesIn J Bad panicked = J

pub record QuietOr {W R A : Type 0} (J : Type 0) (Bad : R → Type 0) (m : Flow (Server W) R A)
    : Type 0 where
  pub keeps : (s : Server W) → (m s).1.own ≡ s.own
  pub replies : (s : Server W) → RepliesIn J Bad (m s).0

-- Parts that may panic.
abbrev pub Quiet : {W R A : Type 0} → (R → Type 0) → Flow (Server W) R A → Type 0
Quiet Bad m = QuietOr Unit Bad m

pub Quiet-unwrap : {W R A : Type 0} {Bad : R → Type 0} (o : Option A) → Quiet {W = W} Bad (unwrap o)
unfolding unwrap
Quiet-unwrap none = record { keeps = λ s. refl; replies = λ s. tt }
Quiet-unwrap (some a) = record { keeps = λ s. refl; replies = λ s. tt }

module _ {W R A : Type 0} {J : Type 0} {Bad : R → Type 0} where
  pub Quiet-pure : (a : A) → QuietOr {W = W} J Bad (pure a)
  unfolding pure
  Quiet-pure a = record { keeps = λ s. refl; replies = λ s. tt }

  pub Quiet-stop : (r : R) → Bad r → QuietOr {W = W} {A = A} J Bad (stop r)
  unfolding stop
  Quiet-stop r h = record { keeps = λ s. refl; replies = λ s. h }

  pub Quiet-or_reply :
      {E : Type 0} (f : E → R) (r : Result A E)
      → ((e : E) → Bad (f e))
      → QuietOr {W = W} J Bad (or_reply f r)
  unfolding or_reply
  Quiet-or_reply f (ok a) h = record { keeps = λ s. refl; replies = λ s. tt }
  Quiet-or_reply f (err e) h = record { keeps = λ s. refl; replies = λ s. h e }

  pub Quiet-some_or_reply :
      (r : R) (o : Option A) → Bad r → QuietOr {W = W} J Bad (some_or_reply r o)
  unfolding some_or_reply
  Quiet-some_or_reply r none h = record { keeps = λ s. refl; replies = λ s. h }
  Quiet-some_or_reply r (some a) h = record { keeps = λ s. refl; replies = λ s. tt }

  pub Quiet-gets : (f : Server W → A) → QuietOr J Bad (gets f)
  unfolding gets
  Quiet-gets f = record { keeps = λ s. refl; replies = λ s. tt }

  pub Quiet-outside : (f : W → A × W) → QuietOr J Bad (outside f)
  unfolding outside
  Quiet-outside f = record { keeps = λ s. refl; replies = λ s. tt }

module _ {W R A B : Type 0} {J : Type 0} {Bad : R → Type 0} where
  continue-Quiet :
      (f : A → Flow (Server W) R B)
      → ((a : A) → QuietOr J Bad (f a))
      → (o : Outcome R A) (s : Server W) → RepliesIn J Bad o
      → ((continue o f s).1.own ≡ s.own) × RepliesIn J Bad (continue o f s).0
  continue-Quiet f q (next a) s h = ((q a).keeps s, (q a).replies s)
  continue-Quiet f q (reply r) s h = (refl, h)
  continue-Quiet f q panicked s h = (refl, h)

  pub Quiet-bind :
      (m : Flow (Server W) R A) (f : A → Flow (Server W) R B)
      → QuietOr J Bad m
      → ((a : A) → QuietOr J Bad (f a))
      → QuietOr J Bad (m >>= f)
  unfolding ◌>>=◌
  Quiet-bind m f qm qf = record {
    keeps = λ s. (continue-Quiet f qf (m s).0 (m s).1 (qm.replies s)).0 ∙ qm.keeps s;
    replies = λ s. (continue-Quiet f qf (m s).0 (m s).1 (qm.replies s)).1;
  }

RepliesIn-returned :
    {R Q : Type 0} (J : Type 0) (Bad : Q → Type 0) (o : Outcome R R)
    → RepliesIn J (λ _. Unit) o
    → RepliesIn J Bad (returned o)
RepliesIn-returned J Bad (next a) h = tt
RepliesIn-returned J Bad (reply a) h = tt
RepliesIn-returned J Bad panicked h = h

module _ {W R Q : Type 0} {J : Type 0} {Bad : Q → Type 0} where
  -- A function that is called returns to its caller, whatever it replies.
  pub Quiet-call : (m : Flow (Server W) R R) → QuietOr J (λ _. Unit) m → QuietOr J Bad (call m)
  unfolding call
  Quiet-call m q = record {
    keeps = λ s. q.keeps s;
    replies = λ s. RepliesIn-returned J Bad (m s).0 (q.replies s);
  }

pub ruleset quiet_rules = (
  Quiet-pure, Quiet-stop, Quiet-unwrap, Quiet-or_reply, Quiet-some_or_reply, Quiet-gets,
  Quiet-outside, Quiet-bind, Quiet-call,
)
