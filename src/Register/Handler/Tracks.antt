-- ===== src/Register/Handler/Tracks.antt =====
-- Parts of `register` of which a value tells what they have changed: one rule for each way to build
-- them.
use jit_streamer_eb.Prelude.{List, [], ◌∷◌, ◌++◌, ◌≡◌, ◌∙◌, ap, All}
use jit_streamer_eb.Flow.{Outcome, next, reply, panicked, Flow, pure, stop, ◌>>=◌, continue}
use jit_streamer_eb.Server.{Own, Server, Change}
use jit_streamer_eb.Register.Handler.Logs.{
  changed, changed-nil, changed-changed, All-append, Logs, Logged, Ends,
}

-- A value and the changes behind it are `Good`; what ends early is `Bad` and its changes are all `P`.
abbrev pub After :
    {R A : Type 0}
    → (Change → Type 0)
    → (R → Type 0)
    → (A → List Change → Type 0)
    → Outcome R A
    → List Change
    → Type 0
After P Bad Good (next a) l = Good a l
After P Bad Good (reply r) l = All P l × Bad r
After P Bad Good panicked l = All P l

abbrev pub Tracked :
    {W R A : Type 0}
    → (Change → Type 0)
    → (R → Type 0)
    → (A → List Change → Type 0)
    → Own
    → Outcome R A × Server W
    → Type 0
Tracked P Bad Good before p =
    (l : List Change) × (p.1.own ≡ changed l before) × After P Bad Good p.0 l

pub record Tracks {W R A : Type 0} (P : Change → Type 0) (Bad : R → Type 0)
    (Good : A → List Change → Type 0) (m : Flow (Server W) R A) : Type 0 where
  pub tracked : (s : Server W) → Tracked P Bad Good s.own (m s)

-- What is good stays so behind other changes that are `P`.
abbrev pub Extends : {A : Type 0} → (Change → Type 0) → (A → List Change → Type 0) → Type 0
Extends {A} P Good = (a : A) (front l : List Change) → All P front → Good a l → Good a (front ++ l)

After-front :
    {R A : Type 0} (P : Change → Type 0) (Bad : R → Type 0) (Good : A → List Change → Type 0)
    → Extends P Good
    → (o : Outcome R A) (front l : List Change) → All P front
    → After P Bad Good o l
    → After P Bad Good o (front ++ l)
After-front P Bad Good x (next a) front l h k = x a front l h k
After-front P Bad Good x (reply r) front l h (k, b) = (All-append P front l h k, b)
After-front P Bad Good x panicked front l h k = All-append P front l h k

module _ {W R A B : Type 0} {P : Change → Type 0} {Bad : R → Type 0} {Fine : A → Type 0}
    {Good : B → List Change → Type 0} where
  continue-Tracked :
      (f : A → Flow (Server W) R B)
      → Extends P Good
      → ((a : A) → Fine a → Tracks P Bad Good (f a))
      → (before : Own) (o : Outcome R A) (s : Server W) → Logged P Bad Fine before (o, s)
      → Tracked P Bad Good before (continue o f s)
  continue-Tracked f x q before (next a) s ((l, e, h), g) =
      let (m, d, k) = (q a g).tracked s in
      (
        l ++ m,
        d ∙ ap (changed m) e ∙ changed-changed l m before,
        After-front P Bad Good x (f a s).0 l m h k,
      )
  continue-Tracked f x q before (reply r) s ((l, e, h), g) = (l, e, (h, g))
  continue-Tracked f x q before panicked s ((l, e, h), g) = (l, e, h)

  pub Tracks-behind :
      (m : Flow (Server W) R A) (f : A → Flow (Server W) R B)
      → Extends P Good
      → Logs P Bad Fine m
      → ((a : A) → Fine a → Tracks P Bad Good (f a))
      → Tracks P Bad Good (m >>= f)
  unfolding ◌>>=◌
  Tracks-behind m f x qm qf = record {
    tracked = λ s. continue-Tracked f x qf s.own (m s).0 (m s).1 (qm.logged s);
  }

continue-pure :
    {W R A B : Type 0} (P : Change → Type 0) (Bad : R → Type 0) (Before : A → List Change → Type 0)
    (Good : B → List Change → Type 0) (g : A → B)
    → ((a : A) (l : List Change) → Before a l → Good (g a) l)
    → (before : Own) (o : Outcome R A) (s : Server W) → Tracked P Bad Before before (o, s)
    → Tracked P Bad Good before (continue o (λ a. pure (g a)) s)
unfolding pure
continue-pure P Bad Before Good g x before (next a) s (l, e, h) = (l, e, x a l h)
continue-pure P Bad Before Good g x before (reply r) s (l, e, h) = (l, e, h)
continue-pure P Bad Before Good g x before panicked s (l, e, h) = (l, e, h)

module _ {W R A B : Type 0} {P : Change → Type 0} {Bad : R → Type 0}
    {Before : A → List Change → Type 0} {Good : B → List Change → Type 0} where
  pub Tracks-map :
      (m : Flow (Server W) R A) (g : A → B)
      → ((a : A) (l : List Change) → Before a l → Good (g a) l)
      → Tracks P Bad Before m
      → Tracks P Bad Good (m >>= λ a. pure (g a))
  unfolding ◌>>=◌
  Tracks-map m g x q = record {
    tracked = λ s. continue-pure P Bad Before Good g x s.own (m s).0 (m s).1 (q.tracked s);
  }

module _ {W R A : Type 0} {P : Change → Type 0} {Bad : R → Type 0}
    {Good : A → List Change → Type 0} where
  pub Tracks-pure : (a : A) → Good a [] → Tracks {W = W} P Bad Good (pure a)
  unfolding pure
  Tracks-pure a h = record { tracked = λ s. ([], changed-nil s.own, h) }

  pub Tracks-stop : (r : R) → Bad r → Tracks {W = W} P Bad Good (stop r)
  unfolding stop
  Tracks-stop r h = record { tracked = λ s. ([], changed-nil s.own, (tt, h)) }

After-weaken :
    {R A : Type 0} (P : Change → Type 0) (Bad : R → Type 0) (Good Fine : A → List Change → Type 0)
    → ((a : A) (l : List Change) → Good a l → Fine a l)
    → (o : Outcome R A) (l : List Change) → After P Bad Good o l
    → After P Bad Fine o l
After-weaken P Bad Good Fine f (next a) l h = f a l h
After-weaken P Bad Good Fine f (reply r) l h = h
After-weaken P Bad Good Fine f panicked l h = h

pub Tracks-weaken :
    {W R A : Type 0} {P : Change → Type 0} {Bad : R → Type 0} {Good Fine : A → List Change → Type 0}
    {m : Flow (Server W) R A}
    → ((a : A) (l : List Change) → Good a l → Fine a l)
    → Tracks P Bad Good m
    → Tracks P Bad Fine m
Tracks-weaken {P = P} {Bad = Bad} {Good = Good} {Fine = Fine} {m = m} f q = record {
  tracked = λ s. let (l, e, h) = q.tracked s in (l, e, After-weaken P Bad Good Fine f (m s).0 l h);
}

All-Unit : (l : List Change) → All (λ _. Unit {0}) l
All-Unit [] = tt
All-Unit (c ∷ l) = (tt, All-Unit l)

Ends-Unit : {R A : Type 0} (o : Outcome R A) → Ends (λ _. Unit {0}) (λ _. Unit {0}) o
Ends-Unit (next a) = tt
Ends-Unit (reply r) = tt
Ends-Unit panicked = tt

-- What is tracked changes nothing but the log.
pub Tracks-Logs :
    {W R A : Type 0} {P : Change → Type 0} {Bad : R → Type 0} {Good : A → List Change → Type 0}
    {m : Flow (Server W) R A}
    → Tracks P Bad Good m
    → Logs (λ _. Unit {0}) (λ _. Unit {0}) (λ _. Unit {0}) m
Tracks-Logs {m = m} q = record {
  logged = λ s. let (l, e, h) = q.tracked s in ((l, e, All-Unit l), Ends-Unit (m s).0);
}
