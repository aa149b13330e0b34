-- ===== src/System/Walks.antt =====
-- Code that moves the shared state by steps of the system: one rule for each way to build it.
use jit_streamer_eb.Prelude.{
  ℕ, String, Option, none, some, List, [], ◌∷◌, ◌≡◌, refl, sym, subst, ap, inl, Result, ok, err,
  length,
}
use jit_streamer_eb.Flow.{
  Outcome, next, reply, panicked, Flow, pure, stop, unwrap, or_reply, some_or_reply, gets, call,
  ◌>>=◌, continue,
}
use jit_streamer_eb.Server.{Own, Server, Progress, Change, outside, send, change}
use jit_streamer_eb.Heartbeat.Manager.{Sender, kill}
use jit_streamer_eb.Handlers.Session.Course.{begun}
use jit_streamer_eb.Mount.{modify, forget, spawn_mount, publish, publish_all, begin_mount}
use jit_streamer_eb.Register.Handler.Logs.{changed, changed-nil, changed-changed, Logs}
use jit_streamer_eb.System.{
  Config, start, deliver, tell_kill, spawn, remember, report, settle, alter, Reach, here,
  next as later, Reach-trans,
}

abbrev pub at : Own → List (String × Sender) → Config
at own flying = record { own = own; flying = flying }

-- Whatever the state, the code takes it along steps; what other requests have under way stays.
pub record Walks {W R A : Type 0} (m : Flow (Server W) R A) : Type 0 where
  pub walk :
      (s : Server W) (flying : List (String × Sender))
      → Reach (at s.own flying) (at (m s).1.own flying)

Reach-of_eq : {c d : Config} → c ≡ d → Reach c d
Reach-of_eq {c} e = subst (Reach c) e here

module _ {W R A : Type 0} where
  pub Walks-keeps : {m : Flow (Server W) R A} → ((s : Server W) → (m s).1.own ≡ s.own) → Walks m
  Walks-keeps keeps = record {
    walk = λ s flying. Reach-of_eq (ap (λ o. at o flying) (sym (keeps s)));
  }

  pub Walks-pure : (a : A) → Walks {W = W} {R = R} (pure a)
  unfolding pure
  Walks-pure a = record { walk = λ s flying. here }

  pub Walks-stop : (r : R) → Walks {W = W} {A = A} (stop r)
  unfolding stop
  Walks-stop r = record { walk = λ s flying. here }

  pub Walks-unwrap : (o : Option A) → Walks {W = W} {R = R} (unwrap o)
  unfolding unwrap
  Walks-unwrap none = record { walk = λ s flying. here }
  Walks-unwrap (some a) = record { walk = λ s flying. here }

  pub Walks-or_reply : {E : Type 0} (f : E → R) (r : Result A E) → Walks {W = W} (or_reply f r)
  unfolding or_reply
  Walks-or_reply f (ok a) = record { walk = λ s flying. here }
  Walks-or_reply f (err e) = record { walk = λ s flying. here }

  pub Walks-some_or_reply : (r : R) (o : Option A) → Walks {W = W} (some_or_reply r o)
  unfolding some_or_reply
  Walks-some_or_reply r none = record { walk = λ s flying. here }
  Walks-some_or_reply r (some a) = record { walk = λ s flying. here }

  pub Walks-gets : (f : Server W → A) → Walks {R = R} (gets f)
  unfolding gets
  Walks-gets f = record { walk = λ s flying. here }

  pub Walks-outside : (f : W → A × W) → Walks {R = R} (outside f)
  unfolding outside
  Walks-outside f = record { walk = λ s flying. here }

module _ {W R A B : Type 0} where
  continue-Reach :
      (f : A → Flow (Server W) R B)
      → ((a : A) → Walks (f a))
      → (o : Outcome R A) (s : Server W) (flying : List (String × Sender))
      → Reach (at s.own flying) (at (continue o f s).1.own flying)
  continue-Reach f q (next a) s flying = (q a).walk s flying
  continue-Reach f q (reply r) s flying = here
  continue-Reach f q panicked s flying = here

  pub Walks-bind :
      (m : Flow (Server W) R A) (f : A → Flow (Server W) R B)
      → Walks m
      → ((a : A) → Walks (f a))
      → Walks (m >>= f)
  unfolding ◌>>=◌
  Walks-bind m f qm qf = record {
    walk = λ s flying. Reach-trans (qm.walk s flying) (continue-Reach f qf (m s).0 (m s).1 flying);
  }

module _ {W R Q : Type 0} where
  pub Walks-call : (m : Flow (Server W) R R) → Walks m → Walks {R = Q} (call m)
  unfolding call
  Walks-call m q = record { walk = λ s flying. q.walk s flying }

module _ {W R : Type 0} where
  pub Walks-send_kill : (udid : String) → Walks {W = W} {R = R} (send (kill udid))
  unfolding send
  Walks-send_kill udid = record { walk = λ s flying. later here (tell_kill udid refl) }

  pub Walks-forget : (udid : String) → Walks {W = W} {R = R} (modify (forget udid))
  unfolding modify
  Walks-forget udid = record { walk = λ s flying. later here (settle udid refl) }

  pub Walks-publish : (channel : ℕ) (p : Progress) → Walks {W = W} {R = R} (publish channel p)
  unfolding publish
  Walks-publish channel p = record { walk = λ s flying. later here (report channel p refl) }

  pub Walks-publish_all :
      (channel : ℕ) (reports : List (ℕ × ℕ)) → Walks {W = W} {R = R} (publish_all channel reports)
  unfolding publish_all
  Walks-publish_all channel [] = Walks-pure tt
  Walks-publish_all channel ((a, b) ∷ reports) =
      Walks-bind _ _ (Walks-publish channel _) (λ _. Walks-publish_all channel reports)

  pub Walks-change : (c : Change) → Walks {W = W} {R = R} (change c)
  unfolding change
  Walks-change c = record { walk = λ s flying. later here (alter c refl) }

-- A task is spawned, and its receiver goes into the cache.
pub Walks-begin_mount : {W : Type 0} (udid : String) → Walks {W = W} (begin_mount udid)
unfolding begin_mount spawn_mount modify pure ◌>>=◌
Walks-begin_mount udid = record {
  walk = λ s flying.
      later (later here (spawn udid refl))
        (remember udid (length s.own.channels) (inl (refl, refl)) refl);
}

-- A heartbeat is started, and its sender reaches the manager.
pub Reach-begun :
    (own : Own) (flying : List (String × Sender)) (udid : String)
    → Reach (at own flying) (at (begun udid own) flying)
Reach-begun own flying udid =
    later (later here (start udid refl)) (deliver udid own.next_sender [] flying refl refl)

Reach-changed :
    (l : List Change) (own : Own) (flying : List (String × Sender))
    → Reach (at own flying) (at (changed l own) flying)
Reach-changed [] own flying = Reach-of_eq (ap (λ o. at o flying) (changed-nil own))
Reach-changed (c ∷ l) own flying = Reach-trans (later here (alter c refl)) (
    subst (Reach (at (changed (c ∷ []) own) flying))
      (ap (λ o. at o flying) (changed-changed (c ∷ []) l own))
      (Reach-changed l (changed (c ∷ []) own) flying))

-- Code that only logs changes.
pub Walks-Logs :
    {W R A : Type 0} {P : Change → Type 0} {Bad : R → Type 0} {Good : A → Type 0}
    {m : Flow (Server W) R A}
    → Logs P Bad Good m
    → Walks m
Walks-Logs {m = m} q = record {
  walk = λ s flying.
      let ((l, e, h), g) = q.logged s in
      subst (λ o. Reach (at s.own flying) (at o flying)) (sym e) (Reach-changed l s.own flying);
}

pub ruleset walk_rules = (
  Walks-pure, Walks-stop, Walks-unwrap, Walks-or_reply, Walks-some_or_reply, Walks-gets,
  Walks-outside, Walks-bind, Walks-call, Walks-send_kill, Walks-forget, Walks-publish,
  Walks-publish_all, Walks-change, Walks-begin_mount,
)
