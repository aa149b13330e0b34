-- ===== src/System/Invariant.antt =====
-- Every step keeps what holds at all times.
use jit_streamer_eb.Prelude.{
  ℕ, ◌+◌, ◌==◌, String, List, [], ◌∷◌, ◌++◌, ◌≡◌, refl, sym, subst, ap, ◌∙◌, ◌⊎◌, inl, inr, ok,
  length-append, length-set, set, arith, false, if◌then◌else◌,
}
use mathlib.Core.List.{append-nil}
use jit_streamer_eb.HashMap.{get, insert}
use jit_streamer_eb.HashMap.Laws.{insert-cases, remove-cases}
use jit_streamer_eb.Server.{Progress}
use jit_streamer_eb.Heartbeat.Manager.{Sender, SendRequest, store, kill}
use jit_streamer_eb.Heartbeat.Manager.Accounts.{count, stored}
use jit_streamer_eb.Mount.{forget}
use jit_streamer_eb.System.{
  Config, HasEntry, pairs, Step, start, deliver, tell_kill, spawn, remember, report, settle, alter,
  Reach, here, next, initial, second, Valid, started, spawned,
}

count-stored-append :
    (s : Sender) (a b : List SendRequest)
    → count s (stored (a ++ b)) ≡ count s (stored a) + count s (stored b)
count-stored-append s [] b = omega arith
count-stored-append s (store udid t ∷ a) b = omega (arith, count-stored-append s a b)
count-stored-append s (kill udid ∷ a) b = omega (arith, count-stored-append s a b)

count-second-middle :
    (s : Sender) (udid : String) (t : Sender) (a b : List (String × Sender))
    → count s (second (a ++ ((udid, t) ∷ b)))
      ≡ count s (second (a ++ b)) + (if t == s then 1 else 0)
count-second-middle s udid t [] b = omega arith
count-second-middle s udid t ((j, u) ∷ a) b = omega (arith, count-second-middle s udid t a b)

-- An entry of two lists stands in one of them.
HasEntry-append :
    (udid : String) (n : ℕ) (a b : List (String × ℕ))
    → HasEntry udid n (a ++ b)
    → HasEntry udid n a ⊎ HasEntry udid n b
HasEntry-append udid n [] b h = inr h
HasEntry-append udid n ((j, m) ∷ a) b (inl h) = inl (inl h)
HasEntry-append udid n ((j, m) ∷ a) b (inr h) = elim (HasEntry-append udid n a b h) [
  | inl k ↦ inl (inr k)
  | inr k ↦ inr k
]

HasEntry-middle :
    (udid : String) (n : ℕ) (e : String × ℕ) (a b : List (String × ℕ))
    → HasEntry udid n (a ++ b)
    → HasEntry udid n (a ++ (e ∷ b))
HasEntry-middle udid n e [] b h = inr h
HasEntry-middle udid n e (f ∷ a) b (inl h) = inl h
HasEntry-middle udid n e (f ∷ a) b (inr h) = inr (HasEntry-middle udid n e a b h)

HasEntry-here :
    (udid : String) (n : ℕ) (a b : List (String × ℕ)) → HasEntry udid n (a ++ ((udid, n) ∷ b))
HasEntry-here udid n [] b = inl (refl, refl)
HasEntry-here udid n (e ∷ a) b = inr (HasEntry-here udid n a b)

pairs-append : (a b : List SendRequest) → pairs (a ++ b) ≡ pairs a ++ pairs b
pairs-append [] b = refl
pairs-append (store udid s ∷ a) b = ap (λ l. (udid, s) ∷ l) (pairs-append a b)
pairs-append (kill udid ∷ a) b = pairs-append a b

pub initial-Valid : Valid (record { own = initial; flying = [] })
unfolding get
initial-Valid = record {
  senders = λ s h. refl;
  once = λ s. omega arith;
  sent_or_flying = λ s. refl;
  flying_started = λ udid s h. absurd h;
  sent_started = λ udid s h. absurd h;
  tasks = λ n h. refl;
  own_channel = λ n. omega arith;
  receivers = λ udid channel h. cc;
}

module _ (c : Config) (v : Valid c) where
  started-Valid : (udid : String) → Valid (started udid c)
  started-Valid udid = record {
    senders = λ s h. ground (arith, v.senders s);
    once = λ s. ground (arith, v.once s, v.senders s);
    sent_or_flying = λ s. omega (arith, v.sent_or_flying s);
    flying_started = λ j s h. elim h [ inl k ↦ inl k | inr k ↦ inr (v.flying_started j s k) ];
    sent_started = λ j s h. inr (v.sent_started j s h);
    tasks = v.tasks;
    own_channel = v.own_channel;
    receivers = v.receivers;
  }

  spawned-Valid : (udid : String) → Valid (record c { own = spawned udid c.own })
  spawned-Valid udid = record {
    senders = v.senders;
    once = v.once;
    sent_or_flying = v.sent_or_flying;
    flying_started = v.flying_started;
    sent_started = v.sent_started;
    tasks =
        λ n h. ground (arith, v.tasks n, length-append c.own.channels (ok (0, 100, false) ∷ []));
    own_channel = λ n. ground (arith, v.own_channel n, v.tasks n);
    receivers = λ udid' channel h. inr (v.receivers udid' channel h);
  }

  delivered-Valid :
      (udid : String) (s : Sender) (before behind : List (String × Sender))
      → c.flying ≡ before ++ ((udid, s) ∷ behind)
      → Valid (record {
        own = record c.own { sent = c.own.sent ++ (store udid s ∷ []) };
        flying = before ++ behind;
      })
  delivered-Valid udid s before behind e = record {
    senders = v.senders;
    once = v.once;
    sent_or_flying = λ t. omega (
      arith,
      v.sent_or_flying t,
      ap (λ l. count t (second l)) e,
      count-second-middle t udid s before behind,
      count-stored-append t c.own.sent (store udid s ∷ []),
    );
    flying_started = λ j t h.
        v.flying_started j t
          (subst (HasEntry j t) (sym e) (HasEntry-middle j t (udid, s) before behind h));
    sent_started = λ j t h.
        elim (HasEntry-append j t (pairs c.own.sent) ((udid, s) ∷ [])
          (subst (HasEntry j t) (pairs-append c.own.sent (store udid s ∷ [])) h)) [
            | inl k ↦ v.sent_started j t k
            | inr (inl (a, b)) ↦
                subst (λ u. HasEntry u t c.own.beating) a
                  (subst (λ n. HasEntry udid n c.own.beating) b
                    (v.flying_started udid s
                      (subst (HasEntry udid s) (sym e) (HasEntry-here udid s before behind))))
            | inr (inr k) ↦ absurd k
          ];
    tasks = v.tasks;
    own_channel = v.own_channel;
    receivers = v.receivers;
  }

  remembered-Valid :
      (udid : String) (channel : ℕ)
      → HasEntry udid channel c.own.mounting
      → Valid
          (record c { own = record c.own { mount_cache = insert udid channel c.own.mount_cache } })
  remembered-Valid udid channel h = record {
    senders = v.senders;
    once = v.once;
    sent_or_flying = v.sent_or_flying;
    flying_started = v.flying_started;
    sent_started = v.sent_started;
    tasks = v.tasks;
    own_channel = v.own_channel;
    receivers = λ j n f. elim (insert-cases udid j channel n c.own.mount_cache f) [
      | inl (a, b) ↦
          subst (λ u. HasEntry u n c.own.mounting) a
            (subst (λ m. HasEntry udid m c.own.mounting) b h)
      | inr g ↦ v.receivers j n g
    ];
  }

  settled-Valid : (udid : String) → Valid (record c { own = forget udid c.own })
  settled-Valid udid = record {
    senders = v.senders;
    once = v.once;
    sent_or_flying = v.sent_or_flying;
    flying_started = v.flying_started;
    sent_started = v.sent_started;
    tasks = v.tasks;
    own_channel = v.own_channel;
    receivers = λ j n f. v.receivers j n (remove-cases udid j n c.own.mount_cache f);
  }

  published-Valid :
      (channel : ℕ) (p : Progress)
      → Valid (record c { own = record c.own { channels = set c.own.channels channel p } })
  published-Valid channel p = record {
    senders = v.senders;
    once = v.once;
    sent_or_flying = v.sent_or_flying;
    flying_started = v.flying_started;
    sent_started = v.sent_started;
    tasks = λ n h. v.tasks n (rw (sym (length-set c.own.channels channel p)) h);
    own_channel = v.own_channel;
    receivers = v.receivers;
  }

  killed-Valid :
      (udid : String)
      → Valid (record c { own = record c.own { sent = c.own.sent ++ (kill udid ∷ []) } })
  killed-Valid udid = record {
    senders = v.senders;
    once = v.once;
    sent_or_flying =
        λ s. omega (arith, v.sent_or_flying s, count-stored-append s c.own.sent (kill udid ∷ []));
    flying_started = v.flying_started;
    sent_started = λ j s h. v.sent_started j s (
        subst (HasEntry j s)
          (pairs-append c.own.sent (kill udid ∷ []) ∙ append-nil (pairs c.own.sent)) h);
    tasks = v.tasks;
    own_channel = v.own_channel;
    receivers = v.receivers;
  }

Step-Valid : {c d : Config} → Step c d → Valid c → Valid d
Step-Valid {c} (start udid e) v = subst Valid (sym e) (started-Valid c v udid)
Step-Valid {c} (deliver udid s before behind f e) v =
    subst Valid (sym e) (delivered-Valid c v udid s before behind f)
Step-Valid {c} (tell_kill udid e) v = subst Valid (sym e) (killed-Valid c v udid)
Step-Valid {c} (spawn udid e) v = subst Valid (sym e) (spawned-Valid c v udid)
Step-Valid {c} (remember udid channel h e) v =
    subst Valid (sym e) (remembered-Valid c v udid channel h)
Step-Valid {c} (report channel p e) v = subst Valid (sym e) (published-Valid c v channel p)
Step-Valid {c} (settle udid e) v = subst Valid (sym e) (settled-Valid c v udid)
Step-Valid (alter what e) v = subst Valid (sym e) (record {
  senders = v.senders;
  once = v.once;
  sent_or_flying = v.sent_or_flying;
  flying_started = v.flying_started;
  sent_started = v.sent_started;
  tasks = v.tasks;
  own_channel = v.own_channel;
  receivers = v.receivers;
})

pub Reach-Valid : {c d : Config} → Reach c d → Valid c → Valid d
Reach-Valid here v = v
Reach-Valid (next r st) v = Step-Valid st (Reach-Valid r v)
