-- ===== src/System/Heartbeats.antt =====
-- What becomes of the heartbeats that were started, and of the receivers in the mount cache.
use jit_streamer_eb.Prelude.{
  ℕ, zero, suc, ◌+◌, ◌≤◌, ◌<◌, ◌==◌, ==_iff, String, str_eq, eq_iff, Option, none, some, List, [],
  ◌∷◌, ◌≡◌, refl, sym, subst, ◌∙◌, ◌⊎◌, inl, inr, length, get_elem?, arith, Bool-cases,
}
use native.Mathlib.Decide.{dec_lt}
use jit_streamer_eb.HashMap.{HashMap, get, values, HasUniqueKeys}
use jit_streamer_eb.Server.{Own, Progress}
use jit_streamer_eb.Heartbeat.Manager.{Sender, SendRequest, store, kill, run, start}
use jit_streamer_eb.Heartbeat.Manager.Accounts.{count, count-run}
use jit_streamer_eb.Heartbeat.Manager.Latest.{latest, get-run, run-HasUniqueKeys}
use jit_streamer_eb.Mount.{cached}
use jit_streamer_eb.System.{Config, HasEntry, pairs, Reach, initial, second, Valid}
use jit_streamer_eb.System.Invariant.{initial-Valid, Reach-Valid}

-- A value of a map stands under a key.
values-get :
    (s : Sender) (m : HashMap Sender)
    → HasUniqueKeys m
    → 1 ≤ count s (values m)
    → (udid : String) × (get udid m ≡ some s)
unfolding get
values-get s [] u h = absurd (omega arith)
values-get s ((j, t) ∷ m) (fresh, u) h = elim (Bool-cases (t == s)) [
  | inl e ↦ (j, ground (arith, eq_iff j j, ==_iff t s))
  | inr e ↦
      let (k, found) = values-get s m u (ground arith) in
      (
        k,
        elim (Bool-cases (str_eq j k)) [
          | inl same ↦
              let f : get k m ≡ none = subst (λ i. get i m ≡ none) ((eq_iff j k).0 same) fresh in
              absurd (cc)
          | inr other ↦ rw other found
        ],
      )
]

-- What the cache holds was brought by a `Store` for its device.
latest-pairs :
    (udid : String) (s : Sender) (before : Option Sender) (msgs : List SendRequest)
    → latest udid before msgs ≡ some s
    → (before ≡ some s) ⊎ HasEntry udid s (pairs msgs)
latest-pairs udid s before [] h = inl h
latest-pairs udid s before (store j t ∷ rest) h = elim (Bool-cases (str_eq j udid)) [
  | inl same ↦ elim (latest-pairs udid s (some t) rest (ground arith)) [
    | inl e ↦ inr (inl ((eq_iff j udid).0 same, ground arith))
    | inr k ↦ inr (inr k)
  ]
  | inr other ↦ elim (latest-pairs udid s before rest (ground arith)) [
    | inl e ↦ inl e
    | inr k ↦ inr (inr k)
  ]
]
latest-pairs udid s before (kill j ∷ rest) h = elim (Bool-cases (str_eq j udid)) [
  | inl same ↦ elim (latest-pairs udid s none rest (ground arith)) [ inl e ↦ cc | inr k ↦ inr k ]
  | inr other ↦ latest-pairs udid s before rest (ground arith)
]

HasEntry-count :
    (udid : String) (n : ℕ) (l : List (String × ℕ)) → HasEntry udid n l → 1 ≤ count n (second l)
HasEntry-count udid n [] h = elim h [ ]
HasEntry-count udid n ((j, m) ∷ l) (inl (e, f)) = ground (arith, ==_iff m n)
HasEntry-count udid n ((j, m) ∷ l) (inr h) = omega (arith, HasEntry-count udid n l h)

-- A number that stands in a list once stands with one device.
HasEntry-unique :
    (j k : String) (n : ℕ) (l : List (String × ℕ))
    → count n (second l) ≤ 1
    → HasEntry j n l
    → HasEntry k n l
    → j ≡ k
HasEntry-unique j k n [] u h g = elim h [ ]
HasEntry-unique j k n ((i, m) ∷ l) u (inl (e, f)) (inl (g, h)) = sym e ∙ g
HasEntry-unique j k n ((i, m) ∷ l) u (inl (e, f)) (inr h) =
    absurd (ground (arith, ==_iff m n, HasEntry-count k n l h))
HasEntry-unique j k n ((i, m) ∷ l) u (inr h) (inl (e, f)) =
    absurd (ground (arith, ==_iff m n, HasEntry-count j n l h))
HasEntry-unique j k n ((i, m) ∷ l) u (inr h) (inr g) = HasEntry-unique j k n l (omega arith) h g

-- The manager has the sender of the device, and has not called it; or it has called it once, and
-- does not have it any more.
abbrev pub Settled : String → Sender → Own → Type 0
Settled udid s o =
    ((get udid (run start o.sent).cache ≡ some s) × (count s (run start o.sent).signalled ≡ 0))
    ⊎ ((count s (values (run start o.sent).cache) ≡ 0) × (count s (run start o.sent).signalled ≡ 1))

module _ {c : Config} (v : Valid c) (udid : String) (s : Sender)
    (begun : HasEntry udid s c.own.beating) (sent : count s (second c.flying) ≡ 0) where
  accounted :
      count s (run start c.own.sent).signalled + count s (values (run start c.own.sent).cache) ≡ 1
  accounted = omega (
    arith,
    count-run s start c.own.sent tt,
    v.once s,
    v.sent_or_flying s,
    HasEntry-count udid s c.own.beating begun,
  )

  in_cache :
      1 ≤ count s (values (run start c.own.sent).cache)
      → get udid (run start c.own.sent).cache ≡ some s
  in_cache h =
      let (j, found) =
        values-get s (run start c.own.sent).cache (run-HasUniqueKeys start c.own.sent tt) h in
      elim (latest-pairs j s none c.own.sent (sym (get-run c.own.sent j) ∙ found)) [
        | inl e ↦ cc
        | inr k ↦
            subst (λ u. get u (run start c.own.sent).cache ≡ some s)
              (HasEntry-unique j udid s c.own.beating (v.once s) (v.sent_started j s k) begun) found
      ]

  Valid-Settled : Settled udid s c.own
  Valid-Settled = elim (dec_lt 0 (count s (values (run start c.own.sent).cache))) [
    | yes h ↦ inl (in_cache (omega arith), omega (arith, accounted))
    | no h ↦ inr (omega arith, omega (arith, accounted))
  ]

-- At any time of a server that started empty, whatever its requests and tasks did so far in
-- whatever order: a heartbeat of a device whose `Store` has reached the manager's channel is, once
-- the manager has handled what was sent, in the manager's cache for that device and was not told to
-- stop, or it was told to stop exactly once and is in the cache no more.
pub heartbeats-Settled :
    (c : Config) (udid : String) (s : Sender)
    → Reach (record { own = initial; flying = [] }) c
    → HasEntry udid s c.own.beating
    → count s (second c.flying) ≡ 0
    → Settled udid s c.own
heartbeats-Settled c udid s r begun sent =
    Valid-Settled (Reach-Valid r initial-Valid) udid s begun sent

below_length :
    (n : ℕ) (l : List Progress) → n < length l → (p : Progress) × (get_elem? l n ≡ some p)
below_length n [] h = absurd (omega arith)
below_length zero (p ∷ l) h = (p, refl)
below_length (suc n) (p ∷ l) h = below_length n l (omega arith)

-- In every state that is reached, a receiver in the mount cache is that of a mount task of its device,
-- its channel is there and holds a value, and no other task has it.
pub receivers_valid :
    (c : Config) (udid : String) (channel : ℕ)
    → Reach (record { own = initial; flying = [] }) c
    → get udid c.own.mount_cache ≡ some channel
    → HasEntry udid channel c.own.mounting
      × (count channel (second c.own.mounting) ≡ 1)
      × (channel < length c.own.channels)
      × ((p : Progress) × (cached udid c.own ≡ some p))
receivers_valid c udid channel r e =
    let v = Reach-Valid r initial-Valid in
    let h = v.receivers udid channel e in
    let n = HasEntry-count udid channel c.own.mounting h in
    let inside : channel < length c.own.channels = elim (dec_lt channel (length c.own.channels)) [
      | yes y ↦ y
      | no y ↦ absurd (omega (arith, n, v.tasks channel))
    ] in
    let (p, f) = below_length channel c.own.channels inside in
    (h, omega (arith, n, v.own_channel channel), inside, (p, rw (cached, e) f))
