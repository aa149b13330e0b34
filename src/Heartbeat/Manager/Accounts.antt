-- ===== src/Heartbeat/Manager/Accounts.antt =====
-- What becomes of the senders that the manager is given.
use jit_streamer_eb.Prelude.{
  ℕ, ◌+◌, ◌≤◌, Option, none, some, String, List, [], ◌∷◌, ◌==◌, ==_iff, ◌∙◌, true, Bool, ◌++◌,
  str_eq, if◌then◌else◌, ◌≡◌, refl, eq_iff, arith,
}
use jit_streamer_eb.HashMap.{HashMap, get, insert, remove, values, HasUniqueKeys}
use jit_streamer_eb.Heartbeat.Manager.{
  Sender, SendRequest, store, kill, Manager, start, signal, handle, run,
}
use jit_streamer_eb.Heartbeat.Manager.Latest.{latest, get-run, handle-HasUniqueKeys}

-- How often a sender stands in a list.
abbrev pub count : Sender → List Sender → ℕ
count s [] = 0
count s (t ∷ l) = (if t == s then 1 else 0) + count s l

-- The senders that the requests brought.
abbrev pub stored : List SendRequest → List Sender
stored [] = []
stored (store udid s ∷ rest) = s ∷ stored rest
stored (kill udid ∷ rest) = stored rest

abbrev count? : Sender → Option Sender → ℕ
count? s none = 0
count? s (some t) = if t == s then 1 else 0

-- Removing a key takes out the one entry that `get` shows.
count-remove :
    (s : Sender) (k : String) (m : HashMap Sender)
    → HasUniqueKeys m
    → count s (values (remove k m)) + count? s (get k m) ≡ count s (values m)
unfolding get remove
count-remove s k [] u = refl
count-remove s k ((j, t) ∷ m) u = ground (arith, count-remove s k m, eq_iff j k)

count-signal :
    (s : Sender) (o : Option Sender) (l : List Sender)
    → count s (signal o l) ≡ count? s o + count s l
count-signal s none l = omega arith
count-signal s (some t) l = omega arith

-- One request moves senders from the cache to the signalled ones, and adds those that it brings.
count-handle :
    (s : Sender) (m : Manager) (msg : SendRequest)
    → HasUniqueKeys m.cache
    → count s (handle m msg).signalled + count s (values (handle m msg).cache)
      ≡ count s m.signalled + count s (values m.cache) + count s (stored (msg ∷ []))
unfolding handle insert
count-handle s m (store udid t) u =
    omega (arith, count-signal s (get udid m.cache) m.signalled, count-remove s udid m.cache u)
count-handle s m (kill udid) u =
    omega (arith, count-signal s (get udid m.cache) m.signalled, count-remove s udid m.cache u)

count-stored :
    (s : Sender) (msg : SendRequest) (rest : List SendRequest)
    → count s (stored (msg ∷ rest)) ≡ count s (stored (msg ∷ [])) + count s (stored rest)
count-stored s (store udid t) rest = omega arith
count-stored s (kill udid) rest = omega arith

-- From a manager whose cache is a map, requests lose no sender and signal none twice: a sender
-- stands among the signalled ones and in the cache as often together as it did before and as the
-- requests brought it.
pub count-run :
    (s : Sender) (m : Manager) (msgs : List SendRequest)
    → HasUniqueKeys m.cache
    → count s (run m msgs).signalled + count s (values (run m msgs).cache)
      ≡ count s m.signalled + count s (values m.cache) + count s (stored msgs)
unfolding run
count-run s m [] u = omega arith
count-run s m (msg ∷ rest) u = omega (
  arith,
  count-run s (handle m msg) rest (handle-HasUniqueKeys m msg u),
  count-handle s m msg u,
  count-stored s msg rest,
)

count-get :
    (s : Sender) (udid : String) (m : HashMap Sender) → get udid m ≡ some s → 1 ≤ count s (values m)
unfolding get
count-get s udid [] h = cc
count-get s udid ((j, t) ∷ m) h = ground (arith, count-get s udid m)

-- A sender that the requests bring once has been signalled exactly once if it is no longer in the
-- cache, and not at all while it stands there for some device.
pub signalled_once :
    (s : Sender) (msgs : List SendRequest)
    → count s (stored msgs) ≡ 1
    → (count s (values (run start msgs).cache) ≡ 0 → count s (run start msgs).signalled ≡ 1)
      × ((udid : String)
          → get udid (run start msgs).cache ≡ some s
          → count s (run start msgs).signalled ≡ 0)
signalled_once s msgs once = (
  λ gone. omega (arith, count-run s start msgs tt),
  λ udid here.
      omega (arith, count-run s start msgs tt, count-get s udid (run start msgs).cache here),
)

abbrev pub about : String → SendRequest → Bool
about udid (store j s) = str_eq j udid
about udid (kill j) = str_eq j udid

count-handle_mono :
    (s : Sender) (m : Manager) (msg : SendRequest)
    → count s m.signalled ≤ count s (handle m msg).signalled
unfolding handle
count-handle_mono s m (store j t) = omega (arith, count-signal s (get j m.cache) m.signalled)
count-handle_mono s m (kill j) = omega (arith, count-signal s (get j m.cache) m.signalled)

count-run_mono :
    (s : Sender) (m : Manager) (msgs : List SendRequest)
    → count s m.signalled ≤ count s (run m msgs).signalled
unfolding run
count-run_mono s m [] = omega arith
count-run_mono s m (msg ∷ rest) =
    omega (arith, count-handle_mono s m msg, count-run_mono s (handle m msg) rest)

count-handle-about :
    (s : Sender) (udid : String) (m : Manager) (msg : SendRequest)
    → get udid m.cache ≡ some s
    → about udid msg ≡ true
    → 1 ≤ count s (handle m msg).signalled
unfolding handle
count-handle-about s udid m (store j t) h a = ground (arith, eq_iff j udid, ==_iff s s)
count-handle-about s udid m (kill j) h a = ground (arith, eq_iff j udid, ==_iff s s)

run-append :
    (m : Manager) (before behind : List SendRequest)
    → run m (before ++ behind) ≡ run (run m before) behind
unfolding run
run-append m [] behind = refl
run-append m (msg ∷ before) behind = run-append (handle m msg) before behind

-- A device's heartbeat is told to stop by the next request about the device: the sender that the
-- last `Store` for the device brought is signalled once a `Store` or a `Kill` for it comes, and
-- stays signalled whatever comes behind.
pub stopped_by_next :
    (s : Sender) (udid : String) (before behind : List SendRequest) (msg : SendRequest)
    → latest udid none before ≡ some s
    → about udid msg ≡ true
    → 1 ≤ count s (run start (before ++ (msg ∷ behind))).signalled
unfolding run
stopped_by_next s udid before behind msg last a = rw (run-append start before (msg ∷ behind)) (
    omega (
      arith,
      count-handle-about s udid (run start before) msg (get-run before udid ∙ last) a,
      count-run_mono s (handle (run start before) msg) behind,
    ))
