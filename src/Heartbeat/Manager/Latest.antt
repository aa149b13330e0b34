-- ===== src/Heartbeat/Manager/Latest.antt =====
-- The manager's cache as a function of the requests.
use jit_streamer_eb.Prelude.{
  Option, none, some, String, List, [], ◌∷◌, str_eq, if◌then◌else◌, ◌≡◌, refl,
}
use jit_streamer_eb.HashMap.{get, HasUniqueKeys}
use jit_streamer_eb.HashMap.Laws.{
  get-insert, get-remove, insert-HasUniqueKeys, remove-HasUniqueKeys,
}
use jit_streamer_eb.Heartbeat.Manager.{
  Sender, SendRequest, store, kill, Manager, start, handle, run,
}

-- The device's sender if the request speaks of the device, and `before` if not.
abbrev after : String → SendRequest → Option Sender → Option Sender
after udid (store j s) before = if str_eq j udid then some s else before
after udid (kill j) before = if str_eq j udid then none else before

-- The last request about the device decides: a `Store` left its sender, a `Kill` or nothing none.
abbrev pub latest : String → Option Sender → List SendRequest → Option Sender
latest udid before [] = before
latest udid before (msg ∷ rest) = latest udid (after udid msg before) rest

get-handle :
    (m : Manager) (udid : String) (msg : SendRequest)
    → get udid (handle m msg).cache ≡ after udid msg (get udid m.cache)
unfolding handle
get-handle m udid (store j s) = get-insert j udid s m.cache
get-handle m udid (kill j) = get-remove j udid m.cache

get-run_from :
    (m : Manager) (udid : String) (msgs : List SendRequest)
    → get udid (run m msgs).cache ≡ latest udid (get udid m.cache) msgs
unfolding run
get-run_from m udid [] = refl
get-run_from m udid (msg ∷ rest) = rw (get-run_from (handle m msg) udid rest, get-handle m udid msg)

-- After any requests the cache holds for each device the sender that the last `Store` for the
-- device brought, if no `Kill` for the device came behind it, and else nothing.
pub get-run :
    (msgs : List SendRequest) (udid : String)
    → get udid (run start msgs).cache ≡ latest udid none msgs
get-run msgs udid = unfold get in get-run_from start udid msgs

pub handle-HasUniqueKeys :
    (m : Manager) (msg : SendRequest) → HasUniqueKeys m.cache → HasUniqueKeys (handle m msg).cache
unfolding handle
handle-HasUniqueKeys m (store j s) u = insert-HasUniqueKeys j s m.cache u
handle-HasUniqueKeys m (kill j) u = remove-HasUniqueKeys j m.cache u

-- Requests keep the cache a map: no device has two senders.
pub run-HasUniqueKeys :
    (m : Manager) (msgs : List SendRequest)
    → HasUniqueKeys m.cache
    → HasUniqueKeys (run m msgs).cache
unfolding run
run-HasUniqueKeys m [] u = u
run-HasUniqueKeys m (msg ∷ rest) u =
    run-HasUniqueKeys (handle m msg) rest (handle-HasUniqueKeys m msg u)
