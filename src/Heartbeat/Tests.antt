-- ===== src/Heartbeat/Tests.antt =====
-- The heartbeat's manager and loop on concrete requests and rounds.
use jit_streamer_eb.Prelude.{
  ◌+◌, ◌≤◌, ◌≡◌, ◌≢◌, ◌↔◌, refl, true, none, some, List, [], ◌∷◌, ◌++◌, All, String,
}
use jit_streamer_eb.HashMap.{get, insert, remove, values}
use jit_streamer_eb.Heartbeat.Manager.{SendRequest, store, kill, start, handle, run}
use jit_streamer_eb.Heartbeat.Manager.Latest.{latest, get-run}
use jit_streamer_eb.Heartbeat.Manager.Accounts.{
  count, stored, count-run, signalled_once, stopped_by_next,
}
use jit_streamer_eb.Heartbeat.Thread.{
  Round, received, empty, running, beat, StoppedAt, beat-running_iff, beat_stops, beat_stopped,
}

abbrev requests : List SendRequest
requests = store "a" 0 ∷ store "b" 1 ∷ store "a" 2 ∷ kill "b" ∷ []

requests_signalled : (run start requests).signalled ≡ 1 ∷ 0 ∷ []
unfolding run handle insert remove get
requests_signalled = refl

get-run_example : get "a" (run start requests).cache ≡ latest "a" none requests
get-run_example = get-run requests "a"

count-run_example :
    count 0 (run start requests).signalled + count 0 (values (run start requests).cache)
    ≡ 0 + 0 + count 0 (stored requests)
count-run_example = count-run 0 start requests tt

signalled_once_example :
    (count 2 (values (run start requests).cache) ≡ 0 → count 2 (run start requests).signalled ≡ 1)
    × ((udid : String)
        → get udid (run start requests).cache ≡ some 2
        → count 2 (run start requests).signalled ≡ 0)
signalled_once_example = signalled_once 2 requests refl

stopped_by_next_example :
    1
    ≤ count 0
        (run start ((store "a" 0 ∷ store "b" 1 ∷ []) ++ (store "a" 2 ∷ kill "b" ∷ []))).signalled
stopped_by_next_example =
    stopped_by_next 0 "a" (store "a" 0 ∷ store "b" 1 ∷ []) (kill "b" ∷ []) (store "a" 2) refl refl

abbrev steady : Round
steady = record { marco = true; polo = true; channel = empty }

abbrev last : Round
last = record { marco = true; polo = true; channel = received }

beat-running_iff_example :
    (beat (steady ∷ steady ∷ []) ≡ (running, 2))
    ↔ All (λ r. (r.marco ≡ true) × (r.polo ≡ true) × (r.channel ≡ empty)) (steady ∷ steady ∷ [])
beat-running_iff_example = beat-running_iff (steady ∷ steady ∷ [])

beat_stops_example :
    ((beat ((steady ∷ []) ++ (last ∷ steady ∷ []))).0 ≢ running)
    × ((beat ((steady ∷ []) ++ (last ∷ steady ∷ []))).1 ≤ 1 + 1)
beat_stops_example = beat_stops (steady ∷ []) (steady ∷ []) last (λ e. cc)

beat_stopped_example : StoppedAt (steady ∷ last ∷ steady ∷ [])
unfolding beat
beat_stopped_example = beat_stopped (steady ∷ last ∷ steady ∷ []) refl
