-- ===== src/Handlers/GetApps/Course.antt =====
-- How a request for the apps may go.
use jit_streamer_eb.Prelude.{true, false, none, some, String, [], ◌∷◌, ◌≡◌, refl}
use jit_streamer_eb.HashMap.{HashMap, keys}
use jit_streamer_eb.Db.{Sqlite}
use jit_streamer_eb.Device.{Plist, Device}
use jit_streamer_eb.Net.{IpAddr}
use jit_streamer_eb.Server.{Server}
use jit_streamer_eb.Server.Quiet.{Quiet, Quiet-pure, Quiet-stop, quiet_rules}
use jit_streamer_eb.Handlers.Session.{find_device}
use jit_streamer_eb.Handlers.Session.Course.{Course, Course-mono, session-Course, find_device-Quiet}
use jit_streamer_eb.Handlers.GetApps.{
  GetAppsReturn, failure, success, with_notice, select_apps, get_apps,
}

-- A reply of failure carries a message and no apps.
abbrev pub IsFailure : GetAppsReturn → Type 0
IsFailure r =
    (r.ok ≡ false)
    × (r.apps ≡ [])
    × (r.bundle_ids ≡ none)
    × ((message : String) × (r.error ≡ some message))

-- A reply of success lists the names of the map that it carries.
abbrev pub IsSuccess : GetAppsReturn → Type 0
IsSuccess r =
    (r.ok ≡ true)
    × (r.error ≡ none)
    × ((apps : HashMap String) × (r.bundle_ids ≡ some apps) × (r.apps ≡ keys apps))

failure-IsFailure : (message : String) → IsFailure (failure message)
unfolding failure
failure-IsFailure message = (refl, refl, refl, (message, refl))

success-IsSuccess : (apps : HashMap String) → IsSuccess (success apps)
success-IsSuccess apps = (refl, refl, (apps, refl, refl))

with_notice-Quiet :
    {W : Type 0} (apps : HashMap String) → Quiet {W = W} IsFailure (with_notice apps)
unfolding with_notice
with_notice-Quiet [] = Quiet-stop _ (failure-IsFailure _)
with_notice-Quiet (app ∷ apps) = Quiet-pure _

module _ {W : Type 0} (plist : Plist) (dev : Device W (plist.Value)) where
  pub select_apps-Quiet :
      (ip : IpAddr) (pairing_file : dev.PairingFile)
      → Quiet IsFailure (select_apps plist dev ip pairing_file)
  unfolding select_apps
  select_apps-Quiet ip pairing_file =
      search (quiet_rules, failure-IsFailure, with_notice-Quiet) depth 30

  -- A request for the apps ends in one of three ways: it fails with a message and no apps, or
  -- panics, with no heartbeat started; it fails so when a heartbeat was started under a new sender
  -- and stored with the manager, and nothing else was sent; or it succeeds with the names of the
  -- map that it carries, and the manager was told to store that sender and then to kill the
  -- device's heartbeat.
  pub get_apps-Course :
      (db : Sqlite W) (ip : IpAddr) (s : Server W)
      → let p = get_apps plist dev db ip s in Course IsFailure IsSuccess s.own p.0 p.1.own
  unfolding get_apps
  get_apps-Course db ip s =
      Course-mono IsFailure _ IsSuccess s.own _ _ (λ r h. rw h.1 (success-IsSuccess h.0))
        (session-Course db dev IsFailure failure failure-IsFailure (find_device db dev failure ip)
          (find_device-Quiet db dev IsFailure failure failure-IsFailure ip) ip
          (select_apps plist dev ip) (select_apps-Quiet ip) success s)
