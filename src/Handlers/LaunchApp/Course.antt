-- ===== src/Handlers/LaunchApp/Course.antt =====
-- How a request to launch an app may go.
use jit_streamer_eb.Prelude.{ℕ, true, false, none, some, String, List, [], ◌∷◌, ◌≡◌, refl}
use jit_streamer_eb.Db.{Sqlite}
use jit_streamer_eb.Device.{Device}
use jit_streamer_eb.Net.{IpAddr}
use jit_streamer_eb.Server.{Server}
use jit_streamer_eb.Server.Quiet.{
  Quiet, Quiet-pure, Quiet-bind, Quiet-outside, Quiet-or_reply, quiet_rules,
}
use jit_streamer_eb.Handlers.Session.{find_device}
use jit_streamer_eb.Handlers.Session.Course.{Course, Course-mono, session-Course, find_device-Quiet}
use jit_streamer_eb.Handlers.LaunchApp.{
  LaunchAppReturn, failure, success, open_services, launch, send_commands, debug_process, work,
  launch_app,
}

-- A reply of failure carries a message, and says nothing of a launch.
abbrev pub IsFailure : LaunchAppReturn → Type 0
IsFailure r =
    (r.ok ≡ false)
    × (r.launching ≡ false)
    × (r.position ≡ none)
    × ((message : String) × (r.error ≡ some message))

abbrev pub IsSuccess : LaunchAppReturn → Type 0
IsSuccess r = (r.ok ≡ true) × (r.launching ≡ true) × (r.position ≡ some 0) × (r.error ≡ none)

failure-IsFailure : (message : String) → IsFailure (failure message)
unfolding failure
failure-IsFailure message = (refl, refl, refl, (message, refl))

module _ {W Value : Type 0} (dev : Device W Value) where
  send_commands-Quiet :
      (dp : dev.DebugProxy) (commands : List String)
      → Quiet IsFailure (send_commands dev dp commands)
  unfolding send_commands
  send_commands-Quiet dp [] = Quiet-pure tt
  send_commands-Quiet dp (command ∷ commands) = Quiet-bind _ _ (Quiet-outside _) (λ sent.
      Quiet-bind _ _ (Quiet-or_reply _ sent (λ e. failure-IsFailure _))
        (λ _. send_commands-Quiet dp commands))

  open_services-Quiet :
      (ip : IpAddr) (pairing_file : dev.PairingFile)
      → Quiet IsFailure (open_services dev ip pairing_file)
  unfolding open_services
  open_services-Quiet ip pairing_file = search (quiet_rules, failure-IsFailure) depth 60

  launch-Quiet :
      (xpc_client : dev.XpcDevice) (port : ℕ) (bundle_id : String)
      → Quiet IsFailure (launch dev xpc_client port bundle_id)
  unfolding launch
  launch-Quiet xpc_client port bundle_id = search (quiet_rules, failure-IsFailure) depth 60

  debug_process-Quiet :
      (rs_client : dev.RemoteServer) (port pid : ℕ)
      → Quiet IsFailure (debug_process dev rs_client port pid)
  unfolding debug_process
  debug_process-Quiet rs_client port pid =
      search (quiet_rules, failure-IsFailure, send_commands-Quiet) depth 60

  pub work-Quiet :
      (ip : IpAddr) (bundle_id : String) (pairing_file : dev.PairingFile)
      → Quiet IsFailure (work dev ip bundle_id pairing_file)
  unfolding work
  work-Quiet ip bundle_id pairing_file =
      search (quiet_rules, open_services-Quiet, launch-Quiet, debug_process-Quiet) depth 20

  -- A request to launch an app ends in one of three ways: it fails with a message, or panics, with
  -- no heartbeat started; it fails so when a heartbeat was started under a new sender and stored
  -- with the manager, and nothing else was sent; or it succeeds, and the manager was told to store
  -- that sender and then to kill the device's heartbeat.
  pub launch_app-Course :
      (db : Sqlite W) (ip : IpAddr) (bundle_id : String) (s : Server W)
      → let p = launch_app dev db ip bundle_id s in Course IsFailure IsSuccess s.own p.0 p.1.own
  unfolding launch_app
  launch_app-Course db ip bundle_id s =
      Course-mono IsFailure _ IsSuccess s.own _ _ (λ r h. rw h.1 (refl, refl, refl, refl))
        (session-Course db dev IsFailure failure failure-IsFailure (find_device db dev failure ip)
          (find_device-Quiet db dev IsFailure failure failure-IsFailure ip) ip
          (work dev ip bundle_id) (work-Quiet ip bundle_id) (λ _. success) s)
