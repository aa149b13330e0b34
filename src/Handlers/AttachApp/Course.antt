-- ===== src/Handlers/AttachApp/Course.antt =====
-- How a request to attach may go.
use jit_streamer_eb.Prelude.{ℕ, true, false, String, List, [], ◌∷◌, ◌≡◌, refl}
use jit_streamer_eb.Db.{Sqlite}
use jit_streamer_eb.Device.{Device}
use jit_streamer_eb.Net.{IpAddr}
use jit_streamer_eb.Server.{Server}
use jit_streamer_eb.Server.Quiet.{
  Quiet, Quiet-pure, Quiet-bind, Quiet-outside, Quiet-or_reply, quiet_rules,
}
use jit_streamer_eb.Handlers.Session.{find_device}
use jit_streamer_eb.Handlers.Session.Course.{Course, Course-mono, session-Course, find_device-Quiet}
use jit_streamer_eb.Handlers.AttachApp.{AttachReturn, fail, send_commands, attach, attach_app}

abbrev pub IsFailure : AttachReturn → Type 0
IsFailure r = r.success ≡ false

abbrev pub IsSuccess : AttachReturn → Type 0
IsSuccess r = r ≡ record { success = true; message = "" }

fail-IsFailure : (e : String) → IsFailure (fail e)
unfolding fail
fail-IsFailure e = refl

module _ {W Value : Type 0} (dev : Device W Value) where
  send_commands-Quiet :
      (dp : dev.DebugProxy) (commands : List String)
      → Quiet IsFailure (send_commands dev dp commands)
  unfolding send_commands
  send_commands-Quiet dp [] = Quiet-pure tt
  send_commands-Quiet dp (command ∷ commands) = Quiet-bind _ _ (Quiet-outside _) (λ sent.
      Quiet-bind _ _ (Quiet-or_reply _ sent (λ e. fail-IsFailure _))
        (λ _. send_commands-Quiet dp commands))

  pub attach-Quiet :
      (ip : IpAddr) (pairing_file : dev.PairingFile) (pid : ℕ)
      → Quiet IsFailure (attach dev ip pairing_file pid)
  unfolding attach
  attach-Quiet ip pairing_file pid =
      search (quiet_rules, fail-IsFailure, send_commands-Quiet) depth 60

  -- A request to attach ends in one of three ways: it fails, or panics, with no heartbeat started;
  -- it fails, or panics, when a heartbeat was started under a new sender and stored with the
  -- manager, and nothing else was sent; or it succeeds, and the manager was told to store that
  -- sender and then to kill the device's heartbeat.
  pub attach_app-Course :
      (db : Sqlite W) (ip : IpAddr) (pid : ℕ) (s : Server W)
      → let p = attach_app dev db ip pid s in Course IsFailure IsSuccess s.own p.0 p.1.own
  unfolding attach_app
  attach_app-Course db ip pid s =
      Course-mono IsFailure _ IsSuccess s.own _ _ (λ r h. h.1)
        (session-Course db dev IsFailure fail fail-IsFailure (find_device db dev fail ip)
          (find_device-Quiet db dev IsFailure fail fail-IsFailure ip) ip
          (λ pairing_file. attach dev ip pairing_file pid)
          (λ pairing_file. attach-Quiet ip pairing_file pid)
          (λ _. record { success = true; message = "" }) s)
