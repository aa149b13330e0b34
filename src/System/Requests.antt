-- ===== src/System/Requests.antt =====
-- The handlers of src/main.rs, src/mount.rs and src/register.rs, one after another, as steps of the
-- system.
use jit_streamer_eb.Prelude.{
  ℕ, ◌==◌, Bool, true, false, Bool-cases, String, Option, none, some, ok, err, List, [], ◌∷◌, ◌≡◌,
  refl, sym, subst, inl, inr,
}
use jit_streamer_eb.Db.{Sqlite}
use jit_streamer_eb.Net.{IpAddr, Ipv6}
use jit_streamer_eb.Device.{Plist, Device, TcpProvider}
use jit_streamer_eb.Flow.{Flow, pure, ◌>>=◌, ◌>>◌}
use jit_streamer_eb.Server.{Server, Progress, send}
use jit_streamer_eb.Server.Quiet.{QuietOr}
use jit_streamer_eb.Heartbeat.Manager.{Sender, kill}
use jit_streamer_eb.Common.{get_udid_from_ip}
use jit_streamer_eb.Net
use jit_streamer_eb.Common.Lookup.{get_udid_from_ip-Quiet}
use jit_streamer_eb.Handlers.Session.{find_device, start_heartbeat}
use jit_streamer_eb.Handlers.Session.Course.{find_device-Quiet, start_heartbeat-cases}
use jit_streamer_eb.Handlers.GetApps
use jit_streamer_eb.Handlers.GetApps.Course.{select_apps-Quiet}
use jit_streamer_eb.Handlers.LaunchApp
use jit_streamer_eb.Handlers.LaunchApp.Course.{work-Quiet}
use jit_streamer_eb.Handlers.AttachApp
use jit_streamer_eb.Handlers.AttachApp.Course.{attach-Quiet}
use jit_streamer_eb.Mount.{Mounter, poll, image_mounted, answer_mounted, mount_work, mount_task}
use jit_streamer_eb.Mount
use jit_streamer_eb.Mount.Course.{list_images-Quiet, read_pairing_file-Quiet}
use jit_streamer_eb.Mount.Task.{prepare_mount-Quiet}
use jit_streamer_eb.Register.Handler as Register
use jit_streamer_eb.Register.Host.{Host, Wireguard}
use jit_streamer_eb.Register.Handler.{
  run_bash, refresh_wireguard, save_plist, refresh, conclude, read_udid, new_address,
}
use jit_streamer_eb.Register.Handler.Tracks.{Tracks-Logs}
use jit_streamer_eb.Register.Handler.Assigned.{new_address-Tracks}
use jit_streamer_eb.System.{HasEntry, Reach, here, Reach-trans, initial}
use jit_streamer_eb.System.Walks.{
  at, Walks, Walks-keeps, Walks-pure, Walks-stop, Walks-bind, Walks-call, Walks-gets, Walks-outside,
  Walks-or_reply, Walks-publish, Walks-publish_all, Walks-send_kill, Walks-forget,
  Walks-begin_mount, Walks-Logs, Reach-begun, walk_rules,
}
use jit_streamer_eb.System.Heartbeats.{Settled, heartbeats-Settled}

-- What happens to the server: a request from an address, or the run of a mount task.
pub data Event (PairingFile : Type 0) : Type 0 where
  asks_apps : IpAddr → Event PairingFile
  asks_launch : IpAddr → String → Event PairingFile
  asks_attach : IpAddr → ℕ → Event PairingFile
  asks_mount : IpAddr → Event PairingFile
  runs_mount : TcpProvider PairingFile → ℕ → String → Event PairingFile
  asks_register : IpAddr → List ℕ → Event PairingFile

Walks-Quiet :
    {W R A J : Type 0} {Bad : R → Type 0} {m : Flow (Server W) R A} → QuietOr J Bad m → Walks m
Walks-Quiet q = Walks-keeps q.keeps

module _ {W : Type 0} (db : Sqlite W) (plist : Plist) (dev : Device W (plist.Value))
    (mounter : Mounter W (plist.Value) (dev.PairingFile)) (host : Host W) (wg : Wireguard W)
    (from_bytes : List ℕ → Option (plist.Dictionary)) where
  -- The state behind the event.
  unfoldable pub serve : Event (dev.PairingFile) → Server W → Server W
  serve (asks_apps ip) s = (GetApps.get_apps plist dev db ip s).1
  serve (asks_launch ip bundle_id) s = (LaunchApp.launch_app dev db ip bundle_id s).1
  serve (asks_attach ip pid) s = (AttachApp.attach_app dev db ip pid s).1
  serve (asks_mount ip) s = (Mount.check_mount dev mounter db ip s).1
  serve (runs_mount provider channel udid) s = (mount_task dev mounter provider channel udid s).1
  serve (asks_register ip bytes) s = (Register.register host wg plist from_bytes db ip bytes s).1

  unfoldable pub serve_all : List (Event (dev.PairingFile)) → Server W → Server W
  serve_all [] s = s
  serve_all (event ∷ events) s = serve_all events (serve event s)

  start_heartbeat-Walks :
      {R : Type 0} (fail : String → R) (ip : IpAddr) (udid : String)
      (pairing_file : dev.PairingFile)
      → Walks (start_heartbeat db dev fail ip udid pairing_file)
  start_heartbeat-Walks fail ip udid pairing_file = record {
    walk = λ s flying.
        elim (start_heartbeat-cases db dev (λ _. Unit) fail (λ e. tt) ip udid pairing_file s) [
          | inl (v, e) ↦
              subst (λ o. Reach (at s.own flying) (at o flying)) (sym e)
                (Reach-begun s.own flying udid)
          | inr (h, e) ↦ subst (λ o. Reach (at s.own flying) (at o flying)) (sym e) here
        ];
  }

  -- A session: what `find` gives, a heartbeat, the work with the device, and the heartbeat's end.
  session-Walks :
      {R A : Type 0} (fail : String → R) (ip : IpAddr)
      (work : dev.PairingFile → Flow (Server W) R A) (result : A → R)
      → ((pairing_file : dev.PairingFile) → Walks (work pairing_file))
      → Walks (do
        (udid, pairing_file) ← find_device db dev fail ip
        start_heartbeat db dev fail ip udid pairing_file
        a ← work pairing_file
        send (kill udid)
        pure (result a))
  session-Walks fail ip work result walks =
      Walks-bind _ _ (Walks-Quiet (find_device-Quiet db dev (λ _. Unit) fail (λ e. tt) ip))
        (λ found. Walks-bind _ _ (start_heartbeat-Walks fail ip found.0 found.1) (λ _.
          Walks-bind _ _ (walks found.1)
            (λ a. Walks-bind _ _ (Walks-send_kill found.0) (λ _. Walks-pure (result a)))))

  poll-Walks : (udid : String) (p : Option Progress) → Walks {W = W} (poll udid p)
  unfolding poll
  poll-Walks udid none = Walks-pure tt
  poll-Walks udid (some (ok (a, b, true))) = Walks-bind _ _ (Walks-forget udid) (λ _. Walks-stop _)
  poll-Walks udid (some (ok (a, b, false))) = Walks-stop _
  poll-Walks udid (some (err e)) = Walks-bind _ _ (Walks-forget udid) (λ _. Walks-stop _)

  answer_mounted-Walks : (udid : String) (b : Bool) → Walks (answer_mounted dev mounter udid b)
  unfolding answer_mounted
  answer_mounted-Walks udid true = Walks-pure _
  answer_mounted-Walks udid false = Walks-begin_mount udid

  image_mounted-Walks : (ip : IpAddr) (udid : String) → Walks (image_mounted dev mounter db ip udid)
  unfolding image_mounted
  image_mounted-Walks ip udid =
      Walks-bind _ _ (Walks-Quiet (read_pairing_file-Quiet dev mounter udid)) (λ pairing_file.
        Walks-bind _ _ (start_heartbeat-Walks _ ip udid pairing_file)
          (λ _. Walks-Quiet (list_images-Quiet dev mounter ip pairing_file)))

  check_mount-Walks : (ip : IpAddr) → Walks (Mount.check_mount dev mounter db ip)
  unfolding Mount.check_mount
  check_mount-Walks ip = Walks-bind _ _ (Walks-call _ looked_up) (λ found.
      Walks-bind _ _ (Walks-or_reply _ found) (λ udid. Walks-bind _ _ (Walks-gets _) (λ progress.
        Walks-bind _ _ (poll-Walks udid progress) (λ _.
          Walks-bind _ _ (image_mounted-Walks ip udid)
            (λ mounted. answer_mounted-Walks udid mounted)))))
    where
      looked_up : Walks (get_udid_from_ip db (Net.to_string ip))
      looked_up = Walks-Quiet (get_udid_from_ip-Quiet db (Net.to_string ip))

  mount_work-Walks :
      (provider : TcpProvider (dev.PairingFile)) (channel : ℕ) (udid : String)
      → Walks (mount_work dev mounter provider channel udid)
  unfolding mount_work
  mount_work-Walks provider channel udid =
      Walks-bind _ _ (Walks-Quiet (prepare_mount-Quiet dev mounter provider)) (λ c.
        Walks-bind _ _ (Walks-outside _) (λ m. Walks-bind _ _ (Walks-publish_all channel m.0) (λ _.
          Walks-bind _ _ (Walks-or_reply _ m.1)
            (λ _. Walks-bind _ _ (Walks-send_kill udid) (λ _. Walks-pure _)))))

  run_bash-Walks : (command : String) → Walks (run_bash host command)
  unfolding run_bash
  run_bash-Walks command = search walk_rules depth 20

  refresh-Walks : (mode : ℕ) (ip : Ipv6) → Walks (refresh host mode ip)
  unfolding refresh refresh_wireguard
  refresh-Walks mode ip = elim (Bool-cases (mode == 1)) [
    | inl e ↦ rw e (Walks-bind _ _ (run_bash-Walks _) (λ _. run_bash-Walks _))
    | inr e ↦ rw e (Walks-pure tt)
  ]

  save_plist-Walks : (udid : String) (bytes : List ℕ) → Walks (save_plist host udid bytes)
  unfolding save_plist
  save_plist-Walks udid bytes = search walk_rules depth 20

  conclude-Walks :
      (bytes : List ℕ) (udid : String) (a : ℕ × Ipv6 × List ℕ) → Walks (conclude host bytes udid a)
  unfolding conclude
  conclude-Walks bytes udid (mode, ip, config) =
      search (walk_rules, save_plist-Walks, refresh-Walks) depth 20

  register-Walks :
      (ip : IpAddr) (bytes : List ℕ)
      → Walks (Register.register host wg plist from_bytes db ip bytes)
  unfolding Register.register read_udid
  register-Walks ip bytes = search (walk_rules, addressed, conclude-Walks) depth 20
    where
      addressed : (udid : String) → Walks (new_address host wg db ip udid)
      addressed udid = Walks-Logs (Tracks-Logs (new_address-Tracks host udid wg db ip))

  -- Every event takes the state along steps of the system, whatever the device, the database and
  -- the host do.
  serve-Reach :
      (event : Event (dev.PairingFile)) (s : Server W) (flying : List (String × Sender))
      → Reach (at s.own flying) (at (serve event s).own flying)
  unfolding serve GetApps.get_apps LaunchApp.launch_app AttachApp.attach_app mount_task
  serve-Reach (asks_apps ip) s flying = walked.walk s flying
    where
      walked : Walks (GetApps.get_apps plist dev db ip)
      walked =
          session-Walks _ ip (GetApps.select_apps plist dev ip) _
            (λ pairing_file. Walks-Quiet (select_apps-Quiet plist dev ip pairing_file))
  serve-Reach (asks_launch ip bundle_id) s flying = walked.walk s flying
    where
      walked : Walks (LaunchApp.launch_app dev db ip bundle_id)
      walked =
          session-Walks _ ip (LaunchApp.work dev ip bundle_id) _
            (λ pairing_file. Walks-Quiet (work-Quiet dev ip bundle_id pairing_file))
  serve-Reach (asks_attach ip pid) s flying = walked.walk s flying
    where
      walked : Walks (AttachApp.attach_app dev db ip pid)
      walked =
          session-Walks _ ip (λ pairing_file. AttachApp.attach dev ip pairing_file pid) _
            (λ pairing_file. Walks-Quiet (attach-Quiet dev ip pairing_file pid))
  serve-Reach (asks_mount ip) s flying = (check_mount-Walks ip).walk s flying
  serve-Reach (runs_mount provider channel udid) s flying = walked.walk s flying
    where
      walked : Walks (mount_task dev mounter provider channel udid)
      walked =
          Walks-bind _ _ (Walks-call _ (mount_work-Walks provider channel udid))
            (λ r. Walks-publish channel _)
  serve-Reach (asks_register ip bytes) s flying = (register-Walks ip bytes).walk s flying

  pub serve_all-Reach :
      (events : List (Event (dev.PairingFile))) (s : Server W) (flying : List (String × Sender))
      → Reach (at s.own flying) (at (serve_all events s).own flying)
  unfolding serve_all
  serve_all-Reach [] s flying = here
  serve_all-Reach (event ∷ events) s flying =
      Reach-trans (serve-Reach event s flying) (serve_all-Reach events (serve event s) flying)

  -- After any requests and mount tasks of a server that started empty, one after another and with
  -- any device, database and host, each heartbeat that was started for a device is, once the manager
  -- has handled what was sent, in the manager's cache for that device and was not told to stop, or
  -- it was told to stop exactly once and is in the cache no more.
  pub serve_all-Settled :
      (events : List (Event (dev.PairingFile))) (s : Server W) (udid : String) (sender : Sender)
      → s.own ≡ initial
      → HasEntry udid sender (serve_all events s).own.beating
      → Settled udid sender (serve_all events s).own
  serve_all-Settled events s udid sender e begun =
      heartbeats-Settled (at (serve_all events s).own []) udid sender
        (subst (λ o. Reach (at o []) (at (serve_all events s).own [])) e
          (serve_all-Reach events s []))
        begun refl
