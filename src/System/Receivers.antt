-- ===== src/System/Receivers.antt =====
-- The receivers in the mount cache of src/mount.rs, after any requests.
use jit_streamer_eb.Prelude.{ℕ, ◌<◌, Option, some, String, List, [], ◌≡◌, subst, length}
use jit_streamer_eb.HashMap.{get}
use jit_streamer_eb.Db.{Sqlite}
use jit_streamer_eb.Device.{Plist, Device}
use jit_streamer_eb.Server.{Server, Progress}
use jit_streamer_eb.Heartbeat.Manager.Accounts.{count}
use jit_streamer_eb.Mount.{Mounter, cached}
use jit_streamer_eb.Register.Host.{Host, Wireguard}
use jit_streamer_eb.System.{HasEntry, Reach, initial, second}
use jit_streamer_eb.System.Walks.{at}
use jit_streamer_eb.System.Heartbeats.{receivers_valid}
use jit_streamer_eb.System.Requests.{Event, serve_all, serve_all-Reach}

module _ {W : Type 0} (db : Sqlite W) (plist : Plist) (dev : Device W (plist.Value))
    (mounter : Mounter W (plist.Value) (dev.PairingFile)) (host : Host W) (wg : Wireguard W)
    (from_bytes : List ℕ → Option (plist.Dictionary)) where
  -- After any requests and mount tasks of a server that started empty, one after another and with
  -- any device, database and host, a receiver in the mount cache under a device is that of a mount
  -- task that was spawned for this device, no other mount task has its channel, and the channel is
  -- there and holds a value.
  pub serve_all-receivers :
      (events : List (Event (dev.PairingFile))) (s : Server W) (udid : String) (channel : ℕ)
      → s.own ≡ initial
      → get udid (serve_all db plist dev mounter host wg from_bytes events s).own.mount_cache
        ≡ some channel
      → let after = (serve_all db plist dev mounter host wg from_bytes events s).own in
        HasEntry udid channel after.mounting
        × (count channel (second after.mounting) ≡ 1)
        × (channel < length after.channels)
        × ((p : Progress) × (cached udid after ≡ some p))
  serve_all-receivers events s udid channel e entry =
      receivers_valid (at (serve_all db plist dev mounter host wg from_bytes events s).own []) udid
        channel
        (subst
          (λ o.
            Reach (at o [])
              (at (serve_all db plist dev mounter host wg from_bytes events s).own []))
          e (serve_all-Reach db plist dev mounter host wg from_bytes events s []))
        entry
