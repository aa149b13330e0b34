-- ===== src/Mount/Poll.antt =====
-- `check_mount` for a device that is in the mount cache.
use jit_streamer_eb.Prelude.{true, false, some, String, ◌≡◌, refl, ap, ◌∙◌, Result, ok, err}
use Prim.Native.String.{◌++◌ as str_append}
use jit_streamer_eb.Db.{Sqlite}
use jit_streamer_eb.Device.{Device}
use jit_streamer_eb.Net.{IpAddr}
use jit_streamer_eb.Net
use jit_streamer_eb.Flow.{Flow, next, reply, stop, or_reply, gets, call, ◌>>=◌}
use jit_streamer_eb.Server.{Own, Server, Progress}
use jit_streamer_eb.Common.{get_udid_from_ip}
use jit_streamer_eb.Common.Lookup.{get_udid_from_ip-Quiet}
use jit_streamer_eb.Mount.{
  Mounter, CheckMountResponse, failure, mounted_reply, mounting_reply, cached, forget, modify, poll,
  check_mount,
}

-- The reply that a channel's value calls for.
abbrev pub reply_to : Progress → CheckMountResponse
reply_to (ok (a, b, true)) = mounted_reply
reply_to (ok (a, b, false)) = mounting_reply
reply_to (err e) = failure (str_append "Failed to mount image: " e)

-- A mount that is over is forgotten once it has been reported.
abbrev pub settle : String → Progress → Own → Own
settle udid (ok (a, b, true)) own = forget udid own
settle udid (ok (a, b, false)) own = own
settle udid (err e) own = forget udid own

module _ {W : Type 0} where
  pub poll-cached :
      (udid : String) (p : Progress) (s : Server W)
      → poll udid (some p) s ≡ (reply (reply_to p), record s { own = settle udid p s.own })
  unfolding poll modify stop ◌>>=◌
  poll-cached udid (ok (a, b, true)) s = refl
  poll-cached udid (ok (a, b, false)) s = refl
  poll-cached udid (err e) s = refl

module _ {W Value : Type 0} (dev : Device W Value)
    (mounter : Mounter W Value (dev.PairingFile)) where
  -- The lookup of the device, as `check_mount` calls it.
  abbrev pub lookup : Sqlite W → IpAddr → Flow (Server W) CheckMountResponse (Result String String)
  lookup db ip = call (get_udid_from_ip db (Net.to_string ip))

  check_mount-found :
      (db : Sqlite W) (ip : IpAddr) (s t : Server W) (udid : String) (p : Progress)
      → lookup db ip s ≡ (next (ok udid), t)
      → cached udid t.own ≡ some p
      → check_mount dev mounter db ip s
        ≡ (reply (reply_to p), record t { own = settle udid p t.own })
  unfolding check_mount ◌>>=◌ or_reply gets
  check_mount-found db ip s t udid p found c = rw (found, c, poll-cached udid p t)

  -- A request about a device whose mount is in the cache asks the device nothing: the reply says
  -- what the mount's channel holds, and the entry goes if the mount is complete or has failed and
  -- stays while it is under way. Beyond the lookup in the database nothing else changes.
  pub check_mount-cached :
      (db : Sqlite W) (ip : IpAddr) (s : Server W) (udid : String) (p : Progress)
      → (lookup db ip s).0 ≡ next (ok udid)
      → cached udid s.own ≡ some p
      → check_mount dev mounter db ip s
        ≡ (reply (reply_to p), record (lookup db ip s).1 { own = settle udid p s.own })
  unfolding call
  check_mount-cached db ip s udid p found c =
      check_mount-found db ip s (lookup db ip s).1 udid p (ap (λ o. (o, (lookup db ip s).1)) found)
        (ap (cached udid) stays ∙ c)
      ∙ ap (λ o. (reply (reply_to p), record (lookup db ip s).1 { own = settle udid p o })) stays
    where
      stays : (lookup db ip s).1.own ≡ s.own
      stays = (get_udid_from_ip-Quiet db (Net.to_string ip)).keeps s
