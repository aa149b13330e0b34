-- ===== src/Mount/Task.antt =====
-- What the mount task leaves behind.
use jit_streamer_eb.Prelude.{
  ℕ, ◌<◌, true, false, none, some, String, List, [], ◌∷◌, ◌++◌, ◌≡◌, refl, ap, sym, subst, ◌∙◌, ◌⊎◌,
  inl, inr, Result, ok, err, Result-cases, length, length-set, get_elem?, get_elem?-set_self, set,
}
use Prim.Native.String.{◌++◌ as str_append}
use mathlib.Core.List.{append-nil}
use jit_streamer_eb.HashMap.{get, remove}
use jit_streamer_eb.Device.{IdeviceError, TcpProvider, Device}
use jit_streamer_eb.Flow.{
  Flow, Outcome, next, reply, panicked, returned, pure, or_reply, call, ◌>>=◌, ◌>>◌,
}
use jit_streamer_eb.Server.{Own, Server, Progress, outside, send}
use jit_streamer_eb.Server.Quiet.{QuietOr, RepliesIn, quiet_rules}
use jit_streamer_eb.Heartbeat.Manager.{SendRequest, kill}
use jit_streamer_eb.Mount.{
  Mounter, CheckMountResponse, failure, cached, publish, check_mount, publish_all, prepare_mount,
  mount_work, mount_task,
}
use jit_streamer_eb.Db.{Sqlite}
use jit_streamer_eb.Net.{IpAddr}
use jit_streamer_eb.Mount.Poll.{lookup, check_mount-cached}

-- The channels after the callback's reports.
abbrev published : ℕ → List (ℕ × ℕ) → List Progress → List Progress
published channel [] l = l
published channel ((a, b) ∷ reports) l =
    published channel reports (set l channel (ok (a, b, false)))

length-published :
    (channel : ℕ) (reports : List (ℕ × ℕ)) (l : List Progress)
    → length (published channel reports l) ≡ length l
length-published channel [] l = refl
length-published channel ((a, b) ∷ reports) l =
    length-published channel reports (set l channel (ok (a, b, false)))
    ∙ length-set l channel (ok (a, b, false))

publish_all_lem :
    {W R : Type 0} (channel : ℕ) (reports : List (ℕ × ℕ)) (s : Server W)
    → publish_all {R = R} channel reports s ≡ (
      next tt,
      record s { own = record s.own { channels = published channel reports s.own.channels } },
    )
unfolding publish_all publish pure ◌>>=◌
publish_all_lem channel [] s = refl
publish_all_lem channel ((a, b) ∷ reports) s =
    publish_all_lem channel reports
      (record s { own = record s.own { channels = set s.own.channels channel (ok (a, b, false)) } })

-- The requests that a mount's end sends: to kill the heartbeat, if the mount succeeded.
abbrev pub farewell : String → Result (Unit {0}) IdeviceError → List SendRequest
farewell udid (ok done) = kill udid ∷ []
farewell udid (err e) = []

-- What the work may change: the reports, and the request that its success sends.
abbrev Worked : String → Result (Unit {0}) IdeviceError → Own → Own → Type 0
Worked udid r before after =
    (after.sent ≡ before.sent ++ farewell udid r)
    × (after.mount_cache ≡ before.mount_cache)
    × (length after.channels ≡ length before.channels)

cached_lem :
    (udid : String) (o : Own) {channel : ℕ} {p : Progress}
    → get udid o.mount_cache ≡ some channel
    → get_elem? o.channels channel ≡ some p
    → cached udid o ≡ some p
cached_lem udid o entry holds = rw (cached, entry) holds

module _ {W Value : Type 0} (dev : Device W Value)
    (mounter : Mounter W Value (dev.PairingFile)) where
  open dev use {PairingFile, display}

  pub IsError : Result (Unit {0}) IdeviceError → Type 0
  IsError r = (e : IdeviceError) × (r ≡ err e)

  pub prepare_mount-Quiet :
      (provider : TcpProvider PairingFile) → QuietOr ⊥ IsError (prepare_mount dev mounter provider)
  unfolding prepare_mount
  prepare_mount-Quiet provider = search (quiet_rules, error) depth 60
    where
      error : (e : IdeviceError) → IsError (err e)
      error e = unfold IsError in (e, refl)

  -- `work` from the mounter on.
  abbrev mount_with :
      TcpProvider PairingFile
      → ℕ
      → String
      → mounter.ImageMounter × ℕ
      → Flow (Server W) (Result (Unit {0}) IdeviceError) (Result (Unit {0}) IdeviceError)
  mount_with provider channel udid (client, id) = do
    (reports, mounted) ← outside (mounter.mount_personalized_with_callback client provider id)
    publish_all channel reports
    or_reply (λ e. err e) mounted
    send (kill udid)
    pure (ok tt)

  -- The mounter's call has succeeded.
  abbrev pub Mounts : TcpProvider PairingFile → Type 0
  Mounts provider =
      (client : mounter.ImageMounter) × (id : ℕ) × (w : W)
      × ((mounter.mount_personalized_with_callback client provider id w).0.1 ≡ ok tt)

  -- What it takes to succeed.
  abbrev Cause : TcpProvider PairingFile → Result (Unit {0}) IdeviceError → Type 0
  Cause provider (ok done) = Mounts provider
  Cause provider (err e) = Unit

  -- A function that is called has returned, and its result and effect are as `Worked` says.
  abbrev Done :
      TcpProvider PairingFile
      → String
      → Own
      → Outcome (Result (Unit {0}) IdeviceError) (Result (Unit {0}) IdeviceError) × Server W
      → Type 0
  Done provider udid before p =
      (r : Result (Unit {0}) IdeviceError) × (returned {Q = Unit {0}} p.0 ≡ next r)
      × Cause provider r
      × Worked udid r before p.1.own

  mount_with-Done :
      (provider : TcpProvider PairingFile) (channel : ℕ) (udid : String)
      (c : mounter.ImageMounter × ℕ) (s : Server W)
      → Done provider udid s.own (mount_with provider channel udid c s)
  unfolding ◌>>=◌ outside or_reply send pure
  mount_with-Done provider channel udid (client, id) s = elim (Result-cases mounted) [
    | inl (u, e) ↦
        rw (publish_all_lem channel reports after, e)
          (
            ok tt,
            refl,
            (client, id, s.world, e),
            (refl, refl, length-published channel reports s.own.channels),
          )
    | inr (x, e) ↦
        rw (publish_all_lem channel reports after, e)
          (
            err x,
            refl,
            tt,
            (sym (append-nil s.own.sent), refl, length-published channel reports s.own.channels),
          )
  ]
    where
      after : Server W
      after = record s {
        world = (mounter.mount_personalized_with_callback client provider id s.world).1;
      }

      reports : List (ℕ × ℕ)
      reports = (mounter.mount_personalized_with_callback client provider id s.world).0.0

      mounted : Result (Unit {0}) IdeviceError
      mounted = (mounter.mount_personalized_with_callback client provider id s.world).0.1

  prepared-cases :
      {A : Type 0} (o : Outcome (Result (Unit {0}) IdeviceError) A)
      → RepliesIn ⊥ IsError o
      → ((a : A) × (o ≡ next a)) ⊎ ((e : IdeviceError) × (o ≡ reply (err e)))
  unfolding IsError
  prepared-cases (next a) h = inl (a, refl)
  prepared-cases (reply r) (e, h) = inr (e, ap (λ q. reply q) h)
  prepared-cases panicked h = absurd h

  mount_work-Done :
      (provider : TcpProvider PairingFile) (channel : ℕ) (udid : String) (s : Server W)
      → Done provider udid s.own (mount_work dev mounter provider channel udid s)
  unfolding mount_work ◌>>=◌
  mount_work-Done provider channel udid s =
      elim (prepared-cases (prepare s).0 ((prepare_mount-Quiet provider).replies s)) [
        | inl (c, v) ↦ rw v (
            subst (λ o. Done provider udid o (mount_with provider channel udid c (prepare s).1))
              stays (mount_with-Done provider channel udid c (prepare s).1))
        | inr (e, v) ↦ rw v (
          err e,
          refl,
          tt,
          (
            ap (λ (o : Own). o.sent) stays ∙ sym (append-nil s.own.sent),
            ap (λ (o : Own). o.mount_cache) stays,
            ap (λ (o : Own). length o.channels) stays,
          ),
        )
      ]
    where
      prepare :
          Server W → Outcome (Result (Unit {0}) IdeviceError) (mounter.ImageMounter × ℕ) × Server W
      prepare = prepare_mount dev mounter provider

      stays : (prepare s).1.own ≡ s.own
      stays = (prepare_mount-Quiet provider).keeps s

  -- How the work of the mount task ended, what its channel holds then, and what was sent.
  abbrev pub Ended : TcpProvider PairingFile → ℕ → String → Server W → Own → Type 0
  Ended provider channel udid s after =
      let worked : Outcome (Unit {0}) (Result (Unit {0}) IdeviceError) =
        returned (mount_work dev mounter provider channel udid s).0 in
      ((worked ≡ next (ok tt))
        × Mounts provider
        × (get_elem? after.channels channel ≡ some (ok (1, 1, true)))
        × (after.sent ≡ s.own.sent ++ (kill udid ∷ [])))
      ⊎ ((e : IdeviceError) × (worked ≡ next (err e))
          × (get_elem? after.channels channel ≡ some (err (display e)))
          × (after.sent ≡ s.own.sent))

  -- The task by how its work ended.
  task_ends :
      (provider : TcpProvider PairingFile) (channel : ℕ) (udid : String) (s : Server W)
      (r : Result (Unit {0}) IdeviceError)
      → channel < length s.own.channels
      → returned {Q = Unit {0}} (mount_work dev mounter provider channel udid s).0 ≡ next r
      → Cause provider r
      → Worked udid r s.own (mount_work dev mounter provider channel udid s).1.own
      → let p = mount_task dev mounter provider channel udid s in
        (p.0 ≡ next tt)
        × Ended provider channel udid s p.1.own
        × (p.1.own.mount_cache ≡ s.own.mount_cache)
  unfolding mount_task ◌>>=◌ call publish
  task_ends provider channel udid s (ok u) h v cause (sent, cache, same) = rw v (
    refl,
    inl (refl, cause, get_elem?-set_self _ channel (ok (1, 1, true)) (rw same h), sent),
    cache,
  )
  task_ends provider channel udid s (err e) h v cause (sent, cache, same) = rw v (
    refl,
    inr (
      e,
      refl,
      get_elem?-set_self _ channel (err (display e)) (rw same h),
      sent ∙ append-nil s.own.sent,
    ),
    cache,
  )

  -- The mount task always comes to its end, whatever the device answers, and the mount cache is as
  -- before. The channel keeps what is sent, as it does while a receiver is left. If its work succeeded, for which the mounter's call has succeeded, then its channel holds
  -- that the image is mounted, and the one request that was sent to the heartbeat manager is to kill
  -- the device's heartbeat. Otherwise the channel holds the error as a text, and nothing was sent.
  pub mount_task-ends :
      (provider : TcpProvider PairingFile) (channel : ℕ) (udid : String) (s : Server W)
      → channel < length s.own.channels
      → let p = mount_task dev mounter provider channel udid s in
        (p.0 ≡ next tt)
        × Ended provider channel udid s p.1.own
        × (p.1.own.mount_cache ≡ s.own.mount_cache)
  mount_task-ends provider channel udid s h =
      let (r, v, cause, worked) = mount_work-Done provider channel udid s in
      task_ends provider channel udid s r h v cause worked

  -- The reply about a mounted image, or about a failure to mount it.
  abbrev pub Answered :
      TcpProvider PairingFile
      → ℕ
      → String
      → Server W
      → Outcome CheckMountResponse CheckMountResponse
      → Type 0
  Answered provider channel udid s o =
      let worked : Outcome (Unit {0}) (Result (Unit {0}) IdeviceError) =
        returned (mount_work dev mounter provider channel udid s).0 in
      ((worked ≡ next (ok tt))
        × Mounts provider
        × (o ≡ reply (record { ok = true; error = none; mounting = false })))
      ⊎ ((e : IdeviceError) × (worked ≡ next (err e))
          × (o
              ≡ reply (record {
                ok = false;
                error = some (str_append "Failed to mount image: " (display e));
                mounting = false;
              })))

  -- After the mount task of a device whose receiver is in the cache, the next request about the
  -- device that finds it in the database takes the entry from the cache. It is told that the image
  -- is mounted, if the work of the task succeeded, for which the mounter's call has succeeded, and
  -- otherwise the error with which the work ended; never that the mount is under way.
  pub check_mount-after_task :
      (db : Sqlite W) (ip : IpAddr) (provider : TcpProvider PairingFile) (channel : ℕ)
      (udid : String) (s : Server W)
      → get udid s.own.mount_cache ≡ some channel
      → channel < length s.own.channels
      → let t = (mount_task dev mounter provider channel udid s).1 in
        (lookup dev mounter db ip t).0 ≡ next (ok udid)
        → let p = check_mount dev mounter db ip t in
          Answered provider channel udid s p.0
          × (p.1.own ≡ record t.own { mount_cache = remove udid t.own.mount_cache })
  unfolding failure
  check_mount-after_task db ip provider channel udid s entry inside found =
      let (v, ended, cache) = mount_task-ends provider channel udid s inside in
      let t : Server W = (mount_task dev mounter provider channel udid s).1 in
      let answered : (p : Progress)
          → get_elem? t.own.channels channel ≡ some p
          → check_mount dev mounter db ip t ≡ _ =
        λ p holds.
          check_mount-cached dev mounter db ip t udid p found
            (cached_lem udid t.own (ap (get udid) cache ∙ entry) holds) in
      elim ended [
        | inl h ↦
            let a = answered (ok (1, 1, true)) h.2 in
            (inl (h.0, h.1, ap (λ q. q.0) a), ap (λ q. q.1.own) a)
        | inr h ↦
            let a = answered (err (display h.0)) h.2 in
            (inr (h.0, h.1, ap (λ q. q.0) a), ap (λ q. q.1.own) a)
      ]
