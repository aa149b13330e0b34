-- ===== src/Mount/Course.antt =====
-- `check_mount` for a device that is not in the mount cache.
use jit_streamer_eb.Prelude.{
  List, Option-cases, Bool, true, false, none, some, String, [], ◌∷◌, ◌++◌, ◌≡◌, refl, ap, sym,
  subst, ◌∙◌, ◌⊎◌, inl, inr, ok, length,
}
use text.Mathlib.Text.{find?}
use jit_streamer_eb.HashMap.{get, insert}
use jit_streamer_eb.Db.{Sqlite}
use jit_streamer_eb.Device.{Device}
use jit_streamer_eb.Net.{IpAddr}
use jit_streamer_eb.Net
use jit_streamer_eb.Flow.{Flow, Outcome, next, pure, call, gets, or_reply, ◌>>=◌, ◌>>◌}
use jit_streamer_eb.Server.{Own, Server}
use jit_streamer_eb.Server.Quiet.{Quiet, Quiet-pure, Quiet-bind, Quiet-unwrap, quiet_rules}
use jit_streamer_eb.Common.Lookup.{get_udid_from_ip-Quiet, get_pairing_file-Quiet}
use jit_streamer_eb.Handlers.Session.{start_heartbeat}
use jit_streamer_eb.Handlers.Session.Course.{
  IsRefusal, begun, outcome-cases, bind-next, bind-IsRefusal, start_heartbeat-cases,
}
use jit_streamer_eb.Mount.{
  Mounter, CheckMountResponse, failure, mounted_reply, mounting_reply, cached, modify, spawn_mount,
  poll, begin_mount, has_developer_image, read_pairing_file, list_images, image_mounted,
  answer_mounted, check_mount,
}
use jit_streamer_eb.Mount.Poll.{lookup}

-- A reply of failure carries a message, and says of no mount that it is under way.
abbrev pub IsFailure : CheckMountResponse → Type 0
IsFailure r =
    (r.ok ≡ false) × (r.mounting ≡ false) × ((message : String) × (r.error ≡ some message))

failure-IsFailure : (message : String) → IsFailure (failure message)
unfolding failure
failure-IsFailure message = (refl, refl, (message, refl))

-- A mount of the device was spawned with a channel of its own, whose receiver is in the cache.
abbrev pub mount_begun : String → Own → Own
mount_begun udid own = record own {
  mount_cache = insert udid (length own.channels) own.mount_cache;
  channels = own.channels ++ (ok (0, 100, false) ∷ []);
  mounting = (udid, length own.channels) ∷ own.mounting;
}

-- Code that starts the device's heartbeat and works with it refuses before or after the start, or
-- goes on after it.
abbrev Began : {W R A : Type 0} → (R → Type 0) → String → Own → Outcome R A × Server W → Type 0
Began {A = A} Bad udid before p =
    (IsRefusal Bad p.0 × (p.1.own ≡ before))
    ⊎ ((IsRefusal Bad p.0 × (p.1.own ≡ begun udid before))
        ⊎ ((a : A) × (p.0 ≡ next a) × (p.1.own ≡ begun udid before)))

module _ {W Value : Type 0} (dev : Device W Value)
    (mounter : Mounter W Value (dev.PairingFile)) where
  open dev use {PairingFile}

  pub read_pairing_file-Quiet :
      (udid : String) → Quiet IsFailure (read_pairing_file dev mounter udid)
  unfolding read_pairing_file
  read_pairing_file-Quiet udid =
      search (quiet_rules, get_pairing_file-Quiet, failure-IsFailure) depth 20

  has_developer_image-Quiet :
      (images : List Value) → Quiet IsFailure (has_developer_image dev mounter images)
  unfolding has_developer_image
  has_developer_image-Quiet [] = Quiet-pure false
  has_developer_image-Quiet (image ∷ images) =
      Quiet-bind _ _ (Quiet-unwrap (mounter.xml_text image)) (λ text.
        elim (Option-cases (find? text "Developer")) [
          | inl e ↦ rw e (has_developer_image-Quiet images)
          | inr (i, e) ↦ rw e (Quiet-pure true)
        ])

  pub list_images-Quiet :
      (ip : IpAddr) (pairing_file : PairingFile)
      → Quiet IsFailure (list_images dev mounter ip pairing_file)
  unfolding list_images
  list_images-Quiet ip pairing_file =
      search (quiet_rules, failure-IsFailure, has_developer_image-Quiet) depth 20

  module _ (db : Sqlite W) (ip : IpAddr) (udid : String) where
    -- `image_mounted` once the pairing file is read.
    abbrev from_pairing_file : PairingFile → Flow (Server W) CheckMountResponse Bool
    from_pairing_file pairing_file = do
      start_heartbeat db dev failure ip udid pairing_file
      list_images dev mounter ip pairing_file

    list_images-Began :
        (pairing_file : PairingFile) (s : Server W) (before : Own)
        → s.own ≡ begun udid before
        → Began IsFailure udid before (list_images dev mounter ip pairing_file s)
    list_images-Began pairing_file s before e =
        elim (outcome-cases IsFailure (list_images dev mounter ip pairing_file s).0
          ((list_images-Quiet ip pairing_file).replies s)) [
            | inl (a, v) ↦ inr (inr (a, v, (list_images-Quiet ip pairing_file).keeps s ∙ e))
            | inr h ↦ inr (inl (h, (list_images-Quiet ip pairing_file).keeps s ∙ e))
          ]

    from_pairing_file-Began :
        (pairing_file : PairingFile) (s : Server W)
        → Began IsFailure udid s.own (from_pairing_file pairing_file s)
    from_pairing_file-Began pairing_file s =
        elim (start_heartbeat-cases db dev IsFailure failure failure-IsFailure ip udid pairing_file
          s) [
            | inl (v, e) ↦
                subst (Began IsFailure udid s.own)
                  (sym (bind-next (start_heartbeat db dev failure ip udid pairing_file) _ s v))
                  (list_images-Began pairing_file
                    (start_heartbeat db dev failure ip udid pairing_file s).1 s.own e)
            | inr (h, e) ↦
                let (r, t) =
                  bind-IsRefusal IsFailure (start_heartbeat db dev failure ip udid pairing_file)
                    (λ _. list_images dev mounter ip pairing_file) s h in
                inl (r, ap (λ (u : Server W). u.own) t ∙ e)
          ]

    image_mounted-Began :
        (s : Server W) → Began IsFailure udid s.own (image_mounted dev mounter db ip udid s)
    unfolding image_mounted
    image_mounted-Began s =
        elim (outcome-cases IsFailure (read s).0 ((read_pairing_file-Quiet udid).replies s)) [
          | inl (pairing_file, v) ↦
              subst (Began IsFailure udid s.own) (sym (bind-next read from_pairing_file s v)) (
                subst (λ o. Began IsFailure udid o (from_pairing_file pairing_file (read s).1))
                  ((read_pairing_file-Quiet udid).keeps s)
                  (from_pairing_file-Began pairing_file (read s).1))
          | inr h ↦
              let (r, t) = bind-IsRefusal IsFailure read from_pairing_file s h in
              inl (r, ap (λ (u : Server W). u.own) t ∙ (read_pairing_file-Quiet udid).keeps s)
        ]
      where
        read : Flow (Server W) CheckMountResponse PairingFile
        read = read_pairing_file dev mounter udid

  module _ (db : Sqlite W) (ip : IpAddr) where
    -- `check_mount` behind the poll of the cache.
    abbrev pub from_poll : String → Flow (Server W) CheckMountResponse CheckMountResponse
    from_poll udid = do
      mounted ← image_mounted dev mounter db ip udid
      answer_mounted dev mounter udid mounted

    check_mount-uncached :
        (s t : Server W) (udid : String)
        → lookup dev mounter db ip s ≡ (next (ok udid), t)
        → get udid t.own.mount_cache ≡ none
        → check_mount dev mounter db ip s ≡ from_poll udid t
    unfolding check_mount ◌>>=◌ or_reply gets poll pure
    check_mount-uncached s t udid found c = rw (found, cached, c) refl

    -- The ways in which a request about a device that is not in the cache may go.
    abbrev pub MountCourse :
        String → Own → Outcome CheckMountResponse CheckMountResponse × Server W → Type 0
    MountCourse udid before p =
        (IsRefusal IsFailure p.0 × (p.1.own ≡ before))
        ⊎ ((IsRefusal IsFailure p.0 × (p.1.own ≡ begun udid before))
            ⊎ (((p.0 ≡ next mounted_reply) × (p.1.own ≡ begun udid before))
                ⊎ ((p.0 ≡ next mounting_reply) × (p.1.own ≡ mount_begun udid (begun udid before)))))

    answer_mounted-MountCourse :
        (udid : String) (mounted : Bool) (s : Server W) (before : Own)
        → s.own ≡ begun udid before
        → MountCourse udid before (answer_mounted dev mounter udid mounted s)
    unfolding answer_mounted begin_mount spawn_mount modify pure ◌>>=◌
    answer_mounted-MountCourse udid true s before e = inr (inr (inl (refl, e)))
    answer_mounted-MountCourse udid false s before e =
        inr (inr (inr (refl, ap (mount_begun udid) e)))

    pub from_poll-MountCourse :
        (udid : String) (s : Server W) → MountCourse udid s.own (from_poll udid s)
    from_poll-MountCourse udid s = elim (image_mounted-Began db ip udid s) [
      | inl (h, e) ↦ inl (refused h e)
      | inr (inl (h, e)) ↦ inr (inl (refused h e))
      | inr (inr (mounted, v, e)) ↦
          subst (MountCourse udid s.own)
            (sym (bind-next (image_mounted dev mounter db ip udid) _ s v))
            (answer_mounted-MountCourse udid mounted (image_mounted dev mounter db ip udid s).1
              s.own e)
    ]
      where
        refused :
            {o : Own}
            → IsRefusal IsFailure (image_mounted dev mounter db ip udid s).0
            → (image_mounted dev mounter db ip udid s).1.own ≡ o
            → IsRefusal IsFailure (from_poll udid s).0 × ((from_poll udid s).1.own ≡ o)
        refused h e =
            let (r, t) =
              bind-IsRefusal IsFailure (image_mounted dev mounter db ip udid)
                (answer_mounted dev mounter udid) s h in
            (r, ap (λ (u : Server W). u.own) t ∙ e)

    -- A request about a device that is not in the cache ends in one of four ways: it fails with a
    -- message, or panics, with no heartbeat started; it fails so when a heartbeat was started and
    -- stored; it answers that the image is mounted, with the heartbeat left running; or it answers
    -- that the image is being mounted, and one mount task was spawned with a new channel, whose
    -- receiver is in the cache.
    pub check_mount-MountCourse :
        (s : Server W) (udid : String)
        → (lookup dev mounter db ip s).0 ≡ next (ok udid)
        → get udid s.own.mount_cache ≡ none
        → MountCourse udid s.own (check_mount dev mounter db ip s)
    unfolding call
    check_mount-MountCourse s udid found c =
        subst (MountCourse udid s.own)
          (sym (
            check_mount-uncached s t udid (ap (λ o. (o, t)) found)
              (ap (λ (o : Own). get udid o.mount_cache) stays ∙ c)))
          (subst (λ o. MountCourse udid o (from_poll udid t)) stays (from_poll-MountCourse udid t))
      where
        t : Server W
        t = (lookup dev mounter db ip s).1

        stays : t.own ≡ s.own
        stays = (get_udid_from_ip-Quiet db (Net.to_string ip)).keeps s
