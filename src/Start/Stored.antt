-- ===== src/Start/Stored.antt =====
-- What a handler of src/main.rs reads of the property list that `register` of src/register.rs has stored.
use jit_streamer_eb.Prelude.{
  Option-cases, err, ok, Result, List, ℕ, Bool-cases, Option, none, some, String, str_eq, eq_iff,
  ◌≡◌, ◌≢◌, ◌⊎◌, inl, inr, refl, sym, ap, ◌∙◌, subst, arith,
}
use Prim.Native.String.{◌++◌}
use text.Mathlib.TextLemmas.{append_cancel_right}
use jit_streamer_eb.FileSystem.{Files, with_file}
use jit_streamer_eb.Device.{IdeviceError, Device}
use jit_streamer_eb.Flow.{Outcome, next, reply, pure, unwrap, or_reply, ◌>>=◌}
use jit_streamer_eb.Server.{Server, outside, change}
use jit_streamer_eb.Common.{get_pairing_file}
use jit_streamer_eb.Register.Host.{Host, variable, text_or}
use jit_streamer_eb.Register.Handler.{default_storage, plist_path, save_plist}
use jit_streamer_eb.Start.{read_storage}
use jit_streamer_eb.Start.Storage.{differ, storage-agrees_iff}

-- What is read of a file's path.
abbrev pub Reads :
    {A : Type 0}
    → (List ℕ → Result A IdeviceError)
    → Option (List ℕ)
    → Outcome (Result A IdeviceError) (Result A IdeviceError)
    → Type 0
Reads parse none o = (e : IdeviceError) × (o ≡ reply (err e))
Reads parse (some bytes) o = o ≡ next (parse bytes)

-- A file system that takes what is written, and from which it is read back.
pub record Storing {W Value : Type 0} (files : W → Files) (host : Host W) (dev : Device W Value)
    : Type 0 where
  pub creates :
      (path : String) (w : W)
      → (v : W) × (host.create_dir_all path w ≡ (ok tt, v)) × (files v ≡ files w)
  pub writes :
      (path : String) (bytes : List ℕ) (w : W)
      → (v : W) × (host.write path bytes w ≡ (ok tt, v))
        × (files v ≡ with_file path bytes (files w))
  pub reads :
      (path : String) (bytes : List ℕ) (w : W)
      → files w path ≡ some bytes
      → (v : W) × (dev.read_file path w ≡ (ok bytes, v))
  pub misses :
      (path : String) (w : W)
      → files w path ≡ none
      → (e : IdeviceError) × (v : W) × (dev.read_file path w ≡ (err e, v))

with_file_self :
    (path : String) (bytes : List ℕ) (files : Files) → with_file path bytes files path ≡ some bytes
with_file_self path bytes files = rw ((eq_iff path path).1 refl) refl

with_file_other :
    (path q : String) (bytes : List ℕ) (files : Files)
    → path ≢ q
    → with_file path bytes files q ≡ files q
with_file_other path q bytes files h = elim (Bool-cases (str_eq path q)) [
  | inl e ↦ absurd (h ((eq_iff path q).0 e))
  | inr e ↦ rw e refl
]

module _ {W Value : Type 0} {files : W → Files} (host : Host W) (dev : Device W Value)
    (storing : Storing files host dev) where
  save_plist-stores :
      (d udid : String) (bytes : List ℕ) (s : Server W)
      → default_storage (host.os) ≡ some d
      → let t = (save_plist host udid bytes s).1 in
        (files t.world
          ≡ with_file (plist_path (variable host "PLIST_STORAGE" d) udid) bytes (files s.world))
        × (t.pairing_file_storage ≡ s.pairing_file_storage)
  unfolding save_plist outside unwrap or_reply change ◌>>=◌
  save_plist-stores d udid bytes s e =
      let storage = variable host "PLIST_STORAGE" d in
      let (w1, created, k1) = storing.creates storage s.world in
      let (w2, written, k2) = storing.writes (plist_path storage udid) bytes w1 in
      rw (e, created, written) (k2 ∙ ap (with_file (plist_path storage udid) bytes) k1, refl)

  get_pairing_file-Reads :
      (udid storage : String) (o : Option (List ℕ)) (s : Server W)
      → files s.world (plist_path storage udid) ≡ o
      → Reads dev.pairing_file_from_bytes o (get_pairing_file dev udid storage s).0
  unfolding get_pairing_file outside or_reply pure ◌>>=◌
  get_pairing_file-Reads udid storage none s e =
      let (x, v, missed) = storing.misses (plist_path storage udid) s.world e in (x, rw missed refl)
  get_pairing_file-Reads udid storage (some bytes) s e =
      let (v, read) = storing.reads (plist_path storage udid) bytes s.world e in rw read refl

  -- What is found in a directory, behind what is stored in another or the same.
  read_behind :
      (d udid : String) (bytes : List ℕ) (s : Server W) (o : Option (List ℕ))
      → default_storage (host.os) ≡ some d
      → s.pairing_file_storage ≡ read_storage host
      → with_file
          (plist_path (variable host "PLIST_STORAGE" d) udid)
          bytes
          (files s.world)
          (plist_path (read_storage host) udid)
        ≡ o
      → let t = (save_plist host udid bytes s).1 in
        Reads dev.pairing_file_from_bytes o (get_pairing_file dev udid t.pairing_file_storage t).0
  read_behind d udid bytes s o e main h =
      let t = (save_plist host udid bytes s).1 in
      let (stored, same) = save_plist-stores d udid bytes s e in
      subst (λ storage. Reads dev.pairing_file_from_bytes o (get_pairing_file dev udid storage t).0)
        (sym (same ∙ main))
        (get_pairing_file-Reads udid (read_storage host) o t
          (ap (λ f. f (plist_path (read_storage host) udid)) stored ∙ h))

  read_back :
      (d udid : String) (bytes : List ℕ) (s : Server W)
      → default_storage (host.os) ≡ some d
      → s.pairing_file_storage ≡ read_storage host
      → (host.env "PLIST_STORAGE" ≢ none) ⊎ (host.os ≡ "linux")
      → let t = (save_plist host udid bytes s).1 in
        (get_pairing_file dev udid t.pairing_file_storage t).0
        ≡ next (dev.pairing_file_from_bytes bytes)
  read_back d udid bytes s e main h = read_behind d udid bytes s (some bytes) e main (
      subst
        (λ storage.
          with_file (plist_path storage udid) bytes (files s.world)
            (plist_path (read_storage host) udid)
          ≡ some bytes)
        (sym ((storage-agrees_iff host d e).1 h))
        (with_file_self (plist_path (read_storage host) udid) bytes (files s.world)))

  -- On a system with a default storage, and with files that are read back as they were written, a
  -- handler that asks for the pairing file of a device whose property list `register` has stored gets
  -- what was stored, if PLIST_STORAGE is set or the system is Linux. Otherwise it gets what was at
  -- /var/lib/lockdown/<udid>.plist before, or an error if nothing was there.
  pub get_pairing_file-save_plist :
      (d udid : String) (bytes : List ℕ) (s : Server W)
      → default_storage (host.os) ≡ some d
      → s.pairing_file_storage ≡ read_storage host
      → let t = (save_plist host udid bytes s).1 in
        let asked = (get_pairing_file dev udid t.pairing_file_storage t).0 in
        (((host.env "PLIST_STORAGE" ≢ none) ⊎ (host.os ≡ "linux"))
          × (asked ≡ next (dev.pairing_file_from_bytes bytes)))
        ⊎ ((host.env "PLIST_STORAGE" ≡ none)
            × (host.os ≢ "linux")
            × Reads dev.pairing_file_from_bytes
                (files s.world ("/var/lib/lockdown" ++ ("/" ++ (udid ++ ".plist"))))
                asked)
  get_pairing_file-save_plist d udid bytes s e main =
      elim (Option-cases (host.env "PLIST_STORAGE")) [
        | inr (p, set) ↦
            let h : host.env "PLIST_STORAGE" ≢ none = λ unset. ground (arith, set, unset) in
            inl (inl h, read_back d udid bytes s e main (inl h))
        | inl unset ↦ elim (Bool-cases (str_eq host.os "linux")) [
          | inl l ↦
              let h : host.os ≡ "linux" = (eq_iff host.os "linux").0 l in
              inl (inr h, read_back d udid bytes s e main (inr h))
          | inr l ↦
              let h : host.os ≢ "linux" = differ host.os "linux" l in
              let apart : plist_path (variable host "PLIST_STORAGE" d) udid
                  ≢ plist_path (read_storage host) udid =
                λ q. elim ((storage-agrees_iff host d e).0 (append_cancel_right _ _ _ q)) [
                  | inl k ↦ k unset
                  | inr k ↦ h k
                ] in
              inr (
                unset,
                h,
                subst
                    (λ storage.
                      Reads dev.pairing_file_from_bytes (files s.world (plist_path storage udid))
                        (get_pairing_file dev udid
                          (save_plist host udid bytes s).1.pairing_file_storage
                          (save_plist host udid bytes s).1).0)
                    (ap (λ o. text_or o "/var/lib/lockdown") unset)
                    (read_behind d udid bytes s _ e main
                      (with_file_other _ _ bytes (files s.world) apart)),
              )
        ]
      ]
