-- ===== src/Mount/Socket/Ending.antt =====
-- The websocket of src/mount.rs and the mount task that it follows.
use jit_streamer_eb.Prelude.{
  ℕ, ◌<◌, true, false, none, ok, err, some, String, List, [], ◌∷◌, Result, ◌≡◌, refl, sym, ap,
  subst, ◌∙◌, ◌⊎◌, inl, inr, length, get_elem?,
}
use mathlib.Core.Option
use jit_streamer_eb.Device.{IdeviceError, TcpProvider, Device}
use jit_streamer_eb.Flow.{Outcome, next, returned}
use jit_streamer_eb.Server.{Server, Progress}
use jit_streamer_eb.Mount.{Mounter, mount_work, mount_task}
use jit_streamer_eb.Mount.Task.{Mounts, mount_task-ends}
use jit_streamer_eb.Mount.Socket.{
  Floats, Turn, channel_closed, Served, progress_message, after_message, watch_mount,
}
use jit_streamer_eb.Mount.Socket.Watched.{Watches, Ends, last_elem?, watch_mount-Shown}

-- A client that takes every message until the channel is closed.
abbrev pub Attends : List Turn → Type 0
Attends [] = ⊥
Attends (t ∷ turns) =
    (t.accepted ≡ true) × ((t.changed ≡ false) ⊎ ((t.changed ≡ true) × Attends turns))

module _ (floats : Floats) where
  watch_mount-closed :
      (turns : List Turn) → Attends turns → (watch_mount floats turns).1 ≡ channel_closed
  unfolding watch_mount
  watch_mount-closed [] h = absurd h
  watch_mount-closed (t ∷ turns) (taken, h) =
      let message = progress_message floats t.borrowed in
      let rest = watch_mount floats turns in
      subst (λ a. (after_message floats message rest a t.changed).1 ≡ channel_closed) (sym taken)
        (elim h [
          | inl closed ↦
              subst (λ c. (after_message floats message rest true c).1 ≡ channel_closed)
                (sym closed) refl
          | inr (changed, later) ↦
              subst (λ c. (after_message floats message rest true c).1 ≡ channel_closed)
                (sym changed) (watch_mount-closed turns later)
        ])

  Ends-closed :
      (values : List Progress) (turns : List Turn) (p : Served floats) (v : Progress)
      → Ends floats values turns p
      → p.1 ≡ channel_closed
      → last_elem? values ≡ some v
      → last_elem? p.0 ≡ some (progress_message floats v)
  Ends-closed values turns (messages, return) v h e l =
      let (u, f, g) = subst (λ q. Ends floats values turns (messages, q)) e h in
      g ∙ ap (Option.map (progress_message floats)) (sym f ∙ l)

  module _ {W Value : Type 0} (dev : Device W Value)
      (mounter : Mounter W Value (dev.PairingFile)) where
    -- A client that takes every message of the websocket until the channel of a mount is closed,
    -- where the channel's last value is the one that the mount task has left there, is told at last
    -- that the image is mounted, all of it, if the work of the task succeeded, for which the
    -- mounter's call has succeeded, and otherwise the error with which the work ended.
    pub watch_mount-mount_task :
        (provider : TcpProvider (dev.PairingFile)) (channel : ℕ) (udid : String) (s : Server W)
        (values : List Progress) (turns : List Turn)
        → channel < length s.own.channels
        → let t = (mount_task dev mounter provider channel udid s).1 in
          last_elem? values ≡ get_elem? t.own.channels channel
          → Watches values 0 turns
          → Attends turns
          → let worked : Outcome (Unit {0}) (Result (Unit {0}) IdeviceError) =
              returned (mount_work dev mounter provider channel udid s).0 in
            let last = last_elem? (watch_mount floats turns).0 in
            ((worked ≡ next (ok tt))
              × Mounts dev mounter provider
              × (last
                  ≡ some (record {
                    ok = true;
                    percentage = floats.div_f32 (floats.as_f32 1) (floats.as_f32 1);
                    error = none;
                    done = true;
                  })))
            ⊎ ((e : IdeviceError) × (worked ≡ next (err e))
                × (last
                    ≡ some (record {
                      ok = false;
                      percentage = floats.zero_f32;
                      error = some (dev.display e);
                      done = false;
                    })))
    watch_mount-mount_task provider channel udid s values turns inside newest watches attends =
        let (v, ended, cache) = mount_task-ends dev mounter provider channel udid s inside in
        let told : (p : Progress)
            → get_elem? (mount_task dev mounter provider channel udid s).1.own.channels channel
              ≡ some p
            → last_elem? (watch_mount floats turns).0 ≡ some (progress_message floats p) =
          λ p holds.
            Ends-closed values turns (watch_mount floats turns) p
              (watch_mount-Shown floats values 0 turns watches).1 (watch_mount-closed turns attends)
              (newest ∙ holds) in
        elim ended [
          | inl h ↦ inl (h.0, h.1, told (ok (1, 1, true)) h.2)
          | inr h ↦ inr (h.0, h.1, told (err (dev.display h.0)) h.2)
        ]
