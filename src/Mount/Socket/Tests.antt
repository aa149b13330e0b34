-- ===== src/Mount/Socket/Tests.antt =====
-- A client that watches a mount to its end.
use jit_streamer_eb.Prelude.{
  ◌⊎◌, err, none, ℕ, ◌≡◌, refl, true, false, List, [], ◌∷◌, ok, arith, some, get_elem?, Result, ap,
  sym, inl, inr,
}
use jit_streamer_eb.Device.{IdeviceError}
use jit_streamer_eb.HashMap.{get}
use jit_streamer_eb.Handlers.Tests.{willing}
use jit_streamer_eb.Mount.{mount_work}
use jit_streamer_eb.Mount.Task.{Mounts}
use jit_streamer_eb.Mount.Tests.{asked, mounter, provider, mounted_lem}
use jit_streamer_eb.Mount.Socket.Ending.{watch_mount-mount_task}
use jit_streamer_eb.Flow.{Outcome, next, returned}
use jit_streamer_eb.Server.{Server, Progress}
use jit_streamer_eb.Handlers.Tests.{own}
use jit_streamer_eb.Register.Lifecycle.Tests.{Log, sqlite, table, log}
use jit_streamer_eb.Mount.Socket.{Floats, Turn, channel_closed, Served, watch_mount, handle_socket}
use jit_streamer_eb.Mount.Socket.Watched.{last_elem?, Shown, Watches, handle_socket-Tells}

-- Numbers as fractions.
abbrev fractions : Floats
fractions = record {
  F32 = ℕ × ℕ;
  zero_f32 = (0, 1);
  as_f32 = λ n. (n, 1);
  div_f32 = λ a b. (a.0, b.0);
}

abbrev values : ℕ → List Progress
values channel = ok (0, 100, false) ∷ ok (3, 9, false) ∷ ok (1, 1, true) ∷ []

-- The second value is there before `changed` is called for it, and is shown again.
abbrev turns : ℕ → List Turn
turns channel =
    record { borrowed = ok (0, 100, false); accepted = true; changed = true }
    ∷ record { borrowed = ok (3, 9, false); accepted = true; changed = true }
    ∷ record { borrowed = ok (1, 1, true); accepted = true; changed = false }
    ∷ []

turns-Watches : (channel : ℕ) → Watches (values channel) 0 (turns channel)
turns-Watches channel = (
  0,
  omega arith,
  refl,
  (1, omega arith, (1, omega arith, refl, (2, omega arith, (2, omega arith, refl, refl)))),
)

abbrev server : Server Log
server = record {
  world = log;
  pairing_file_storage = "/var/lib/lockdown";
  own = record own { mount_cache = ("udid-2", 0) ∷ [] };
}

handle_socket-Tells_example :
    (p : Served fractions) × ((handle_socket fractions sqlite turns "fd00::2" server).0 ≡ next p)
    × Shown fractions (values 0) 0 (turns 0) p
unfolding get
handle_socket-Tells_example =
    handle_socket-Tells fractions sqlite table values turns turns-Watches "fd00::2" server

told_to_the_end : (watch_mount fractions (turns 0)).1 ≡ channel_closed
unfolding watch_mount
told_to_the_end = refl

watch_mount-mount_task_example :
    let worked : Outcome (Unit {0}) (Result (Unit {0}) IdeviceError) =
      returned (mount_work willing mounter provider 0 "udid-1" asked).0 in
    let last = last_elem? (watch_mount fractions (turns 0)).0 in
    ((worked ≡ next (ok tt))
      × Mounts willing mounter provider
      × (last ≡ some (record { ok = true; percentage = (1, 1); error = none; done = true })))
    ⊎ ((e : IdeviceError) × (worked ≡ next (err e))
        × (last
            ≡ some (record {
              ok = false;
              percentage = (0, 1);
              error = some (willing.display e);
              done = false;
            })))
watch_mount-mount_task_example =
    watch_mount-mount_task fractions willing mounter provider 0 "udid-1" asked (values 0) (turns 0)
      (omega arith) (ap (λ t. get_elem? (t.own.channels) 0) (sym mounted_lem)) (turns-Watches 0)
      (refl, inr (refl, (refl, inr (refl, (refl, inl refl)))))
