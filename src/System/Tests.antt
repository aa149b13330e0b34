-- ===== src/System/Tests.antt =====
-- A server with a device that answers every call, and no developer image at first.
use jit_streamer_eb.Prelude.{◌<◌, ◌≡◌, refl, inl, inr, none, some, List, [], ◌∷◌, length}
use jit_streamer_eb.HashMap.{get, insert}
use jit_streamer_eb.Db.{retry, db_prepare, statement_next}
use jit_streamer_eb.Net.{to_string}
use jit_streamer_eb.Net.Hex.{show_02X}
use jit_streamer_eb.Flow.{pure, unwrap, or_reply, some_or_reply, gets, call, ◌>>=◌}
use jit_streamer_eb.Server.{Server, Progress, outside, send, spawn_heartbeat}
use jit_streamer_eb.Heartbeat.Manager.{store}
use jit_streamer_eb.Heartbeat.Manager.Accounts.{count}
use jit_streamer_eb.Common.{get_udid_from_ip, get_pairing_file}
use jit_streamer_eb.Handlers.Session.{heartbeat_thread, find_device, start_heartbeat}
use jit_streamer_eb.Handlers.AttachApp
use jit_streamer_eb.Handlers.Tests.{World, items, known, willing, client}
use jit_streamer_eb.Mount.{
  modify, spawn_mount, poll, begin_mount, has_developer_image, image_mounted, read_pairing_file,
  list_images, answer_mounted, check_mount, cached,
}
use jit_streamer_eb.Mount.Tests.{mounter}
use jit_streamer_eb.Register.Handler.Tests.{host, wireguard}
use jit_streamer_eb.System.{Config, HasEntry, start, deliver, Reach, here, next, initial, second}
use jit_streamer_eb.System.Heartbeats.{Settled, heartbeats-Settled}
use jit_streamer_eb.System.Receivers.{serve_all-receivers}
use jit_streamer_eb.System.Requests.{
  Event, asks_attach, asks_mount, serve, serve_all, serve_all-Settled,
}

abbrev empty : Server World
empty = record { world = []; pairing_file_storage = "/var/lib/lockdown"; own = initial }

abbrev events : List (Event Unit)
events = asks_attach client 300 ∷ asks_mount client ∷ []

abbrev served : Server World
served = serve_all known items willing mounter (host "1") wireguard (λ bytes. none) events empty

started_twice : HasEntry "udid-1" 0 served.own.beating
unfolding serve_all serve AttachApp.attach_app AttachApp.attach AttachApp.send_commands find_device
    check_mount poll image_mounted read_pairing_file list_images answer_mounted begin_mount
    spawn_mount modify has_developer_image start_heartbeat heartbeat_thread get_udid_from_ip
    get_pairing_file db_prepare statement_next retry to_string show_02X ◌>>=◌ call outside send
    spawn_heartbeat or_reply some_or_reply unwrap gets pure get insert
started_twice = inr (inl (refl, refl))

mount_spawned : get "udid-1" served.own.mount_cache ≡ some 0
unfolding serve_all serve AttachApp.attach_app AttachApp.attach AttachApp.send_commands find_device
    check_mount poll image_mounted read_pairing_file list_images answer_mounted begin_mount
    spawn_mount modify has_developer_image start_heartbeat heartbeat_thread get_udid_from_ip
    get_pairing_file db_prepare statement_next retry to_string show_02X ◌>>=◌ call outside send
    spawn_heartbeat or_reply some_or_reply unwrap gets pure get insert
mount_spawned = refl

serve_all-Settled_example : Settled "udid-1" 0 served.own
serve_all-Settled_example =
    serve_all-Settled known items willing mounter (host "1") wireguard (λ bytes. none) events empty
      "udid-1" 0 refl started_twice

-- A heartbeat was started and stored.
abbrev beating : Config
beating = record {
  own = record initial {
    next_sender = 1;
    beating = ("udid-1", 0) ∷ [];
    sent = store "udid-1" 0 ∷ [];
  };
  flying = [];
}

beating-Reach : Reach (record { own = initial; flying = [] }) beating
beating-Reach = next (next here (start "udid-1" refl)) (deliver "udid-1" 0 [] [] refl refl)

heartbeats-Settled_example : Settled "udid-1" 0 beating.own
heartbeats-Settled_example =
    heartbeats-Settled beating "udid-1" 0 beating-Reach (inl (refl, refl)) refl

serve_all-receivers_example :
    HasEntry "udid-1" 0 served.own.mounting
    × (count 0 (second served.own.mounting) ≡ 1)
    × (0 < length served.own.channels)
    × ((p : Progress) × (cached "udid-1" served.own ≡ some p))
serve_all-receivers_example =
    serve_all-receivers known items willing mounter (host "1") wireguard (λ bytes. none) events
      empty "udid-1" 0 refl mount_spawned
