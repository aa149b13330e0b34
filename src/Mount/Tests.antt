-- ===== src/Mount/Tests.antt =====
-- Mounting on a device that has no image at first and lets one be mounted.
use jit_streamer_eb.Prelude.{◌≡◌, refl, true, false, some, [], ◌∷◌, ok, arith}
use jit_streamer_eb.HashMap.{get, insert, remove}
use jit_streamer_eb.Db.{retry, db_prepare, statement_next}
use jit_streamer_eb.Device.{TcpProvider}
use jit_streamer_eb.Net.{to_string}
use jit_streamer_eb.Net.Hex.{show_02X}
use jit_streamer_eb.Flow.{next, reply, pure, unwrap, or_reply, some_or_reply, gets, call, ◌>>=◌}
use jit_streamer_eb.Server.{Server, outside, send, spawn_heartbeat}
use jit_streamer_eb.Heartbeat.Manager.{store, kill}
use jit_streamer_eb.Common.{get_udid_from_ip, get_pairing_file}
use jit_streamer_eb.Handlers.Session.{heartbeat_thread, start_heartbeat, label}
use jit_streamer_eb.Handlers.Tests.{World, Item, known, fine, willing, own, server, client}
use jit_streamer_eb.Mount.{
  Mounter, mounting_reply, modify, spawn_mount, publish, publish_all, poll, begin_mount,
  has_developer_image, image_mounted, read_pairing_file, list_images, answer_mounted, check_mount,
  prepare_mount, mount_work, mount_task,
}
use jit_streamer_eb.Mount.Course.{MountCourse, check_mount-MountCourse}
use jit_streamer_eb.Mount.Poll.{lookup, check_mount-cached}
use jit_streamer_eb.Mount.Task.{Ended, Answered, mount_task-ends, check_mount-after_task}

abbrev pub mounter : Mounter World Item Unit
mounter = record {
  ImageMounter = Unit;
  LockdowndClient = Unit;
  mounter_connect = λ provider w. fine tt w;
  copy_devices = λ client w. fine [] w;
  xml_text = λ value. some "";
  lockdown_connect = λ provider w. fine tt w;
  provider_pairing_file = λ provider w. fine tt w;
  start_session = λ client pairing_file w. fine tt w;
  get_value = λ client key w. fine (Item.text "7") w;
  as_unsigned_integer = λ value. some 7;
  mount_personalized_with_callback = λ client provider id w. (((3, 9) ∷ (9, 9) ∷ [], ok tt), w);
}

-- The state after a first request.
abbrev pub asked : Server World
asked = record server {
  own = record own {
    sent = store "udid-1" 0 ∷ [];
    next_sender = 1;
    beating = ("udid-1", 0) ∷ [];
    mount_cache = ("udid-1", 0) ∷ [];
    channels = ok (0, 100, false) ∷ [];
    mounting = ("udid-1", 0) ∷ [];
  };
}

first_request : check_mount willing mounter known client server ≡ (next mounting_reply, asked)
unfolding check_mount poll image_mounted read_pairing_file list_images answer_mounted begin_mount
    spawn_mount modify has_developer_image start_heartbeat heartbeat_thread get_udid_from_ip
    get_pairing_file db_prepare statement_next retry to_string show_02X ◌>>=◌ call outside send
    spawn_heartbeat or_reply some_or_reply unwrap gets pure get insert
first_request = refl

abbrev pub provider : TcpProvider Unit
provider = record { addr = client; pairing_file = tt; label = label }

-- The state after the task that the first request spawned.
abbrev pub mounted : Server World
mounted = (mount_task willing mounter provider 0 "udid-1" asked).1

pub mounted_lem : mounted ≡ record asked {
  own = record asked.own {
    sent = store "udid-1" 0 ∷ kill "udid-1" ∷ [];
    channels = ok (1, 1, true) ∷ [];
  };
}
unfolding mount_task mount_work prepare_mount publish_all publish ◌>>=◌ call outside send or_reply
    some_or_reply pure
mounted_lem = refl

looked_up : (s : Server World) → (lookup willing mounter known client s).0 ≡ next (ok "udid-1")
unfolding get_udid_from_ip db_prepare statement_next retry to_string show_02X ◌>>=◌ call outside
    or_reply some_or_reply unwrap gets pure
looked_up s = refl

check_mount-cached_example : check_mount willing mounter known client asked ≡ (
  reply mounting_reply,
  record (lookup willing mounter known client asked).1 { own = asked.own },
)
unfolding get
check_mount-cached_example =
    check_mount-cached willing mounter known client asked "udid-1" (ok (0, 100, false))
      (looked_up asked) refl

mount_task-ends_example :
    let p = mount_task willing mounter provider 0 "udid-1" asked in
    (p.0 ≡ next tt)
    × Ended willing mounter provider 0 "udid-1" asked p.1.own
    × (p.1.own.mount_cache ≡ asked.own.mount_cache)
mount_task-ends_example = mount_task-ends willing mounter provider 0 "udid-1" asked (omega arith)

check_mount-after_task_example :
    let p = check_mount willing mounter known client mounted in
    Answered willing mounter provider 0 "udid-1" asked p.0
    × (p.1.own ≡ record mounted.own { mount_cache = remove "udid-1" mounted.own.mount_cache })
unfolding get
check_mount-after_task_example =
    check_mount-after_task willing mounter known client provider 0 "udid-1" asked refl (omega arith)
      (looked_up mounted)

check_mount-MountCourse_example :
    MountCourse willing mounter known client "udid-1" own
      (check_mount willing mounter known client server)
unfolding get
check_mount-MountCourse_example =
    check_mount-MountCourse willing mounter known client server "udid-1" (looked_up server) refl
