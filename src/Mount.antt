-- ===== src/Mount.antt =====
-- src/mount.rs: whether the developer image is mounted on a device, and its mounting in the
-- background.
pub mod Poll
pub mod Course
pub mod Task
pub mod Socket
pub mod Tests
use jit_streamer_eb.Prelude.{
  ℕ, Bool, true, false, Option, none, some, String, List, [], ◌∷◌, ◌++◌, ◌||◌, Result, ok, err,
  length, get_elem?, set,
}
use Prim.Native.String.{◌++◌ as str_append}
use text.Mathlib.Text.{find?}
use jit_streamer_eb.HashMap.{HashMap, get, insert, remove}
use jit_streamer_eb.Db.{Sqlite}
use jit_streamer_eb.Device.{IdeviceError, unexpected_response, TcpProvider, Call, Device}
use jit_streamer_eb.Net.{IpAddr}
use jit_streamer_eb.Net
use jit_streamer_eb.Flow.{
  Flow, Outcome, next, pure, stop, unwrap, or_reply, some_or_reply, gets, call, ◌>>=◌, ◌>>◌,
}
use jit_streamer_eb.Server.{Own, Server, Progress, outside, send}
use jit_streamer_eb.Heartbeat.Manager.{kill}
use jit_streamer_eb.Common.{get_udid_from_ip, get_pairing_file}
use jit_streamer_eb.Handlers.Session.{label, start_heartbeat}

-- `ImageMounter` and `LockdowndClient` of the `idevice` crate.
pub record Mounter (W Value PairingFile : Type 0) : Type 1 where
  pub ImageMounter : Type 0
  pub LockdowndClient : Type 0
  pub mounter_connect : TcpProvider PairingFile → Call W ImageMounter
  pub copy_devices : ImageMounter → Call W (List Value)
  -- `String::from_utf8_lossy` of what `plist::to_writer_xml` writes
  -- or nothing, if it fails and the code panics
  pub xml_text : Value → Option String
  pub lockdown_connect : TcpProvider PairingFile → Call W LockdowndClient
  pub provider_pairing_file : TcpProvider PairingFile → Call W PairingFile
  pub start_session : LockdowndClient → PairingFile → Call W Unit
  pub get_value : LockdowndClient → String → Call W Value
  pub as_unsigned_integer : Value → Option ℕ
  -- the progress that the callback is given, in order, and the result
  pub mount_personalized_with_callback :
      ImageMounter
      → TcpProvider PairingFile
      → ℕ
      → W
      → (List (ℕ × ℕ) × Result (Unit {0}) IdeviceError) × W

pub record CheckMountResponse : Type 0 where
  pub ok : Bool
  pub error : Option String
  pub mounting : Bool

unfoldable pub failure : String → CheckMountResponse
failure message = record { ok = false; error = some message; mounting = false }

abbrev pub mounted_reply : CheckMountResponse
mounted_reply = record { ok = true; error = none; mounting = false }

abbrev pub mounting_reply : CheckMountResponse
mounting_reply = record { ok = true; error = none; mounting = true }

-- `lock.get(&udid)` and `i.borrow().clone()`
abbrev pub cached : String → Own → Option Progress
cached udid own = elim (get udid own.mount_cache) [
  | none ↦ none
  | some channel ↦ get_elem? own.channels channel
]

module _ {W R : Type 0} where
  unfoldable pub modify : (Own → Own) → Flow (Server W) R Unit
  modify f s = (next tt, record s { own = f s.own })

  -- `watch::channel(…)`, and what the spawned task is given.
  unfoldable pub spawn_mount : String → Flow (Server W) R ℕ
  spawn_mount udid s =
      let fresh = length s.own.channels in
      (
        next fresh,
        record s {
          own = record s.own {
            channels = s.own.channels ++ (ok (0, 100, false) ∷ []);
            mounting = (udid, fresh) ∷ s.own.mounting;
          };
        },
      )

  -- `sender.send(…)`. A `watch` channel whose receivers are all gone does not take the value, but
  -- then no one can read it either.
  unfoldable pub publish : ℕ → Progress → Flow (Server W) R Unit
  publish channel p s =
      (next tt, record s { own = record s.own { channels = set s.own.channels channel p } })

-- The callback's sends, in the order in which the mounter reports.
unfoldable pub publish_all : {W R : Type 0} → ℕ → List (ℕ × ℕ) → Flow (Server W) R Unit
publish_all channel [] = pure tt
publish_all channel ((a, b) ∷ reports) = do
  publish channel (ok (a, b, false))
  publish_all channel reports

abbrev pub forget : String → Own → Own
forget udid own = record own { mount_cache = remove udid own.mount_cache }

module _ {W : Type 0} where
  -- The part of `check_mount` under the cache's lock: it replies if the device is in the cache.
  unfoldable pub poll : String → Option Progress → Flow (Server W) CheckMountResponse Unit
  poll udid none = pure tt
  poll udid (some (ok (a, b, true))) = do modify (forget udid); stop mounted_reply
  poll udid (some (ok (a, b, false))) = stop mounting_reply
  poll udid (some (err e)) = do
    modify (forget udid)
    stop (failure (str_append "Failed to mount image: " e))

  -- The end of `check_mount` for a device without the image.
  unfoldable pub begin_mount : String → Flow (Server W) CheckMountResponse CheckMountResponse
  begin_mount udid = do
    receiver ← spawn_mount udid
    modify (λ own. record own { mount_cache = insert udid receiver own.mount_cache })
    pure mounting_reply

module _ {W Value : Type 0} (dev : Device W Value)
    (mounter : Mounter W Value (dev.PairingFile)) where
  open dev use {PairingFile, display, debug}
  open mounter use {
    ImageMounter, mounter_connect, copy_devices, xml_text, lockdown_connect, provider_pairing_file,
    start_session, get_value, as_unsigned_integer, mount_personalized_with_callback,
  }

  abbrev provider : IpAddr → PairingFile → TcpProvider PairingFile
  provider ip pairing_file = record { addr = ip; pairing_file = pairing_file; label = label }

  -- The loop over the images: whether the text of one has the word. It is left at the first.
  unfoldable pub has_developer_image : List Value → Flow (Server W) CheckMountResponse Bool
  has_developer_image [] = pure false
  has_developer_image (image ∷ images) = do
    text ← unwrap (xml_text image)
    elim (find? text "Developer") [ some i ↦ pure true | none ↦ has_developer_image images ]

  -- The device's pairing file.
  unfoldable pub read_pairing_file : String → Flow (Server W) CheckMountResponse PairingFile
  read_pairing_file udid = do
    storage ← gets (λ s. s.pairing_file_storage)
    read ← call (get_pairing_file dev udid storage)
    or_reply (λ e. failure (str_append "Unable to get pairing file: " (display e))) read

  -- The list of the images, and whether the developer image is on it.
  unfoldable pub list_images : IpAddr → PairingFile → Flow (Server W) CheckMountResponse Bool
  list_images ip pairing_file = do
    connected ← outside (mounter_connect (provider ip pairing_file))
    mounter_client ←
        or_reply (λ e. failure (str_append "Failed to start image mounter: " (debug e))) connected
    listed ← outside (copy_devices mounter_client)
    images ← or_reply (λ e. failure (str_append "Failed to get images: " (debug e))) listed
    has_developer_image images

  -- From the pairing file to the list of images: whether the developer image is mounted.
  unfoldable pub image_mounted :
      Sqlite W → IpAddr → String → Flow (Server W) CheckMountResponse Bool
  image_mounted db ip udid = do
    pairing_file ← read_pairing_file udid
    start_heartbeat db dev failure ip udid pairing_file
    list_images ip pairing_file

  -- `if mounted { … } else { … }`
  unfoldable pub answer_mounted :
      String → Bool → Flow (Server W) CheckMountResponse CheckMountResponse
  answer_mounted udid true = pure mounted_reply
  answer_mounted udid false = begin_mount udid

  unfoldable pub check_mount :
      Sqlite W → IpAddr → Flow (Server W) CheckMountResponse CheckMountResponse
  check_mount db ip = do
    found ← call (get_udid_from_ip db (Net.to_string ip))
    udid ← or_reply failure found
    progress ← gets (λ s. cached udid s.own)
    poll udid progress
    mounted ← image_mounted db ip udid
    answer_mounted udid mounted

  -- `work` of `mount_thread`, up to the mounter and the chip's number.
  unfoldable pub prepare_mount :
      TcpProvider PairingFile → Flow (Server W) (Result (Unit {0}) IdeviceError) (ImageMounter × ℕ)
  prepare_mount provider = do
    connected ← outside (lockdown_connect provider)
    lockdown_client ← or_reply (λ e. err e) connected
    read ← outside (provider_pairing_file provider)
    pairing_file ← or_reply (λ e. err e) read
    started ← outside (start_session lockdown_client pairing_file)
    or_reply (λ e. err e) started
    value ← outside (get_value lockdown_client "UniqueChipID")
    chip ← or_reply (λ e. err e) value
    unique_chip_id ← some_or_reply (err unexpected_response) (as_unsigned_integer chip)
    joined ← outside (mounter_connect provider)
    mounter_client ← or_reply (λ e. err e) joined
    pure (mounter_client, unique_chip_id)

  unfoldable pub mount_work :
      TcpProvider PairingFile
      → ℕ
      → String
      → Flow (Server W) (Result (Unit {0}) IdeviceError) (Result (Unit {0}) IdeviceError)
  mount_work provider channel udid = do
    (mounter_client, unique_chip_id) ← prepare_mount provider
    (reports, mounted) ←
        outside (mount_personalized_with_callback mounter_client provider unique_chip_id)
    publish_all channel reports
    or_reply (λ e. err e) mounted
    send (kill udid)
    pure (ok tt)

  -- What the task sends when its work is over.
  abbrev pub final : Result (Unit {0}) IdeviceError → Progress
  final (ok done) = ok (1, 1, true)
  final (err e) = err (display e)

  -- The task that `mount_thread` spawns.
  unfoldable pub mount_task : TcpProvider PairingFile → ℕ → String → Flow (Server W) Unit Unit
  mount_task provider channel udid = do
    worked ← call (mount_work provider channel udid)
    publish channel (final worked)
