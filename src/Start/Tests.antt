-- ===== src/Start/Tests.antt =====
-- Starts of the server on a host whose files are a list, the last one first.
use jit_streamer_eb.Prelude.{
  err, ok, Result, Option, ℕ, ◌==◌, ◌≡◌, ◌≢◌, ◌⊎◌, refl, true, false, none, some, String, str_eq,
  List, [], ◌∷◌, if◌then◌else◌,
}
use jit_streamer_eb.Flow.{next, reply}
use jit_streamer_eb.Version.{parse_uint, parse_digits}
use jit_streamer_eb.Register.Host.{Host, Wireguard}
use jit_streamer_eb.Register.Handler.Tests.{host, wireguard}
use jit_streamer_eb.Start.{Platform, routes_of, main}
use jit_streamer_eb.FileSystem.{Files, is_there}
use jit_streamer_eb.Start.Prepared.{Spared, Works, serves, serving, main-prepares}
use jit_streamer_eb.Start.Stored.{Storing, get_pairing_file-save_plist}
use jit_streamer_eb.Server.{Server}
use jit_streamer_eb.Device.{IdeviceError, unexpected_response, Device}
use jit_streamer_eb.Handlers.Tests.{Item, answering, own}
use jit_streamer_eb.Register.Handler.{save_plist}
use jit_streamer_eb.Common.{database, get_pairing_file}

abbrev pub Disk : Type 0
Disk = List (String × List ℕ)

abbrev pub files : Disk → Files
files [] q = none
files ((path, text) ∷ disk) q = if str_eq path q then some text else files disk q

abbrev platform : Platform Disk
platform = record {
  exists = λ path disk. (some (is_there (files disk path)), disk);
  open_db = λ path disk. (some tt, (path, []) ∷ disk);
  execute_up = λ path disk. (some tt, (path, 7 ∷ []) ∷ disk);
  bind = λ port disk. (some tt, disk);
}

abbrev config : Wireguard Disk
config = record wireguard { create = λ path interface disk. (some tt, (path, []) ∷ disk) }

works : Works files (host "1") platform config
works = record {
  exists = λ path w. (w, refl, refl);
  opens = λ path w. ((path, []) ∷ w, [], refl, refl);
  executes = λ path w. ((path, 7 ∷ []) ∷ w, 7 ∷ [], refl, refl);
  binds = λ port w. (w, refl, refl);
  generates = λ w. (tt, w, refl, refl);
  parses = (tt, refl);
  makes = λ key address port. (tt, refl);
  creates = λ path interface w. ((path, []) ∷ w, [], refl, refl);
  brings_up = λ w. (w, refl, refl, refl);
}

-- The WireGuard configuration is there, the database is not.
abbrev disk : Disk
disk = ("/etc/wireguard/jitstreamer.conf", 1 ∷ 2 ∷ []) ∷ []

main-prepares_example :
    (v : Disk) × (main (host "1") platform config disk
      ≡ (next (serving {W = Disk} (host "1") 1 1), v))
    × Spared (host "1") platform config works disk v
    × (is_there (files v database) ≡ true)
    × ((serves "/register" (routes_of 1) ≡ true) × (serves "/upload" (routes_of 1) ≡ false))
    × (((1 == 1) ≡ false) ⊎ (is_there (files v "/etc/wireguard/jitstreamer.conf") ≡ true))
unfolding parse_uint parse_digits
main-prepares_example = main-prepares (host "1") platform config works 1 1 disk refl refl

abbrev mac : Host Disk
mac = record (host "1") { os = "macos" }

-- Files are read back from the list.
abbrev found : Option (List ℕ) → Result (List ℕ) IdeviceError
found none = err unexpected_response
found (some bytes) = ok bytes

abbrev device : Device Disk Item
device = record answering { read_file = λ path disk. (found (files disk path), disk) }

abbrev mac_disk : Host Disk
mac_disk = record mac { write = λ path bytes disk. (ok tt, (path, bytes) ∷ disk) }

storing : Storing files mac_disk device
storing = record {
  creates = λ path w. (w, refl, refl);
  writes = λ path bytes w. ((path, bytes) ∷ w, refl, refl);
  reads = λ path bytes w e. (w, rw e refl);
  misses = λ path w e. (unexpected_response, w, rw e refl);
}

abbrev server : Server Disk
server = record { world = disk; pairing_file_storage = "/var/lib/lockdown"; own = own }

-- Nothing is found.
get_pairing_file-save_plist_example :
    let t = (save_plist mac_disk "udid-1" (7 ∷ []) server).1 in
    let asked = (get_pairing_file device "udid-1" t.pairing_file_storage t).0 in
    (((mac_disk.env "PLIST_STORAGE" ≢ none) ⊎ (mac_disk.os ≡ "linux")) × (asked ≡ next (ok tt)))
    ⊎ ((mac_disk.env "PLIST_STORAGE" ≡ none)
        × (mac_disk.os ≢ "linux")
        × ((e : IdeviceError) × (asked ≡ reply (err e))))
get_pairing_file-save_plist_example =
    get_pairing_file-save_plist mac_disk device storing "/var/db/lockdown" "udid-1" (7 ∷ []) server
      refl refl
