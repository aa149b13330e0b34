-- ===== src/Register/Lifecycle.antt =====
-- What `get_udid_from_ip` of src/common.rs finds once `register` of src/register.rs and the insertion
-- that it starts have run.
pub mod Tests
use jit_streamer_eb.Prelude.{
  ℕ, Option, none, some, String, str_eq, eq_iff, List, [], ◌∷◌, ◌≡◌, ◌≢◌, refl, sym, subst, ap, ◌∙◌,
  Result, ok, err, Bool, true, false, Bool-cases, inl, inr, if◌then◌else◌, arith,
}
use jit_streamer_eb.Db.{Sqlite, db_prepare, statement_next, Statement}
use jit_streamer_eb.Db.Table.{
  Rows, Table, without, unless, with_row, asking, db_prepare_first, statement_next_first,
  retry_never,
}
use jit_streamer_eb.Net.{IpAddr, Ipv6}
use jit_streamer_eb.Device.{Plist}
use jit_streamer_eb.Flow.{next, reply, pure, or_reply, some_or_reply, ◌>>=◌}
use jit_streamer_eb.Server.{Server, outside}
use jit_streamer_eb.Common.{database, get_udid_from_ip, no_device}
use jit_streamer_eb.Common.Found.{Finds, get_udid_from_ip-Finds}
use jit_streamer_eb.Register.Host.{Host, Wireguard, insert_device, insert_device_query}
use jit_streamer_eb.Register.Handler.{text_of, udid_of, register}
use jit_streamer_eb.Register.Rows.{Devices, Apart}
use jit_streamer_eb.Register.Taken.{register-without}

module _ {W : Type 0} (db : Sqlite W) (devices : Devices db) (host : Host W) where
  open devices use {rows}

  abbrev inserting_at : String → Ipv6 → Statement
  inserting_at udid ip = asking insert_device_query ((1, udid) ∷ (2, text_of host ip) ∷ [])

  -- A free address becomes the device's.
  insert_device-free :
      (udid : String) (ip : Ipv6) (s : Server W)
      → rows s.world (text_of host ip) ≡ none
      → rows (insert_device db udid ip s).1.world ≡ with_row (text_of host ip) udid (rows s.world)
  unfolding insert_device outside or_reply some_or_reply pure ◌>>=◌
  insert_device-free udid ip s free =
      let (w1, opened, k1) = devices.opens database s.world in
      let (w2, prepared, k2) = devices.prepares insert_device_query w1 in
      let k = k2 ∙ k1 in
      let (state, w3, stepped, k3) =
        devices.inserts udid (text_of host ip) w2
          (subst (λ r. r (text_of host ip) ≡ none) (sym k) free) in
      rw
        (
          opened,
          db_prepare_first db insert_device_query w1 w2 prepared,
          statement_next_first db (inserting_at udid ip) w2 w3 state stepped,
        )
        (k3 ∙ ap (with_row (text_of host ip) udid) k)

  -- Each of the attempts is refused.
  insert_never :
      (udid other : String) (ip : Ipv6) (z : Rows) (w : W)
      → rows w ≡ z
      → z (text_of host ip) ≡ some other
      → ((statement_next db (inserting_at udid ip) w).0 ≡ none)
        × (rows (statement_next db (inserting_at udid ip) w).1 ≡ z)
  unfolding statement_next
  insert_never udid other ip z w h taken =
      retry_never rows (db.step (inserting_at udid ip)) db.sleep z
        (λ v k.
          let (u, refused, same) =
            devices.conflicts udid (text_of host ip) other v
              (subst (λ r. r (text_of host ip) ≡ some other) (sym k) taken) in
          (tt, u, refused, same ∙ k))
        devices.sleeps 50 w h

  -- An address of another device stays that device's.
  insert_device-taken :
      (udid other : String) (ip : Ipv6) (s : Server W)
      → rows s.world (text_of host ip) ≡ some other
      → rows (insert_device db udid ip s).1.world ≡ rows s.world
  unfolding insert_device outside or_reply some_or_reply pure ◌>>=◌
  insert_device-taken udid other ip s taken =
      let (w1, opened, k1) = devices.opens database s.world in
      let (w2, prepared, k2) = devices.prepares insert_device_query w1 in
      rw (opened, db_prepare_first db insert_device_query w1 w2 prepared)
        (insert_never udid other ip (rows s.world) w2 (k2 ∙ k1) taken).1

  -- A lookup tells what the row of its address holds.
  get_udid_from_ip-Finds_row :
      (ip : String) (o : Option String) (s : Server W)
      → rows s.world ip ≡ o
      → Finds ip o (get_udid_from_ip db ip s).0
  get_udid_from_ip-Finds_row ip o s e =
      subst (λ r. Finds ip r (get_udid_from_ip db ip s).0) e
        (get_udid_from_ip-Finds db devices ip s).0

  module _ (wg : Wireguard W) (apart : Apart rows host wg) (plist : Plist)
      (from_bytes : List ℕ → Option (plist.Dictionary)) where
    -- The server after a registration and the task that inserts the device.
    abbrev pub registered : IpAddr → List ℕ → String → Ipv6 → Server W → Server W
    registered client_ip plist_bytes udid ip s =
        (insert_device db udid ip
          (register host wg plist from_bytes db client_ip plist_bytes s).1).1

    -- With an available database, that the system and WireGuard leave alone, after a registration
    -- whose property list names a device, and the insertion of the device at an address that was
    -- free or the device's own: a lookup of that address finds the device, the device's other
    -- addresses are found no more, and every other address is answered as before.
    pub lookup-registered :
        (client_ip : IpAddr) (plist_bytes : List ℕ) (d : plist.Dictionary) (udid : String)
        (ip : Ipv6) (s : Server W)
        → from_bytes plist_bytes ≡ some d
        → udid_of plist d ≡ some udid
        → unless udid (rows s.world (text_of host ip)) ≡ none
        → (asked : String)
        → Finds asked
            (with_row (text_of host ip) udid (without udid (rows s.world)) asked)
            (get_udid_from_ip db asked (registered client_ip plist_bytes udid ip s)).0
    lookup-registered client_ip plist_bytes d udid ip s e f free asked =
        let left =
          register-without db devices host wg apart plist from_bytes client_ip plist_bytes d udid s
            e f in
        let after = (register host wg plist from_bytes db client_ip plist_bytes s).1 in
        get_udid_from_ip-Finds_row asked _ (registered client_ip plist_bytes udid ip s) (
          ap (λ r. r asked)
            (insert_device-free udid ip after (ap (λ r. r (text_of host ip)) left ∙ free)
              ∙ ap (with_row (text_of host ip) udid) left))

    -- With an available database, that the system and WireGuard leave alone, after a registration
    -- whose property list names a device, and the attempt to insert the device at an address that
    -- is another device's: a lookup of that address still finds the other device, the registered
    -- device is found at no address, and every other address is answered as before.
    pub lookup-refused :
        (client_ip : IpAddr) (plist_bytes : List ℕ) (d : plist.Dictionary) (udid other : String)
        (ip : Ipv6) (s : Server W)
        → from_bytes plist_bytes ≡ some d
        → udid_of plist d ≡ some udid
        → unless udid (rows s.world (text_of host ip)) ≡ some other
        → (asked : String)
        → Finds asked
            (without udid (rows s.world) asked)
            (get_udid_from_ip db asked (registered client_ip plist_bytes udid ip s)).0
    lookup-refused client_ip plist_bytes d udid other ip s e f taken asked =
        let left =
          register-without db devices host wg apart plist from_bytes client_ip plist_bytes d udid s
            e f in
        let after = (register host wg plist from_bytes db client_ip plist_bytes s).1 in
        get_udid_from_ip-Finds_row asked _ (registered client_ip plist_bytes udid ip s) (
          ap (λ r. r asked)
            (insert_device-taken udid other ip after (ap (λ r. r (text_of host ip)) left ∙ taken)
              ∙ left))
