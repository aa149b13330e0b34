-- ===== src/Register/Handler/Registers.antt =====
-- What a whole registration does.
use jit_streamer_eb.Prelude.{
  ok, Option-cases, ℕ, Option, none, some, String, List, ◌≡◌, refl, subst, ◌⊎◌, inl, inr, err, All,
}
use jit_streamer_eb.Db.{Sqlite}
use jit_streamer_eb.Device.{Plist}
use jit_streamer_eb.Net.{IpAddr, Ipv6}
use jit_streamer_eb.Flow.{Outcome, next, reply, panicked, some_or_reply, continue, ◌>>=◌}
use jit_streamer_eb.Server.{Own, Server, Change}
use jit_streamer_eb.Register.Host.{Host, Wireguard, Reply, bad_request, internal_server_error}
use jit_streamer_eb.Register.Handler.{udid_of, read_udid, new_address, conclude, register}
use jit_streamer_eb.Register.Handler.Course.{IsError, IsPreparation}
use jit_streamer_eb.Register.Handler.Assigned.{IsAddressed, new_address-Tracks}
use jit_streamer_eb.Register.Handler.Tracks.{Tracked}
use jit_streamer_eb.Register.Handler.Logs.{Ends, changed}
use jit_streamer_eb.Register.Handler.Ending.{Concludes, conclude-Concludes}

-- An outcome whose errors are all internal errors of the server.
abbrev pub IsServers : Outcome Reply Reply → Type 0
IsServers (next (ok body)) = Unit
IsServers (next (err e)) = e.0 ≡ internal_server_error
IsServers (reply (ok body)) = Unit
IsServers (reply (err e)) = e.0 ≡ internal_server_error
IsServers panicked = Unit

Ends-IsServers : (o : Outcome Reply Reply) → Ends IsError (λ _. ⊥) o → IsServers o
Ends-IsServers (next r) h = absurd h
Ends-IsServers (reply (ok body)) h = absurd h
Ends-IsServers (reply (err e)) h = h
Ends-IsServers panicked h = tt

module _ {W : Type 0} (host : Host W) where
  module _ (wg : Wireguard W) (plist : Plist) (from_bytes : List ℕ → Option (plist.Dictionary))
      (db : Sqlite W) where
    -- What is changed before the device has its address, with the new peer of mode 1 at the end; and
    -- how the registration concludes, if it does not end before.
    abbrev pub Registers : IpAddr → List ℕ → String → Own → Outcome Reply Reply × Server W → Type 0
    Registers client_ip plist_bytes udid before p =
        (prep : List Change) × ((All (IsPreparation host udid) prep
            × Ends IsError (λ _. ⊥) p.0
            × (p.1.own ≡ changed prep before))
          ⊎ ((mode : ℕ) × (ip : Ipv6) × (config : List ℕ) × IsAddressed host udid wg client_ip
                (mode, ip, config) prep
              × Concludes host plist_bytes udid (mode, ip, config) (changed prep before) p))

    concluded :
        (client_ip : IpAddr) (plist_bytes : List ℕ) (udid : String) (before : Own)
        (o : Outcome Reply (ℕ × Ipv6 × List ℕ)) (s : Server W)
        → Tracked
            (IsPreparation host udid)
            IsError
            (IsAddressed host udid wg client_ip)
            before
            (o, s)
        → Registers client_ip plist_bytes udid before
            (continue o (conclude host plist_bytes udid) s)
    concluded client_ip plist_bytes udid before (next (mode, ip, config)) s (l, e, g) = (
      l,
      inr (
        mode,
        ip,
        config,
        g,
        subst
            (λ o.
              Concludes host plist_bytes udid (mode, ip, config) o
                (conclude host plist_bytes udid (mode, ip, config) s))
            e (conclude-Concludes host plist_bytes udid (mode, ip, config) s),
      ),
    )
    concluded client_ip plist_bytes udid before (reply r) s (l, e, (h, g)) = (l, inl (h, g, e))
    concluded client_ip plist_bytes udid before panicked s (l, e, h) = (l, inl (h, tt, e))

    pub register-Registers :
        (client_ip : IpAddr) (plist_bytes : List ℕ) (d : plist.Dictionary) (udid : String)
        (s : Server W)
        → from_bytes plist_bytes ≡ some d
        → udid_of plist d ≡ some udid
        → Registers client_ip plist_bytes udid s.own
            (register host wg plist from_bytes db client_ip plist_bytes s)
    unfolding register read_udid some_or_reply ◌>>=◌
    register-Registers client_ip plist_bytes d udid s e f =
        rw (e, f)
          (concluded client_ip plist_bytes udid s.own (new_address host wg db client_ip udid s).0
            (new_address host wg db client_ip udid s).1
            ((new_address-Tracks host udid wg db client_ip).tracked s))

    -- The property list cannot be read, or names no device by a text.
    abbrev pub NamesNone : List ℕ → Type 0
    NamesNone plist_bytes =
        (from_bytes plist_bytes ≡ none)
        ⊎ ((d : plist.Dictionary) × (from_bytes plist_bytes ≡ some d) × (udid_of plist d ≡ none))

    Concludes-IsServers :
        (plist_bytes : List ℕ) (udid : String) (a : ℕ × Ipv6 × List ℕ) (before : Own)
        (p : Outcome Reply Reply × Server W)
        → Concludes host plist_bytes udid a before p
        → IsServers p.0
    Concludes-IsServers plist_bytes udid (mode, ip, config) before p h = elim h [
      | inl (ends, e) ↦ Ends-IsServers p.0 ends
      | inr (d, e, ways) ↦ elim ways [ inl (v, w) ↦ rw v tt | inr (v, w) ↦ rw v tt ]
    ]

    Registers-IsServers :
        (client_ip : IpAddr) (plist_bytes : List ℕ) (udid : String) (before : Own)
        (p : Outcome Reply Reply × Server W)
        → Registers client_ip plist_bytes udid before p
        → IsServers p.0
    Registers-IsServers client_ip plist_bytes udid before p (prep, inl (h, ends, e)) =
        Ends-IsServers p.0 ends
    Registers-IsServers client_ip plist_bytes udid before p (prep, inr (mode, ip, config, g, c)) =
        Concludes-IsServers plist_bytes udid (mode, ip, config) (changed prep before) p c

    -- A registration is refused as a bad request, with nothing changed, if its property list cannot
    -- be read or names no device by a text under "UDID". Otherwise it succeeds, panics, or ends with
    -- an internal error of the server, never with a bad request.
    pub register-bad_request :
        (client_ip : IpAddr) (plist_bytes : List ℕ) (s : Server W)
        → let p = register host wg plist from_bytes db client_ip plist_bytes s in
          (NamesNone plist_bytes
            × ((message : String) × (p ≡ (reply (err (bad_request, message)), s))))
          ⊎ ((d : plist.Dictionary) × (udid : String) × (from_bytes plist_bytes ≡ some d)
              × (udid_of plist d ≡ some udid)
              × IsServers p.0)
    unfolding register read_udid some_or_reply ◌>>=◌
    register-bad_request client_ip plist_bytes s = elim (Option-cases (from_bytes plist_bytes)) [
      | inl e ↦ inl (inl e, ("bad plist", rw e refl))
      | inr (d, e) ↦ elim (Option-cases (udid_of plist d)) [
        | inl f ↦ inl (inr (d, e, f), ("no UDID", rw (e, f) refl))
        | inr (udid, f) ↦ inr (
          d,
          udid,
          e,
          f,
          Registers-IsServers client_ip plist_bytes udid s.own
              (register host wg plist from_bytes db client_ip plist_bytes s)
              (register-Registers client_ip plist_bytes d udid s e f),
        )
      ]
    ]
