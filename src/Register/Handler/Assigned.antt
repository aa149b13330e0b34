-- ===== src/Register/Handler/Assigned.antt =====
-- The address that a registration gives a device, and the new peer.
use jit_streamer_eb.Prelude.{
  ◌++◌, ap, sym, ◌∙◌, All, Option-cases, Result-cases, ℕ, ◌==◌, ==_iff, Bool-cases, Option, some,
  String, List, [], ◌∷◌, ◌≡◌, refl, ◌⊎◌, inl, inr, ok,
}
use mathlib.Core.List.{append_assoc}
use jit_streamer_eb.Db.{Sqlite}
use jit_streamer_eb.Net.{IpAddr, Ipv6}
use jit_streamer_eb.Flow.{pure, unwrap, or_reply, ◌>>=◌}
use jit_streamer_eb.Server.{outside, change, Change, peered}
use jit_streamer_eb.Register.Host.{variable, generated_ip, Host, Wireguard}
use jit_streamer_eb.Register.Handler.{text_of, direct_ip, register_mode, assign, new_address}
use jit_streamer_eb.Register.Wireguard.{add_peer, register_wireguard}
use jit_streamer_eb.Register.Handler.Logs.{
  Logs-unwrap, Logs-join, All-append, changed-nil, Any-or_reply,
}
use jit_streamer_eb.Register.Handler.Tracks.{
  Tracks-weaken, Tracks-stop, Tracks, Tracks-behind, Tracks-map, Tracks-pure, Extends,
}
use jit_streamer_eb.Register.Handler.Course.{IsError, IsPreparation, server_conf-Logs, take_ip-Logs}

module _ {W : Type 0} (host : Host W) where
  module _ (udid : String) where
    module _ (wg : Wireguard W) where
      -- The changes end with the one new peer, and the client is sent what was generated with it.
      abbrev pub HasPeer : Ipv6 → List ℕ → List Change → Type 0
      HasPeer ip config l =
          (front : List Change) × (l ≡ front ++ (peered ip ∷ []))
          × All (IsPreparation host udid) front
          × ((conf : wg.Conf) × (endpoint : wg.Endpoint) × (allowed : wg.Allowed) × (w : W)
              × (text : String) × ((wg.generate_peer conf ip endpoint allowed w).0 ≡ ok text)
              × (config ≡ host.as_bytes text))

      -- The address that a mode gives the device, what the client is sent, and the changes so far.
      abbrev pub IsAssigned : IpAddr → ℕ → Ipv6 × List ℕ → List Change → Type 0
      IsAssigned client_ip mode (ip, config) l =
          ((mode ≡ 1) × (generated_ip host udid ≡ some ip) × HasPeer ip config l)
          ⊎ ((mode ≡ 2)
              × (ip ≡ direct_ip client_ip)
              × (config ≡ host.as_bytes (text_of host (direct_ip client_ip)))
              × All (IsPreparation host udid) l)

      HasPeer-Extends :
          (ip : Ipv6) (config : List ℕ) (front l : List Change)
          → All (IsPreparation host udid) front
          → HasPeer ip config l
          → HasPeer ip config (front ++ l)
      HasPeer-Extends ip config front l h (m, e, k, c) = (
        front ++ m,
        ap (λ t. front ++ t) e ∙ sym (append_assoc front m (peered ip ∷ [])),
        All-append (IsPreparation host udid) front m h k,
        c,
      )

      IsAssigned-Extends :
          (client_ip : IpAddr) (mode : ℕ)
          → Extends (IsPreparation host udid) (IsAssigned client_ip mode)
      IsAssigned-Extends client_ip mode (ip, config) front l h (inl (e, f, g)) =
          inl (e, f, HasPeer-Extends ip config front l h g)
      IsAssigned-Extends client_ip mode (ip, config) front l h (inr (e, f, c, g)) =
          inr (e, f, c, All-append (IsPreparation host udid) front l h g)

      add_peer-Tracks :
          (conf : wg.Conf) (ip : Ipv6)
          → Tracks (IsPreparation host udid) IsError (HasPeer ip) (add_peer host wg conf ip)
      unfolding add_peer outside unwrap or_reply change pure ◌>>=◌
      add_peer-Tracks conf ip = record {
        tracked = λ s. elim (Option-cases endpoint) [
          | inl e ↦ rw e ([], changed-nil s.own, tt)
          | inr (a, e) ↦ elim (Option-cases allowed) [
            | inl f ↦ rw (e, f) ([], changed-nil s.own, tt)
            | inr (b, f) ↦ elim (Result-cases (wg.generate_peer conf ip a b s.world).0) [
              | inl (text, g) ↦
                  rw (e, f, g)
                    (peered ip ∷ [], refl, ([], refl, tt, (conf, a, b, s.world, text, g, refl)))
              | inr (x, g) ↦ rw (e, f, g) ([], changed-nil s.own, (tt, refl))
            ]
          ]
        ];
      }
        where
          endpoint : Option wg.Endpoint
          endpoint =
              wg.parse_endpoint (variable host "WIREGUARD_ENDPOINT" "jitstreamer.jkcoxson.com")

          allowed : Option wg.Allowed
          allowed = wg.parse_allowed (variable host "WIREGUARD_SERVER_ALLOWED_IPS" "fd00::/64")

      -- The address is the one made from the UDID, of a new peer.
      abbrev IsGenerated : Ipv6 × List ℕ → List Change → Type 0
      IsGenerated (ip, config) l = (generated_ip host udid ≡ some ip) × HasPeer ip config l

      IsGenerated-Extends : Extends (IsPreparation host udid) IsGenerated
      IsGenerated-Extends (ip, config) front l h (e, g) = (e, HasPeer-Extends ip config front l h g)

      register_wireguard-Tracks :
          (ip : Option String)
          → Tracks
              (IsPreparation host udid)
              IsError
              IsGenerated
              (register_wireguard host wg udid ip)
      unfolding register_wireguard
      register_wireguard-Tracks ip =
          Tracks-behind _ _ IsGenerated-Extends (server_conf-Logs host udid wg ip) (λ conf _.
            Tracks-behind {Fine = λ a. generated_ip host udid ≡ some a} _ _ IsGenerated-Extends
              (Logs-unwrap _ (λ a e. e))
              (λ generated e.
                Tracks-map _ (λ config. (generated, config)) (λ config l h. (e, h))
                  (add_peer-Tracks conf generated)))

      assign-Tracks :
          (mode : ℕ) (client_ip : IpAddr) (ip : Option String)
          → Tracks
              (IsPreparation host udid)
              IsError
              (IsAssigned client_ip mode)
              (assign host wg mode client_ip udid ip)
      unfolding assign
      assign-Tracks mode client_ip ip = elim (Bool-cases (mode == 1)) [
        | inl e ↦ rw e (
            Tracks-weaken (λ p l h. inl ((==_iff mode 1).0 e, h.0, h.1))
              (register_wireguard-Tracks ip))
        | inr e ↦ elim (Bool-cases (mode == 2)) [
          | inl f ↦ rw (e, f) (Tracks-pure _ (inr ((==_iff mode 2).0 f, refl, refl, tt)))
          | inr f ↦ rw (e, f) (Tracks-stop _ refl)
        ]
      ]

      -- The mode of the host, and what it assigns.
      abbrev pub IsAddressed : IpAddr → ℕ × Ipv6 × List ℕ → List Change → Type 0
      IsAddressed client_ip (mode, ip, config) l =
          (register_mode host ≡ some mode) × IsAssigned client_ip mode (ip, config) l

      IsAddressed-Extends :
          (client_ip : IpAddr) → Extends (IsPreparation host udid) (IsAddressed client_ip)
      IsAddressed-Extends client_ip (mode, ip, config) front l h (e, g) =
          (e, IsAssigned-Extends client_ip mode (ip, config) front l h g)

      pub new_address-Tracks :
          (db : Sqlite W) (client_ip : IpAddr)
          → Tracks
              (IsPreparation host udid)
              IsError
              (IsAddressed client_ip)
              (new_address host wg db client_ip udid)
      unfolding new_address
      new_address-Tracks db client_ip =
          Tracks-behind _ _ (IsAddressed-Extends client_ip)
            (Logs-join _ (take_ip-Logs host udid db))
            (λ found _.
              Tracks-behind _ _ (IsAddressed-Extends client_ip) (Any-or_reply _ found (λ e. refl))
                (λ ip _.
                  Tracks-behind {Fine = λ m. register_mode host ≡ some m} _ _
                    (IsAddressed-Extends client_ip) (Logs-unwrap _ (λ a e. e))
                    (λ mode e.
                      Tracks-map _ (λ (a : Ipv6 × List ℕ). (mode, a.0, a.1)) (λ a l h. (e, h))
                        (assign-Tracks mode client_ip ip))))
