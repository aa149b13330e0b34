-- ===== src/Register/Handler/Peers.antt =====
-- The search for a device's old peer in the WireGuard configuration.
use jit_streamer_eb.Prelude.{
  false, Option, some, String, List, [], ◌∷◌, ◌≡◌, refl, ◌↔◌, ◌⊎◌, inl, inr, str_eq, if◌then◌else◌,
}
use jit_streamer_eb.Flow.{panicked, unwrap, pure, ◌>>=◌}
use jit_streamer_eb.Server.{Server}
use jit_streamer_eb.Register.Host.{Host, Wireguard}
use jit_streamer_eb.Register.Wireguard.{find_peer}

module _ {W : Type 0} (host : Host W) (wg : Wireguard W) where
  open wg use {Peer, allowed_ips, public_key}

  -- A peer without an allowed address is among the peers.
  abbrev pub HasBarePeer : List Peer → Type 0
  HasBarePeer [] = ⊥
  HasBarePeer (peer ∷ peers) = (allowed_ips peer ≡ []) ⊎ HasBarePeer peers

  first_or_bare :
      (l : List String) → (l ≡ []) ⊎ ((a : String) × (rest : List String) × (l ≡ a ∷ rest))
  first_or_bare [] = inl refl
  first_or_bare (a ∷ l) = inr (a, l, refl)

  -- The search panics exactly if a peer has no allowed address, whichever address is looked for,
  -- unless that is the empty text.
  pub find_peer-panics_iff :
      (ip : String) (peers : List Peer) (public_ip : Option String) (s : Server W)
      → str_eq ip "" ≡ false
      → ((find_peer host wg ip peers public_ip s).0 ≡ panicked) ↔ HasBarePeer peers
  unfolding find_peer unwrap pure ◌>>=◌
  find_peer-panics_iff ip [] public_ip s e = ((λ h. cc), (λ h. absurd h))
  find_peer-panics_iff ip (peer ∷ peers) public_ip s e = elim (first_or_bare (allowed_ips peer)) [
    | inl f ↦ rw (e, f) ((λ _. inl refl), (λ _. refl))
    | inr (a, rest, f) ↦
        let rest_of =
          find_peer-panics_iff ip peers (if str_eq a ip then some (public_key peer) else public_ip)
            s e in
        rw (e, f)
          ((λ h. inr (rest_of.0 h)), (λ h. elim h [ inl g ↦ absurd cc | inr g ↦ rest_of.1 g ]))
  ]
