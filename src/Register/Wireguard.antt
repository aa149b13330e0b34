-- ===== src/Register/Wireguard.antt =====
-- What `register` of src/register.rs does to the WireGuard configuration.
use jit_streamer_eb.Prelude.{
  ℕ, Option, none, some, String, List, [], ◌∷◌, Result, ok, err, str_eq, if◌then◌else◌, get_elem?,
}
use Prim.Native.String.{◌++◌}
use jit_streamer_eb.Net.{Ipv6}
use jit_streamer_eb.Flow.{pure, stop, unwrap, or_reply, ◌>>=◌, ◌>>◌}
use jit_streamer_eb.Server.{configured, unpeered, peered, outside, change}
use jit_streamer_eb.Version.{parse_uint}
use jit_streamer_eb.Register.Host.{
  variable, config_name, generated_ip, Registering, Host, WgConfError, not_found, other_error,
  Wireguard, refuse, number_or,
}

module _ {W : Type 0} (host : Host W) where
  open host use {as_bytes}

  module _ (wg : Wireguard W) where
    open wg use {Conf, Key, Address, Peer}

    -- `unwrap()` of a result
    unfoldable pub conf_or_panic : Result Conf WgConfError → Registering W Conf
    conf_or_panic (ok conf) = pure conf
    conf_or_panic (err e) = unwrap none

    -- What follows a failure to open the configuration: a new one, if there was none.
    unfoldable pub create_conf : String → WgConfError → Registering W Conf
    unfolding conf_or_panic
    create_conf path other_error = stop (refuse "failed to open server Wireguard config" tt)
    create_conf path not_found = do
      generated ← outside wg.generate_private_key
      key ← unwrap generated
      server_address ←
          unwrap (wg.parse_address (variable host "WIREGUARD_SERVER_ADDRESS" "fd00::/128"))
      let port =
          number_or (parse_uint 65535 (as_bytes (variable host "WIREGUARD_PORT" "51869"))) 51869
      interface ← unwrap (wg.new_interface key server_address port)
      created ← outside (wg.create path interface)
      unwrap created
      change (configured path)
      opened ← outside (wg.open_conf path)
      conf_or_panic opened

    unfoldable pub conf_or_create : String → Result Conf WgConfError → Registering W Conf
    conf_or_create path (ok conf) = pure conf
    conf_or_create path (err e) = create_conf path e

    -- The loop over the peers: the key of the last one whose first allowed address has the text.
    unfoldable pub find_peer : String → List Peer → Option String → Registering W (Option String)
    find_peer ip [] public_ip = pure public_ip
    find_peer ip (peer ∷ peers) public_ip =
        if str_eq ip "" then find_peer ip peers public_ip else do
          first ← unwrap (get_elem? (wg.allowed_ips peer) 0)
          find_peer ip peers (if str_eq first ip then some (wg.public_key peer) else public_ip)

    -- `if let Some(ip) = ip { … }`
    unfoldable pub old_peer : Conf → Option String → Registering W (Option String)
    old_peer server_peer none = pure none
    old_peer server_peer (some ip) = do
      listed ← outside (wg.peers server_peer)
      peers ← or_reply (refuse "failed to get peers") listed
      find_peer ip peers none

    unfoldable pub remove_peer : Conf → Option String → Registering W Conf
    remove_peer server_peer none = pure server_peer
    remove_peer server_peer (some public_ip) = do
      removed ← outside (wg.remove_peer_by_pub_key server_peer public_ip)
      conf ← unwrap removed
      change (unpeered public_ip)
      pure conf

    -- The configuration of WireGuard without the device's old peer.
    unfoldable pub server_conf : Option String → Registering W Conf
    server_conf ip = do
      let path = "/etc/wireguard/" ++ (config_name host ++ ".conf")
      opened ← outside (wg.open_conf path)
      server_peer ← conf_or_create path opened
      public_ip ← old_peer server_peer ip
      remove_peer server_peer public_ip

    -- A new peer for the device's address, and the client's configuration.
    unfoldable pub add_peer : Conf → Ipv6 → Registering W (List ℕ)
    add_peer server_peer ip = do
      endpoint ←
          unwrap (wg.parse_endpoint (variable host "WIREGUARD_ENDPOINT" "jitstreamer.jkcoxson.com"))
      allowed ← unwrap (wg.parse_allowed (variable host "WIREGUARD_SERVER_ALLOWED_IPS" "fd00::/64"))
      generated ← outside (wg.generate_peer server_peer ip endpoint allowed)
      config ← or_reply (refuse "failed to generate peer") generated
      change (peered ip)
      pure (as_bytes config)

    -- `register_mode == 1`
    unfoldable pub register_wireguard : String → Option String → Registering W (Ipv6 × List ℕ)
    register_wireguard udid ip = do
      server_peer ← server_conf ip
      generated ← unwrap (generated_ip host udid)
      client_config ← add_peer server_peer generated
      pure (generated, client_config)
