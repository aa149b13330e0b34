-- ===== src/Netmuxd/Answers.antt =====
-- What `add_device` of src/netmuxd.rs tells of a daemon that speaks the protocol of src/raw_packet.rs.
use jit_streamer_eb.Prelude.{
  ℕ, ◌+◌, ◌<◌, ◌^◌, ◌==◌, none, some, String, List, [], length, ok, returns, panic, ◌≡◌, refl, sym,
  ap, ◌∙◌, subst, arith, false,
}
use mathlib.Core.List.{append-nil}
use jit_streamer_eb.Net.{IpAddr}
use jit_streamer_eb.Flow.{next, pure, unwrap, io, ◌>>=◌}
use jit_streamer_eb.RawPacket.{RawPacket, encode, try_from}
use jit_streamer_eb.RawPacket.RoundTrip.{
  serialized, made, encode-made, returns-injective, try_from-made,
}
use jit_streamer_eb.Netmuxd.{
  Unix, Dictionaries, netmuxd_socket, add_request, packet_of, is_added, parsed_or_false, with_rest,
  add_device,
}

-- A daemon that takes connections, and answers a packet that it can parse, when its dictionary is
-- the request, with one packet and the end of the stream.
pub record Daemon {W : Type 0} (dictionaries : Dictionaries) (unix : Unix W)
    (request : dictionaries.Dictionary) : Type 0 where
  pub reply : dictionaries.Dictionary
  pub version : ℕ
  pub message : ℕ
  pub tag : ℕ
  pub version_fits : version < 2 ^ 32
  pub message_fits : message < 2 ^ 32
  pub tag_fits : tag < 2 ^ 32
  -- The XML of both, which `plist` reads back, and which is never empty.
  pub request_xml : List ℕ
  pub request_written : dictionaries.to_writer_xml request ≡ some request_xml
  pub request_back : dictionaries.from_bytes request_xml ≡ some request
  pub request_fits : length request_xml + 16 < 2 ^ 32
  pub reply_xml : List ℕ
  pub reply_written : dictionaries.to_writer_xml reply ≡ some reply_xml
  pub reply_back : dictionaries.from_bytes reply_xml ≡ some reply
  pub reply_fits : length reply_xml + 16 < 2 ^ 32
  pub reply_filled : 0 < length reply_xml
  -- The reply's packet.
  pub reply_bytes : List ℕ
  pub reply_packet :
      encode (dictionaries.to_writer_xml) reply version message tag ≡ returns reply_bytes
  pub accepts :
      (w : W)
      → (stream : unix.Stream) × (v : W) × (unix.connect netmuxd_socket w ≡ (some stream, v))
  pub takes :
      (stream : unix.Stream) (bytes : List ℕ) (p : RawPacket (dictionaries.Dictionary)) (w : W)
      → try_from (dictionaries.from_bytes) bytes ≡ returns (ok p)
      → p.plist ≡ request
      → (v : W) × (u : W) × (unix.write_all stream bytes w ≡ (ok tt, v))
        × (unix.read_to_end stream v ≡ (some reply_bytes, u))

module _ (dictionaries : Dictionaries) {W : Type 0} (unix : Unix W) where
  open dictionaries use {Dictionary, to_writer_xml, from_bytes}

  reads_back :
      (d : Dictionary) (xml : List ℕ) (version message tag : ℕ)
      → from_bytes xml ≡ some d
      → length xml + 16 < 2 ^ 32
      → version < 2 ^ 32
      → message < 2 ^ 32
      → tag < 2 ^ 32
      → try_from from_bytes (serialized (made d xml version message tag) xml)
        ≡ returns (ok (made d xml version message tag))
  reads_back d xml version message tag back fits hv hm ht =
      subst (λ bytes. try_from from_bytes bytes ≡ returns (ok (made d xml version message tag)))
        (append-nil (serialized (made d xml version message tag) xml))
        (try_from-made from_bytes d xml version message tag [] back fits hv hm ht)

  is_added-integer :
      (v : dictionaries.Value) (n : ℕ)
      → dictionaries.as_integer v ≡ some (some n)
      → is_added dictionaries {W = W} (some v) ≡ pure (n == 1)
  unfolding is_added unwrap pure ◌>>=◌
  is_added-integer v n e = rw (is_added, e) refl

  -- With a daemon that parses the request as a packet and answers with a packet, where both
  -- dictionaries have an XML that is read back and the result of the reply is an unsigned number,
  -- `add_device` returns whether that number is 1.
  pub add_device-served :
      (ip : IpAddr) (udid : String)
      (daemon : Daemon dictionaries unix (add_request dictionaries ip udid))
      (v : dictionaries.Value) (n : ℕ) (w : W)
      → dictionaries.get_value (daemon.reply) "Result" ≡ some v
      → dictionaries.as_integer v ≡ some (some n)
      → (add_device dictionaries unix ip udid w).0 ≡ next (n == 1)
  unfolding add_device io with_rest parsed_or_false unwrap pure ◌>>=◌
  add_device-served ip udid daemon v n w e f =
      let (stream, w1, connected) = daemon.accepts w in
      let request = add_request dictionaries ip udid in
      let sent : packet_of dictionaries request
          ≡ some (serialized (made request daemon.request_xml 69 69 69) daemon.request_xml) =
        ap (λ r. elim r [ panic ↦ none | returns bytes ↦ some bytes ])
          (encode-made to_writer_xml request daemon.request_xml 69 69 69 daemon.request_written
            daemon.request_fits) in
      let read =
        reads_back request daemon.request_xml 69 69 69 daemon.request_back daemon.request_fits
          (omega arith) (omega arith) (omega arith) in
      let (w2, w3, written, got) = daemon.takes stream _ _ w1 read refl in
      let replied : daemon.reply_bytes
          ≡ serialized (made daemon.reply daemon.reply_xml daemon.version daemon.message daemon.tag)
              daemon.reply_xml =
        returns-injective (
          sym daemon.reply_packet
          ∙ encode-made to_writer_xml daemon.reply daemon.reply_xml daemon.version daemon.message
              daemon.tag daemon.reply_written daemon.reply_fits) in
      let longer : (length daemon.reply_bytes == 16) ≡ false =
        ground (arith, ap length replied, daemon.reply_filled) in
      let back =
        ap (try_from from_bytes) replied
        ∙ reads_back daemon.reply daemon.reply_xml daemon.version daemon.message daemon.tag
            daemon.reply_back daemon.reply_fits daemon.version_fits daemon.message_fits
            daemon.tag_fits in
      rw (connected, sent, written, got, longer, back, e, is_added-integer v n f) refl
