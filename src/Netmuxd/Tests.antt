-- ===== src/Netmuxd/Tests.antt =====
-- A daemon that adds every device. A dictionary is the bytes of its one integer, and the world what
-- was written to the daemon.
use jit_streamer_eb.Prelude.{ℕ, ◌≡◌, refl, true, none, some, List, [], ◌∷◌, ok, arith}
use jit_streamer_eb.Net.{v4}
use jit_streamer_eb.Flow.{next}
use jit_streamer_eb.RawPacket.RoundTrip.{serialized, made, encode-made}
use jit_streamer_eb.Netmuxd.{Unix, Dictionaries, add_request, add_device}
use jit_streamer_eb.Netmuxd.Answers.{Daemon, add_device-served}

-- The number is kept when texts are added.
abbrev numbers : Dictionaries
numbers = record {
  Dictionary = ℕ;
  Value = ℕ;
  empty = 0;
  insert_text = λ key value d. d;
  get_value = λ d key. some d;
  as_integer = λ v. some (some v);
  to_writer_xml = λ d. some (d ∷ []);
  from_bytes = λ bytes. elim bytes [ [] ↦ none | b ∷ l ↦ some b ];
}

abbrev reply : List ℕ
reply = serialized (made {Dictionary = ℕ} 1 (1 ∷ []) 1 8 69) (1 ∷ [])

abbrev unix : Unix (List ℕ)
unix = record {
  Stream = Unit;
  connect = λ path w. (some tt, w);
  write_all = λ stream bytes w. (ok tt, bytes);
  read_to_end = λ stream w. (some reply, w);
  read = λ stream n w. (some [], w);
}

daemon : Daemon numbers unix (add_request numbers (v4 10 7 0 1) "udid-1")
daemon = record {
  reply = 1;
  version = 1;
  message = 8;
  tag = 69;
  version_fits = omega arith;
  message_fits = omega arith;
  tag_fits = omega arith;
  request_xml = 0 ∷ [];
  request_written = refl;
  request_back = refl;
  request_fits = omega arith;
  reply_xml = 1 ∷ [];
  reply_written = refl;
  reply_back = refl;
  reply_fits = omega arith;
  reply_filled = omega arith;
  reply_bytes = reply;
  reply_packet = encode-made (numbers.to_writer_xml) 1 (1 ∷ []) 1 8 69 refl (omega arith);
  accepts = λ w. (tt, w, refl);
  takes = λ stream bytes p w parsed same. (bytes, bytes, refl, refl);
}

add_device-served_example : (add_device numbers unix (v4 10 7 0 1) "udid-1" []).0 ≡ next true
unfolding daemon
add_device-served_example =
    add_device-served numbers unix (v4 10 7 0 1) "udid-1" daemon 1 1 [] refl refl
