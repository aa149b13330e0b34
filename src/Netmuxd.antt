-- ===== src/Netmuxd.antt =====
-- src/netmuxd.rs: the client of the netmuxd daemon, which adds a device and removes it. The socket
-- and the `plist` crate are parameters.
pub mod Answers
pub mod Tests
use jit_streamer_eb.Prelude.{
  ℕ, ◌-◌, ◌==◌, Bool, true, false, Option, none, some, String, List, [], ◌∷◌, ◌++◌, Result, ok, err,
  Panics, returns, panic, length, take, replicate, if◌then◌else◌,
}
use jit_streamer_eb.Prelude.Bytes.{to_array4, from_le_bytes}
use jit_streamer_eb.Net.{IpAddr}
use jit_streamer_eb.Net
use jit_streamer_eb.Flow.{Flow, pure, stop, unwrap, io, ◌>>=◌, ◌>>◌}
use jit_streamer_eb.RawPacket.{RawPacket, Parse, encode, try_from}

-- `tokio::net::UnixStream`. A failure of a call that the source unwraps is `none`; `read_to_end`
-- gives the bytes up to the end, and `read` at most as many as there is room for.
pub record Unix (W : Type 0) : Type 1 where
  pub Stream : Type 0
  pub connect : String → W → Option Stream × W
  pub write_all : Stream → List ℕ → W → Result (Unit {0}) (Unit {0}) × W
  pub read_to_end : Stream → W → Option (List ℕ) × W
  pub read : Stream → ℕ → W → Option (List ℕ) × W

-- `plist`: dictionaries to which texts are added; a value that is an integer, and its `u64` if it
-- is not negative. `to_writer_xml` is `none` where the source's `unwrap` of it panics.
pub record Dictionaries : Type 1 where
  pub Dictionary : Type 0
  pub Value : Type 0
  pub empty : Dictionary
  pub insert_text : String → String → Dictionary → Dictionary
  pub get_value : Dictionary → String → Option Value
  pub as_integer : Value → Option (Option ℕ)
  pub to_writer_xml : Dictionary → Option (List ℕ)
  pub from_bytes : List ℕ → Option Dictionary

abbrev pub netmuxd_socket : String
netmuxd_socket = "/var/run/usbmuxd"

abbrev pub service : String
service = "_apple-mobdev2._tcp.local"

-- What `packet` holds of `vec![0; n]` once bytes were read into it.
abbrev pub filled : ℕ → List ℕ → List ℕ
filled n bytes = bytes ++ replicate (n - length bytes) 0

-- `u32::from_le_bytes(buffer[0..4].try_into().unwrap())`
abbrev pub packet_size : List ℕ → Option ℕ
packet_size buffer = elim (to_array4 (take 4 buffer)) [
  | none ↦ none
  | some word ↦ some (from_le_bytes word)
]

module _ (dictionaries : Dictionaries) where
  open dictionaries use {
    Dictionary, Value, empty, insert_text, get_value, as_integer, to_writer_xml, from_bytes,
  }

  abbrev pub add_request : IpAddr → String → Dictionary
  add_request ip udid = insert_text "DeviceID" udid (
      insert_text "IPAddress" (Net.to_string ip) (
        insert_text "ServiceName" service
          (insert_text "ConnectionType" "Network" (insert_text "MessageType" "AddDevice" empty))))

  abbrev pub remove_request : String → Dictionary
  remove_request udid = insert_text "DeviceID" udid (insert_text "MessageType" "RemoveDevice" empty)

  -- `RawPacket::new(request, 69, 69, 69).into()`, `none` where it panics
  abbrev pub packet_of : Dictionary → Option (List ℕ)
  packet_of request = elim (encode to_writer_xml request 69 69 69) [
    | panic ↦ none
    | returns bytes ↦ some bytes
  ]

  module _ {W : Type 0} where
    -- `match parsed.plist.get("Result") { … }`
    unfoldable pub is_added : Option Value → Flow W Bool Bool
    is_added none = pure false
    is_added (some v) = elim (as_integer v) [
      | none ↦ pure false
      | some r ↦ do n ← unwrap r; pure (n == 1)
    ]

    -- `match buffer.try_into() { … }`
    unfoldable pub parsed_or_false :
        Parse (RawPacket Dictionary) → Flow W Bool (RawPacket Dictionary)
    parsed_or_false (returns (ok p)) = pure p
    parsed_or_false (returns (err e)) = stop false
    parsed_or_false panic = unwrap none

    module _ (unix : Unix W) where
      open unix use {Stream, connect, write_all, read_to_end, read}

      -- `if size == 16 { … }`
      unfoldable pub with_rest : Stream → List ℕ → Flow W Bool (List ℕ)
      with_rest stream buffer =
          if length buffer == 16
          then (do
            size ← unwrap (packet_size buffer)
            got ← io (read stream size)
            bytes ← unwrap got
            pure (buffer ++ filled size bytes))
          else pure buffer

      unfoldable pub add_device : IpAddr → String → Flow W Bool Bool
      add_device ip udid = do
        connected ← io (connect netmuxd_socket)
        stream ← unwrap connected
        request ← unwrap (packet_of (add_request ip udid))
        written ← io (write_all stream request)
        unwrap (elim written [ ok a ↦ some a | err e ↦ none ])
        got ← io (read_to_end stream)
        buffer ← unwrap got
        whole ← with_rest stream buffer
        p ← parsed_or_false (try_from from_bytes whole)
        is_added (get_value (p.plist) "Result")

      -- A failure to write is only logged.
      unfoldable pub remove_device : String → Flow W Unit Unit
      remove_device udid = do
        connected ← io (connect netmuxd_socket)
        stream ← unwrap connected
        request ← unwrap (packet_of (remove_request udid))
        written ← io (write_all stream request)
        pure tt
