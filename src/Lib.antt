-- ===== src/Lib.antt =====
-- JitStreamer-EB: a server that activates JIT for apps on iOS devices (src/*.rs of the repository).
--
-- A client asks over HTTP; the server finds the client's device by its address, opens services on the
-- device through the `idevice` crate, and keeps a heartbeat with the device while it works.
--
--   Prelude, HashMap, Net, Flow   what the modules share: numbers, lists, results; `HashMap` and
--                  `IpAddr` of the standard library; the shape of a request handler, which goes on
--                  with a value, replies early or panics, and keeps what it has written.
--   RawPacket      src/raw_packet.rs: `RawPacket`, `new`, `to_bytes` (`From`) and `try_from`.
--   Heartbeat      src/heartbeat.rs: the manager task (`Manager.handle` is the body of its loop, `run`
--                  the loop over its messages) and the loop of a device's heartbeat (`Thread.beat`
--                  over the rounds that the device offers).
--   Db             src/db.rs: `db_prepare` and `statement_next`, both the loop `retry`; `Table` is
--                  what SQLite documents of the program's four statements when it is available, on the
--                  table `devices` of src/sql/up.sql, an address for each row.
--   Common         src/common.rs: `get_udid_from_ip`, `get_pairing_file`.
--   Server         `JitStreamerState` of src/main.rs: what is sent to the heartbeat manager, the
--                  heartbeats and the mount tasks that were started, the mount cache and its channels.
--   Device         what the program asks of `idevice` and `plist`, as records of operations.
--   Handlers       src/main.rs: `get_apps`, `launch_app`, `attach_app`, and in `Session` what they
--                  have in common. A handler's device calls change a state `W` of the world that is a
--                  parameter, so that any device and any failure is covered.
--   Mount          src/mount.rs: `check_mount` and the task of `mount_thread` (`mount_task`), over the
--                  cache of the receivers and the store of the `watch` channels.
--                  `Socket` is the websocket: a turn of its loop brings what the receiver and the
--                  socket answer, and `Watches` is what tokio documents of the receiver.
--   System         the shared state as a step relation, in which other requests may take steps at every
--                  `.await` (`Step`); what holds in every state that is reached; and the handlers,
--                  which are runs of such steps (`Requests.serve`).
--   Version        src/main.rs: `version`.
--   Start          src/main.rs: `main` up to the server that listens, its table of routes, and `status`;
--                  src/register.rs: `check_wireguard`.
--   Netmuxd        src/netmuxd.rs: `add_device` and `remove_device`, over the packets of `RawPacket`. The
--                  module is not compiled into the program.
--   FileSystem     what is said of the files of a host.
--   Build          build.rs: the download of the developer image.
--   Register       src/register.rs: `register` in both modes and `refresh_wireguard` (`Handler` and
--                  `Wireguard`, over the records of `Host`), and `generate_ipv6_from_udid`
--                  (`Address`). What a registration changes is kept in order in the state (`changes`);
--                  `Rows` and `Lifecycle` follow the rows of the database through a registration, the
--                  task that inserts the device, and later lookups.
--
-- Code outside the repository is a parameter: the `sqlite`, `idevice`, `plist` and
-- `wg_config` crates, SHA-256, the file system and the shell.
-- Texts are native strings, or lists of bytes where the code reads them byte by byte. A `u32` keeps
-- its wrap-around (`% 2 ^ 32`, as in the release profile). The retry loops have the source's 50
-- rounds; no other fuel is used, but for the number of digits of a number that is printed (16 for a
-- 64-bit number in hexadecimal). Logging is left out.
--
-- Not modelled: the HTTP router that the `axum` crate makes of the table of routes, its CORS layers and
-- the extraction of requests; and the constant pages (`/hello`, `/mount_status`, `upload` of
-- src/register.rs).
pub mod FileSystem
pub mod Build
pub mod Start
pub mod Netmuxd
pub mod System
pub mod Prelude
pub mod HashMap
pub mod Net
pub mod RawPacket
pub mod Heartbeat
pub mod Db
pub mod Flow
pub mod Server
pub mod Device
pub mod Common
pub mod Handlers
pub mod Mount
pub mod Version
pub mod Register
