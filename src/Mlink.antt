-- ===== src/Mlink.antt =====
-- core/mlink.c: the public functions, where they do more than pass on to core/mcp: the life of the
-- server with its transport, and the tools with their wrapped callbacks.
pub mod Values
pub mod Properties
pub mod Lifecycle
pub mod Stopping
pub mod Wrapper
pub mod Life
mod Tests
use mlink_device.Prelude.{ℕ, Bool, true, false, not, Option, none, some, List, [], if◌then◌else◌}
use mlink_device.Prelude.Int.{ℤ}
use mlink_device.Prelude.Bytes.{Bytes, bytes}
use mlink_device.Memory.{M, pure, ◌>>=◌, ◌>>◌, malloc}
use mlink_device.Memory as Memory
use mlink_device.Json.{Env}
use mlink_device.Worker.{Sched}
use mlink_device.Worker as Worker
use mlink_device.Transport.{
  TransportType, unix, tcp, mqtt, http, ws, uart, spi, Entry, Transport, register,
}
use mlink_device.Transport as Transports
use mlink_device.Transport.Tcp.{TcpState}
use mlink_device.Transport.Tcp as Tcp
use mlink_device.Transport.Unix as Unix
use mlink_device.Mcp.Server.{Server, Sent, server_init}
use mlink_device.Mcp.Server as Servers
use mlink_device.Mcp.Protocol.{parse_message}
use mlink_device.Mcp.Session.{set_transport, next_counter, send_notification_message}
use mlink_device.Mcp.Session as Sessions
use mlink_device.Mlink.Values.{MlinkReturnValue, to_mcp}
use mlink_device.Mcp.PropertyList.{PropertyList}
use mlink_device.Mcp.ReturnValue.{string_rv}
use mlink_device.Mcp.Tool.{Tool, Callback}
use mlink_device.Mcp.Tool as Tools

unfoldable pub transport_type_to_string : TransportType → Bytes
transport_type_to_string unix = bytes "unix"
transport_type_to_string tcp = bytes "tcp"
transport_type_to_string mqtt = bytes "mqtt"
transport_type_to_string http = bytes "http"
transport_type_to_string ws = bytes "websocket"
transport_type_to_string uart = bytes "uart"
transport_type_to_string spi = bytes "spi"

-- The two `struct hwio_ops` of the program.
pub data Client : Type 0 where
  unix_ops tcp_ops : Client

-- The one callback that the server registers, with the one server as its context.
pub data Receiver : Type 0 where
  transport_receive_callback : Receiver

abbrev pub State : Type 0
State = TcpState Receiver

abbrev pub Link : Type 0
Link = Transport Client State

-- `server->transport`: a transport that was destroyed behind the server's back is still pointed to.
pub data Pointer : Type 0 where
  null : Pointer
  live : Link → Pointer
  dangling : Pointer

-- The variables of the process: the one server, once it is set up, its transport, the registered
-- types, and the number of session ids.
pub record Process : Type 0 where
  pub server : Option Server
  pub transport : Pointer
  pub table : List (Entry Client)
  pub counter : ℕ

-- What the system answers in one call: the connection, the receive thread, the thread of the
-- background scheduler, and the clock.
pub record World : Type 0 where
  pub connection : Option ℕ
  pub thread : Bool
  pub worker : Bool
  pub now : ℤ

abbrev pub run_init : World → Client → M (Bool × Option State)
run_init w unix_ops = Unix.init w.connection w.thread none
run_init w tcp_ops = Tcp.init w.connection w.thread none

abbrev pub init_of : World → Client → Option (M (Bool × Option State))
init_of w client = some (run_init w client)

abbrev pub deinit_of : Client → Option (Option State → M (Bool × Option State))
deinit_of unix_ops = some Unix.deinit
deinit_of tcp_ops = some Tcp.deinit

abbrev pub callback_of : Client → Option (Option State → Option Receiver → M (Bool × Option State))
callback_of unix_ops = some Unix.callback
callback_of tcp_ops = some Tcp.callback

-- `transport_unix_init` and `transport_tcp_init`; the other types have none.
abbrev pub client_of : TransportType → Option Client
client_of unix = some unix_ops
client_of tcp = some tcp_ops
client_of _ = none

-- The server that was set up, the process behind the call, and what was sent.
pub record Started : Type 0 where
  pub answer : Bool
  pub process : Process
  pub sent : List Sent

-- `mcp_server_set_transport` on a new transport, which is destroyed where that fails.
unfoldable pub attach : Env → World → Process → Server → TransportType → Link → M Started
attach e w p s type link = do
  registered ←
      Transports.register_callback callback_of (some link) (some transport_receive_callback)
  (ok, r) ←
      set_transport e s w.now p.counter true registered.0 (some (transport_type_to_string type))
  if ok
      then pure (record {
        answer = true;
        process = record p {
          server = some r.0;
          transport = pointer registered.1;
          counter = next_counter p.counter;
        };
        sent = r.1;
      })
      else (Transports.destroy deinit_of registered.1
          >> pure (record {
            answer = false;
            process = record p { server = some r.0; transport = dangling };
            sent = r.1;
          }))
  where
    pointer : Option Link → Pointer
    pointer none = null
    pointer (some t) = live t

-- Behind the creation of a transport.
abbrev pub after_create : Env → World → Process → Server → TransportType → Option Link → M Started
after_create e w p s type none =
    pure (record { answer = true; process = record p { server = some s }; sent = [] })
after_create e w p s type (some link) = attach e w p s type link

-- Behind the registration of the type.
abbrev pub with_table :
    Env → World → Process → Server → TransportType → Bool × List (Entry Client) → M Started
with_table e w p s type (false, table) =
    pure
      (record { answer = false; process = record p { server = some s; table = table }; sent = [] })
with_table e w p s type (true, table) =
    Transports.create (init_of w) table type
    >>= after_create e w (record p { table = table }) s type

-- `answer` is false for NULL.
unfoldable pub start_server : Env → World → Process → TransportType → Option Bytes → M Started
start_server e w p type name = server_init p.server w.worker name >>= λ s. elim (client_of type) [
  | none ↦ pure (record { answer = true; process = record p { server = some s }; sent = [] })
  | some client ↦ with_table e w p s type (register p.table type (some client))
]

-- Behind the join of the worker, with the scheduler as the worker left it.
abbrev pub drop_worker : Bool → Sched Bytes → M (Unit {0})
drop_worker false left = pure tt
drop_worker true left = Worker.destroy_joined left

-- None where a transport is used that is gone.
abbrev pub drop_transport : Pointer → M Bool
drop_transport null = pure true
drop_transport (live link) = Transports.destroy deinit_of (some link) >> pure true
drop_transport dangling = pure false

abbrev pub shut : Server → Server
shut s = record s { has_callback = false; has_transport = false; has_worker = false }

-- `left` is the scheduler once its worker has ended (see Worker); `none` is the use of a transport
-- that is gone.
unfoldable pub destroy_server : Process → Sched Bytes → M (Option Process)
destroy_server p left = elim p.server [
  | none ↦ pure (some p)
  | some s ↦
      drop_worker s.has_worker left
      >> (drop_transport p.transport >>= λ sound.
          pure
            (if sound then some (record p { server = some (shut s); transport = null }) else none))
]

-- `mlink_tool_callback_t` with its `user_ctx`.
abbrev pub MlinkCallback : Type 0
MlinkCallback = PropertyList → MlinkReturnValue

-- What the callback of an application's tool returns, or a NULL string without one. The wrapper is
-- a block of its own; `application` is `wrapper->callback` with its context.
unfoldable pub callback_wrapper : Option (Option MlinkCallback) → Callback
callback_wrapper (some (some application)) = λ properties. to_mcp (application properties)
callback_wrapper (some none) = λ properties. string_rv none
callback_wrapper none = λ properties. string_rv none

unfoldable pub create_tool :
    Option Bytes → Option Bytes → PropertyList → Option MlinkCallback → Bool → M (Option Tool)
create_tool name description properties callback user_only = malloc >>= λ granted.
    if not granted
    then pure none
    else (Tools.create name description properties (some (callback_wrapper (some callback)))
          user_only
        >>= λ made. elim made [
          | none ↦ Memory.free (some (tt {0})) >> pure none
          | some tool ↦ pure (some tool)
        ])

-- A tool of `mlink_tool_create` has its wrapper in `user_ctx`.
unfoldable pub destroy_tool : Option Tool → M (Unit {0})
destroy_tool none = pure tt
destroy_tool (some tool) = Memory.free (some (tt {0})) >> Tools.destroy (some tool)

-- The calls that go on to core/mcp.
unfoldable pub add_tool : Server → Tool → M (Bool × Server)
add_tool s tool = Servers.add_tool s tool

unfoldable pub parse_message_str : Env → Server → Bytes → M (List Sent)
parse_message_str e s message = parse_message e s message

unfoldable pub set_send_callback : Server → Bool → Server
set_send_callback s given = Sessions.set_send_callback s given

unfoldable pub notify_message :
    Env → Server → Option Bytes → Option Bytes → Option Bytes → List Sent
notify_message e s level logger text = send_notification_message e s level logger text
