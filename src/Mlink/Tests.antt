-- ===== src/Mlink/Tests.antt =====
-- The theorems on core/mlink.c at a process that starts a TCP server and stops it.
use mlink_device.Prelude.{false, none, refl, true, some, List, [], ◌∷◌, arith}
use mlink_device.Prelude.Int.{pos}
use mlink_device.Prelude.Bytes.{bytes}
use mlink_device.Memory.{Heap}
use mlink_device.Json.{Env, null}
use mlink_device.Transport.{tcp}
use mlink_device.Mcp.Server.{Server, set_up}
use mlink_device.Mlink.{
  Process, World, Pointer, live, tcp_ops, destroy_server, transport_receive_callback,
}
use mlink_device.Mcp.PropertyList.{PropertyList, sizeof_property}
use mlink_device.Mlink.{create_tool}
use mlink_device.Mlink.Wrapper.{Wrapped, create_tool-Wrapped}
use mlink_device.Worker.{empty}
use mlink_device.Transport.Tcp.Start.{up}
use mlink_device.DynList.Add.{Balanced}
use mlink_device.Mlink.Life.{Request, wants_bool, wants_int, wants_string, life, life-Balanced}
use mlink_device.Mlink.Stopping.{Stopped, destroy_server-Stopped}

abbrev heap : Heap
heap = record { grant = λ n. true; next = 0; allocs = 0; frees = 0 }

abbrev env : Env
env = record {
  parse = λ text. some null;
  print = λ json. some (bytes "{}");
  get_item = λ json key. none;
  valueint = λ json. pos 0;
  decimal = λ n. bytes "0";
}

abbrev world : World
world = record { connection = some 3; thread = true; worker = true; now = pos 5 }

abbrev unstarted : Process
unstarted = record { server = none; transport = Pointer.null; table = []; counter = 0 }

abbrev first_server : Server
first_server = record (set_up (some (bytes "car")) (some empty)) { has_transport = true }

abbrev running : Process
running = record {
  server = some first_server;
  transport = live (record { ops = tcp_ops; priv = some (up 3 (some transport_receive_callback)) });
  table = record { type = tcp; ops = tcp_ops } ∷ [];
  counter = 1;
}

destroy_server-Stopped_example :
    Stopped running empty first_server heap (destroy_server running empty heap)
destroy_server-Stopped_example =
    destroy_server-Stopped running empty first_server heap refl (λ e. ground arith)

abbrev no_properties : PropertyList
no_properties = record { items = none; count = 0; capacity = 0; item_size = sizeof_property }

create_tool-Wrapped_example :
    Wrapped
      (some (bytes "stop"))
      (some (bytes "halt"))
      no_properties
      none
      false
      heap
      (create_tool (some (bytes "stop")) (some (bytes "halt")) no_properties none false heap)
create_tool-Wrapped_example =
    create_tool-Wrapped (some (bytes "stop")) (some (bytes "halt")) no_properties none false heap
      (omega arith) refl (omega arith)

abbrev requests : List Request
requests =
    wants_int (some (bytes "speed")) false (pos 0) true (pos 0) true (pos 9)
    ∷ wants_string (some (bytes "name")) (some (bytes "car"))
    ∷ wants_bool none true true
    ∷ []

life-Balanced_example :
    Balanced heap 0 (life requests (some (bytes "drive")) (some (bytes "go")) none true heap).1 0
life-Balanced_example =
    life-Balanced requests (some (bytes "drive")) (some (bytes "go")) none true heap (omega arith)
