-- ===== src/Mlink/Lifecycle.antt =====
-- What comes of `mlink_server_init` (core/mlink.c).
use mlink_device.Prelude.{
  ℕ, ◌+◌, ◌≡◌, ◌≢◌, true, false, Option, none, some, List, [], length, if◌then◌else◌,
}
use mlink_device.Prelude.Bytes.{Bytes}
use mlink_device.Memory.{Heap, malloc, M, pure, ◌>>◌}
use mlink_device.Memory as Memory
use mlink_device.DynList.Add.{Balanced}
use mlink_device.Json.{Env}
use mlink_device.Transport.{TransportType, tcp, unix, Entry, register, max_registrations}
use mlink_device.Transport as Transports
use mlink_device.Transport.Table.{Stored}
use mlink_device.Transport.Tcp as Tcp
use mlink_device.Transport.Tcp.Start.{up, Failure}
use mlink_device.Transport.Unix as Unix
use mlink_device.Mcp.Server.{Server, server_init}
use mlink_device.Mcp.Session.{next_counter, send_hello}
use mlink_device.Mlink.{
  transport_type_to_string, Client, live, Process, World, client_of, Started,
  transport_receive_callback,
}

-- The block of the scheduler, which the first call makes.
abbrev pub new_block : Option Server → Server → ℕ
new_block none made = if made.has_worker then 1 else 0
new_block (some s) made = 0

module _ (e : Env) (w : World) (p : Process) (type : TransportType) (name : Option Bytes)
    (h₀ : Heap) where
  -- The server of the call, without and with a transport.
  abbrev pub bare : Server
  bare = (server_init p.server w.worker name h₀).0

  abbrev pub with_transport : Server
  with_transport = record bare { has_transport = true }

  abbrev pub new_scheduler : ℕ
  new_scheduler = new_block p.server bare

  -- The heap behind the server's own init.
  abbrev pub ready : Heap
  ready = (server_init p.server w.worker name h₀).1

  -- Why nothing new is kept: a type without a client, or no memory for the transport or its state.
  -- A client has its entry in the table in any case.
  pub data Unconnected : List (Entry Client) → Type 0 where
    no_client : type ≢ tcp → type ≢ unix → Unconnected p.table
    no_transport :
        {table : List (Entry Client)} (client : Client)
        → Stored p.table table type client
        → (malloc ready).0 ≡ false
        → Unconnected table
    no_state :
        {table : List (Entry Client)} (client : Client)
        → Stored p.table table type client
        → (malloc ready).0 ≡ true
        → (malloc (malloc ready).1).0 ≡ false
        → Unconnected table

  -- What comes of `mlink_server_init`: a connected server that has said hello; one without a new transport,
  -- with nothing kept for it or with the state of the failed connection lost; or NULL, for want of
  -- room in the table.
  pub data Begun : Started × Heap → Type 0 where
    connected :
        {h' : Heap} (client : Client) (sock : ℕ) (table : List (Entry Client)) (before : Heap)
        → client_of type ≡ some client
        → Stored p.table table type client
        → w.connection ≡ some sock
        → Balanced h₀ 0 h' (new_scheduler + 3)
        → Begun (
          record {
            answer = true;
            process = record {
              server = some with_transport;
              transport = live (record {
                ops = client;
                priv = some (up sock (some transport_receive_callback));
              });
              table = table;
              counter = next_counter p.counter;
            };
            sent =
                (send_hello e with_transport w.now p.counter
                  (some (transport_type_to_string type))
                  before).0;
          },
          h',
        )
    unconnected :
        {h' : Heap} (table : List (Entry Client))
        → Unconnected table
        → Balanced h₀ 0 h' new_scheduler
        → Begun (
          record {
            answer = true;
            process = record p { server = some bare; table = table };
            sent = [];
          },
          h',
        )
    lossy :
        {h' : Heap} (client : Client) (table : List (Entry Client))
        → Stored p.table table type client
        → Failure w.connection w.thread (malloc (malloc ready).1).1
        → Balanced h₀ 0 h' (new_scheduler + 1)
        → Begun (
          record {
            answer = true;
            process = record p { server = some bare; table = table };
            sent = [];
          },
          h',
        )
    no_room :
        {h' : Heap}
        → length p.table ≡ max_registrations
        → Balanced h₀ 0 h' new_scheduler
        → Begun
            (record { answer = false; process = record p { server = some bare }; sent = [] }, h')
