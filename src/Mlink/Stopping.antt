-- ===== src/Mlink/Stopping.antt =====
-- The blocks that `mlink_server_destroy` gives back (core/mlink.c).
use mlink_device.Prelude.{
  ℕ, ◌+◌, ◌≡◌, ◌≢◌, refl, Bool, true, false, Option, none, some, arith, length, if◌then◌else◌,
}
use mlink_device.Prelude.Bytes.{Bytes}
use mlink_device.Memory.{Heap, malloc, M, pure, ◌>>=◌, ◌>>◌}
use mlink_device.Memory as Memory
use mlink_device.DynList.Add.{Balanced, block}
use mlink_device.Transport.{TransportType, Entry, find_ops, register, max_registrations, started}
use mlink_device.Transport as Transports
use mlink_device.Transport.Tcp as Tcp
use mlink_device.Transport.Unix as Unix
use mlink_device.Worker.{Sched}
use mlink_device.Worker.Blocks.{destroy_joined-Balanced}
use mlink_device.Threads.Life.{stop-Balanced}
use mlink_device.Mcp.Server.{Server}
use mlink_device.Mlink.{
  Client, unix_ops, tcp_ops, State, Pointer, null, live, dangling, Process, shut, deinit_of,
  drop_transport, drop_worker, destroy_server,
}

-- The blocks of a transport and its client: of a state, and of its thread.
abbrev pub state_blocks : Option State → ℕ
state_blocks none = 0
state_blocks (some state) = 1 + block state.recv_thread

abbrev pub held : Pointer → ℕ
held null = 0
held (live link) = 1 + state_blocks link.priv
held dangling = 0

-- The blocks of a scheduler: its own, and a node for each task that was never taken.
abbrev pub scheduler_blocks : Bool → Sched Bytes → ℕ
scheduler_blocks false left = 0
scheduler_blocks true left = 1 + length left.queue

pub record Stopped (p : Process) (left : Sched Bytes) (s : Server) (h : Heap)
    (r : Option Process × Heap) : Type 0 where
  pub answer : r.0 ≡ some (record p { server = some (shut s); transport = null })
  pub given_back : Balanced h (scheduler_blocks s.has_worker left + held p.transport) r.1 0

transport_destroy-Balanced :
    (client : Client) (priv : Option State) (h : Heap)
    → Balanced h
        (1 + state_blocks priv)
        (Transports.destroy deinit_of (some (record { ops = client; priv = priv })) h).1
        0
unfolding Transports.destroy Tcp.deinit Unix.deinit Memory.free
transport_destroy-Balanced tcp_ops none h = omega arith
transport_destroy-Balanced tcp_ops (some s) h = omega (arith, stop-Balanced s.recv_thread h)
transport_destroy-Balanced unix_ops none h = omega arith
transport_destroy-Balanced unix_ops (some s) h = omega (arith, stop-Balanced s.recv_thread h)

drop_worker-Balanced :
    (has_worker : Bool) (left : Sched Bytes) (h : Heap)
    → Balanced h (scheduler_blocks has_worker left) (drop_worker has_worker left h).1 0
drop_worker-Balanced false left h = omega arith
drop_worker-Balanced true left h = destroy_joined-Balanced left h

shut-Stopped :
    (p : Process) (left : Sched Bytes) (s : Server) (t : Pointer) (h : Heap)
    → p.transport ≡ t
    → t ≢ dangling
    → Stopped p left s h (
        (drop_worker s.has_worker left
            >> (drop_transport t >>= λ sound. pure (
                if sound
                then some (record p { server = some (shut s); transport = null })
                else none)))
          h)
shut-Stopped p left s null h e n = record {
  answer = refl;
  given_back = rw e (omega (arith, drop_worker-Balanced s.has_worker left h));
}
shut-Stopped p left s (live link) h e n = record {
  answer = refl;
  given_back = rw e (
      omega (
        arith,
        drop_worker-Balanced s.has_worker left h,
        transport_destroy-Balanced link.ops link.priv (drop_worker s.has_worker left h).1,
      ));
}
shut-Stopped p left s dangling h e n = absurd (n refl)

-- Where a server has been set up and its transport is not dangling, `mlink_server_destroy` gives
-- back exactly the block of the scheduler, if there is one, with a block for each task that its
-- worker has not taken, and the blocks of the transport, of its state and of its thread, and
-- leaves the server without transport, worker and callback; the registered types stay.
pub destroy_server-Stopped :
    (p : Process) (left : Sched Bytes) (s : Server) (h : Heap)
    → p.server ≡ some s
    → p.transport ≢ dangling
    → Stopped p left s h (destroy_server p left h)
unfolding destroy_server
destroy_server-Stopped p left s h e n =
    rw e (shut-Stopped (record p { server = some s }) left s p.transport h refl n)
