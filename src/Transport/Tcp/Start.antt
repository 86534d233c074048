-- ===== src/Transport/Tcp/Start.antt =====
-- What `hwio_tcp_init` leaves of a new transport (core/transport/hwio/tcp.c).
use mlink_device.Prelude.{ℕ, ◌≡◌, refl, inl, inr, Bool, true, false, Option, none, some, arith}
use mlink_device.Memory.{Heap, malloc}
use mlink_device.DynList.Add.{Balanced, malloc_cases}
use mlink_device.Threads.{Thread}
use mlink_device.Threads as Threads
use mlink_device.Threads.Life.{Born, unborn, no_block, born, create_ex-Born}
use mlink_device.Transport.Tcp.{
  TcpState, Receiving, recv_main, fresh, connect, get_or_make, with_thread, start_thread, start,
  close, started, init,
}

-- A connection that is up, with its thread.
abbrev pub up : {C : Type 0} → ℕ → Option C → TcpState C
up sock cb = record {
  sock = some sock;
  recv_thread = some (record { threadfn = recv_main; detached = false });
  running = true;
  recv_cb = cb;
}

-- Why a state is left behind: no connection, no thread, or no memory for one, at the heap behind
-- the request for the state.
pub data Failure (connection : Option ℕ) (thread : Bool) (h : Heap) : Type 0 where
  no_connection : connection ≡ none → Failure connection thread h
  no_thread : thread ≡ false → Failure connection thread h
  no_thread_block : (malloc h).0 ≡ false → Failure connection thread h

-- Connected, with its thread, and no callback yet; or failed, without a socket, for want of memory, or with a state
-- that nobody gives back.
pub data Initialised {C : Type 0} (connection : Option ℕ) (thread : Bool) (h : Heap)
    : (Bool × Option (TcpState C)) × Heap → Type 0 where
  running :
      {h' : Heap} (sock : ℕ)
      → connection ≡ some sock
      → Balanced h 0 h' 2
      → Initialised connection thread h ((true, some (up sock none)), h')
  no_memory :
      {h' : Heap}
      → (malloc h).0 ≡ false
      → Balanced h 0 h' 0
      → Initialised connection thread h ((false, none), h')
  leaking :
      {h' : Heap} (state : TcpState C)
      → state.sock ≡ none
      → Failure connection thread (malloc h).1
      → Balanced h 0 h' 1
      → Initialised connection thread h ((false, some state), h')

-- What `init` returns behind the creation of the thread.
abbrev outcome : {C : Type 0} → ℕ → Option (Thread Receiving) → Bool × Option (TcpState C)
outcome {C} sock made =
    let r = with_thread {C = C} (record fresh { sock = some sock }) made in (r.0, some r.1)

threaded-Initialised :
    {C : Type 0} (sock : ℕ) (thread : Bool) (h : Heap) (r : Option (Thread Receiving) × Heap)
    → Balanced h 0 (malloc h).1 1
    → Born thread recv_main false (malloc h).1 r
    → Initialised {C = C} (some sock) thread h (outcome sock r.0, r.1)
unfolding close
threaded-Initialised sock thread h r b (unborn t c) =
    leaking _ refl (no_thread t) (omega (arith, b, c))
threaded-Initialised sock thread h r b (no_block g c) =
    leaking _ refl (no_thread_block g) (omega (arith, b, c))
threaded-Initialised sock thread h r b (born t c) = running sock refl (omega (arith, b, c))

started-Initialised :
    {C : Type 0} (connection : Option ℕ) (thread : Bool) (h : Heap)
    → Balanced h 0 (malloc h).1 1
    → Initialised {C = C} connection thread h (started connection thread (some fresh) (malloc h).1)
unfolding start connect start_thread
started-Initialised none thread h b = leaking fresh refl (no_connection refl) b
started-Initialised (some sock) thread h b =
    threaded-Initialised sock thread h (Threads.create thread recv_main (malloc h).1) b
      (unfold Threads.create in create_ex-Born thread recv_main false (malloc h).1)

pub init-Initialised :
    {C : Type 0} (connection : Option ℕ) (thread : Bool) (h : Heap)
    → Initialised {C = C} connection thread h (init connection thread none h)
unfolding init get_or_make
init-Initialised connection thread h = elim (malloc_cases h) [
  | inr (g, b) ↦ rw g (no_memory g b)
  | inl (g, b) ↦ rw g (started-Initialised connection thread h b)
]
