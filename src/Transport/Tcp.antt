-- ===== src/Transport/Tcp.antt =====
-- core/transport/hwio/tcp.c: the TCP client behind a transport.
-- The sockets of the system are a parameter: `connection` is the answer to `socket`, `inet_pton` and
-- `connect`, and the answers of `send` are a list, one for each call. `C` stands for a callback
-- with its context.
pub mod Write
pub mod Start
pub mod Listen
use mlink_device.Prelude.{
  ℕ, zero, suc, Bool, true, false, not, Option, none, some, List, [], ◌∷◌, ◌++◌, if◌then◌else◌,
  take, drop,
}
use mlink_device.Prelude.Bytes.{Bytes}
use mlink_device.Prelude.{is_some}
use mlink_device.Memory.{M, pure, ◌>>=◌, malloc}
use mlink_device.Memory as Memory
use mlink_device.Threads.{Thread}
use mlink_device.Threads as Threads

-- What a receive thread runs: `tcp_recv_thread` on its state, or its twin in unix.c.
pub data Receiving : Type 0 where
  recv_main : Receiving

-- A socket is its number.
pub record TcpState (C : Type 0) : Type 0 where
  pub sock : Option ℕ
  pub recv_thread : Option (Thread Receiving)
  pub running : Bool
  pub recv_cb : Option C

-- What `calloc` and the two assignments behind it leave.
abbrev pub fresh : {C : Type 0} → TcpState C
fresh = record { sock = none; recv_thread = none; running = true; recv_cb = none }

module _ {C : Type 0} where
  unfoldable pub connect : Option ℕ → TcpState C → Bool × TcpState C
  connect connection state = if is_some state.sock then (true, state) else elim connection [
    | none ↦ (false, state)
    | some sock ↦ (true, record state { sock = some sock })
  ]

  unfoldable pub close : TcpState C → TcpState C
  close state = record state { sock = none }

  -- The state of a `hwio`, made where there is none.
  unfoldable pub get_or_make : Option (TcpState C) → M (Option (TcpState C))
  get_or_make (some state) = pure (some state)
  get_or_make none = malloc >>= λ granted. pure (if granted then some fresh else none)

  -- Behind `thread_create`.
  abbrev pub with_thread : TcpState C → Option (Thread Receiving) → Bool × TcpState C
  with_thread state none = (false, record (close state) { running = false })
  with_thread state (some thread) = (true, record state { recv_thread = some thread })

  -- `thread` says whether the system has a thread.
  unfoldable pub start_thread : Bool → TcpState C → M (Bool × TcpState C)
  start_thread thread state = elim state.recv_thread [
    | some running ↦ pure (true, state)
    | none ↦ Threads.create thread recv_main >>= λ made. pure (with_thread state made)
  ]

  unfoldable pub start : Option ℕ → Bool → TcpState C → M (Bool × TcpState C)
  start connection thread state =
      if (connect connection state).0
      then start_thread thread (connect connection state).1
      else pure (connect connection state)

  -- The answer, and what `hwio.priv` holds behind it, on failure too.
  abbrev pub started : Option ℕ → Bool → Option (TcpState C) → M (Bool × Option (TcpState C))
  started connection thread none = pure (false, none)
  started connection thread (some state) =
      start connection thread state >>= λ r. pure (r.0, some r.1)

  unfoldable pub init : Option ℕ → Bool → Option (TcpState C) → M (Bool × Option (TcpState C))
  init connection thread priv = get_or_make priv >>= started connection thread

  -- The thread is cancelled and joined before its state is given back.
  unfoldable pub deinit : Option (TcpState C) → M (Bool × Option (TcpState C))
  deinit none = pure (true, none)
  deinit (some state) = Threads.stop state.recv_thread >>= λ joined.
      Memory.free (some state) >>= λ u. pure (true, none)

  unfoldable pub callback : Option (TcpState C) → Option C → M (Bool × Option (TcpState C))
  callback priv cb = get_or_make priv >>= λ got. pure (elim got [
    | none ↦ (false, none)
    | some state ↦ (true, some (record state { recv_cb = cb }))
  ])

-- What `send` answers: a number of bytes, EINTR or another error.
pub data SendAnswer : Type 0 where
  sent : ℕ → SendAnswer
  interrupted : SendAnswer
  failed : SendAnswer

-- Where the loop of `hwio_tcp_write` stops; `waiting` is a loop that asks for one more answer.
pub data WriteEnd : Type 0 where
  finished send_error sent_nothing waiting : WriteEnd

-- What the loop has put on the wire, what is left, and its end.
pub record Progress : Type 0 where
  pub wire : Bytes
  pub left : Bytes
  pub stop : WriteEnd

abbrev pub stopped : Bytes → WriteEnd → Progress
stopped left stop = record { wire = []; left = left; stop = stop }

abbrev pub behind : Bytes → Progress → Progress
behind out p = record p { wire = out ++ p.wire }

-- `send` takes at most what it is given, so that `sent n` takes the first n bytes.
unfoldable pub write_loop : List SendAnswer → Bytes → Progress
write_loop answers [] = stopped [] finished
write_loop [] (b ∷ left) = stopped (b ∷ left) waiting
write_loop (interrupted ∷ answers) (b ∷ left) = write_loop answers (b ∷ left)
write_loop (failed ∷ answers) (b ∷ left) = stopped (b ∷ left) send_error
write_loop (sent zero ∷ answers) (b ∷ left) = stopped (b ∷ left) sent_nothing
write_loop (sent (suc n) ∷ answers) (b ∷ left) =
    behind (b ∷ take n left) (write_loop answers (drop n left))

-- `none` for a call that has not returned yet.
pub record Written (C : Type 0) : Type 0 where
  pub answer : Option Bool
  pub wire : Bytes
  pub priv : Option (TcpState C)

module _ {C : Type 0} where
  abbrev pub written : TcpState C → Progress → WriteEnd → Written C
  written state p finished = record { answer = some true; wire = p.wire; priv = some state }
  written state p send_error = record {
    answer = some false;
    wire = p.wire;
    priv = some (close state);
  }
  written state p sent_nothing = record { answer = some false; wire = p.wire; priv = some state }
  written state p waiting = record { answer = none; wire = p.wire; priv = some state }

  unfoldable pub write : List SendAnswer → Option (TcpState C) → Option Bytes → Written C
  write answers priv none = record { answer = some false; wire = []; priv = priv }
  write answers priv (some []) = record { answer = some false; wire = []; priv = priv }
  write answers none (some (b ∷ bs)) = record { answer = some false; wire = []; priv = none }
  write answers (some state) (some (b ∷ bs)) =
      if is_some state.sock
      then written state (write_loop answers (b ∷ bs)) (write_loop answers (b ∷ bs)).stop
      else record { answer = some false; wire = []; priv = some state }

-- What a round of the receive thread meets: what `recv` answers, or a change that other threads
-- made while it waited.
pub data Event (C : Type 0) : Type 0 where
  got : Bytes → Event C
  hung_up : Event C
  no_data : Event C
  broken : Event C
  changed : TcpState C → Event C

-- The chunks that were handed on, each to the callback of its time, and whether the thread has ended.
pub record Heard (C : Type 0) : Type 0 where
  pub calls : List (C × Bytes)
  pub ended : Bool
  pub state : TcpState C

module _ {C : Type 0} where
  abbrev pub heard : List (C × Bytes) → Heard C → Heard C
  heard calls h = record h { calls = calls ++ h.calls }

  abbrev pub over : TcpState C → Heard C
  over state = record { calls = []; ended = true; state = state }

  -- The callback, where the thread has a socket to read from.
  abbrev pub listening : TcpState C → Option C
  listening state = if is_some state.sock then state.recv_cb else none

  -- One round: `next` is the rest of the loop. Without socket or callback the thread sleeps, and
  -- `recv` is not called.
  abbrev pub recv_round : TcpState C → Option C → Event C → (TcpState C → Heard C) → Heard C
  recv_round state cb (changed state') next = next state'
  recv_round state none (got chunk) next = next state
  recv_round state none hung_up next = next state
  recv_round state none no_data next = next state
  recv_round state none broken next = next state
  recv_round state (some c) (got chunk) next = heard ((c, chunk) ∷ []) (next state)
  recv_round state (some c) hung_up next = over (close state)
  recv_round state (some c) no_data next = next state
  recv_round state (some c) broken next = over (close state)

  unfoldable pub recv_thread : List (Event C) → TcpState C → Heard C
  recv_thread [] state = record { calls = []; ended = not state.running; state = state }
  recv_thread (event ∷ events) state =
      let next = recv_round state (listening state) event (recv_thread events) in
      if state.running then next else over state
