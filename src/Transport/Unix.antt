-- ===== src/Transport/Unix.antt =====
-- core/transport/hwio/unix.c: the client of a UNIX-domain socket, function for function as in tcp.c.
-- `connection` is the answer to `socket` and `connect`; the rest is as in Tcp.
pub mod Same
use mlink_device.Prelude.{
  ℕ, zero, suc, Bool, true, false, not, Option, none, some, List, [], ◌∷◌, if◌then◌else◌, take,
  drop, is_some,
}
use mlink_device.Prelude.Bytes.{Bytes}
use mlink_device.Memory.{M, pure, ◌>>=◌, malloc}
use mlink_device.Memory as Memory
use mlink_device.Threads.{Thread}
use mlink_device.Threads as Threads
use mlink_device.Transport.Tcp.{
  TcpState, Receiving, recv_main, fresh, SendAnswer, sent, interrupted, failed, WriteEnd, finished,
  send_error, sent_nothing, waiting, Progress, stopped, behind, Written, Event, got, hung_up,
  no_data, broken, changed, Heard, heard, over, listening,
}

-- `struct unix_state` has the fields of `struct tcp_state`.
abbrev pub UnixState : Type 0 → Type 0
UnixState C = TcpState C

module _ {C : Type 0} where
  unfoldable pub connect : Option ℕ → UnixState C → Bool × UnixState C
  connect connection state = if is_some state.sock then (true, state) else elim connection [
    | none ↦ (false, state)
    | some sock ↦ (true, record state { sock = some sock })
  ]

  unfoldable pub close : UnixState C → UnixState C
  close state = record state { sock = none }

  -- The state of a `hwio`, made where there is none.
  unfoldable pub get_or_make : Option (UnixState C) → M (Option (UnixState C))
  get_or_make (some state) = pure (some state)
  get_or_make none = malloc >>= λ granted. pure (if granted then some fresh else none)

  -- Behind `thread_create`.
  abbrev pub with_thread : UnixState C → Option (Thread Receiving) → Bool × UnixState C
  with_thread state none = (false, record (close state) { running = false })
  with_thread state (some thread) = (true, record state { recv_thread = some thread })

  -- `thread` says whether the system has a thread.
  unfoldable pub start_thread : Bool → UnixState C → M (Bool × UnixState C)
  start_thread thread state = elim state.recv_thread [
    | some running ↦ pure (true, state)
    | none ↦ Threads.create thread recv_main >>= λ made. pure (with_thread state made)
  ]

  unfoldable pub start : Option ℕ → Bool → UnixState C → M (Bool × UnixState C)
  start connection thread state =
      if (connect connection state).0
      then start_thread thread (connect connection state).1
      else pure (connect connection state)

  -- The answer, and what `hwio.priv` holds behind it, on failure too.
  abbrev pub started : Option ℕ → Bool → Option (UnixState C) → M (Bool × Option (UnixState C))
  started connection thread none = pure (false, none)
  started connection thread (some state) =
      start connection thread state >>= λ r. pure (r.0, some r.1)

  unfoldable pub init : Option ℕ → Bool → Option (UnixState C) → M (Bool × Option (UnixState C))
  init connection thread priv = get_or_make priv >>= started connection thread

  -- The thread is cancelled and joined before its state is given back.
  unfoldable pub deinit : Option (UnixState C) → M (Bool × Option (UnixState C))
  deinit none = pure (true, none)
  deinit (some state) = Threads.stop state.recv_thread >>= λ joined.
      Memory.free (some state) >>= λ u. pure (true, none)

  unfoldable pub callback : Option (UnixState C) → Option C → M (Bool × Option (UnixState C))
  callback priv cb = get_or_make priv >>= λ got. pure (elim got [
    | none ↦ (false, none)
    | some state ↦ (true, some (record state { recv_cb = cb }))
  ])

-- The loop of `hwio_unix_write`.
unfoldable pub write_loop : List SendAnswer → Bytes → Progress
write_loop answers [] = stopped [] finished
write_loop [] (b ∷ left) = stopped (b ∷ left) waiting
write_loop (interrupted ∷ answers) (b ∷ left) = write_loop answers (b ∷ left)
write_loop (failed ∷ answers) (b ∷ left) = stopped (b ∷ left) send_error
write_loop (sent zero ∷ answers) (b ∷ left) = stopped (b ∷ left) sent_nothing
write_loop (sent (suc n) ∷ answers) (b ∷ left) =
    behind (b ∷ take n left) (write_loop answers (drop n left))

module _ {C : Type 0} where
  abbrev pub written : UnixState C → Progress → WriteEnd → Written C
  written state p finished = record { answer = some true; wire = p.wire; priv = some state }
  written state p send_error = record {
    answer = some false;
    wire = p.wire;
    priv = some (close state);
  }
  written state p sent_nothing = record { answer = some false; wire = p.wire; priv = some state }
  written state p waiting = record { answer = none; wire = p.wire; priv = some state }

  unfoldable pub write : List SendAnswer → Option (UnixState C) → Option Bytes → Written C
  write answers priv none = record { answer = some false; wire = []; priv = priv }
  write answers priv (some []) = record { answer = some false; wire = []; priv = priv }
  write answers none (some (b ∷ bs)) = record { answer = some false; wire = []; priv = none }
  write answers (some state) (some (b ∷ bs)) =
      if is_some state.sock
      then written state (write_loop answers (b ∷ bs)) (write_loop answers (b ∷ bs)).stop
      else record { answer = some false; wire = []; priv = some state }

module _ {C : Type 0} where
  -- One round: `next` is the rest of the loop. Without socket or callback the thread sleeps, and
  -- `recv` is not called.
  abbrev pub recv_round : UnixState C → Option C → Event C → (UnixState C → Heard C) → Heard C
  recv_round state cb (changed state') next = next state'
  recv_round state none (got chunk) next = next state
  recv_round state none hung_up next = next state
  recv_round state none no_data next = next state
  recv_round state none broken next = next state
  recv_round state (some c) (got chunk) next = heard ((c, chunk) ∷ []) (next state)
  recv_round state (some c) hung_up next = over (close state)
  recv_round state (some c) no_data next = next state
  recv_round state (some c) broken next = over (close state)

  unfoldable pub recv_thread : List (Event C) → UnixState C → Heard C
  recv_thread [] state = record { calls = []; ended = not state.running; state = state }
  recv_thread (event ∷ events) state =
      let next = recv_round state (listening state) event (recv_thread events) in
      if state.running then next else over state
