-- ===== src/Mcp/Session.antt =====
-- The server's side of a connection: the messages that come in from a transport
-- (core/mcp/mcp_server.c), and those that the server sends on its own
-- (core/mcp/mcp_server_protocol.c).
pub mod Delivery
pub mod Draining
mod Tests
use mlink_device.Prelude.{
  ℕ, ◌+◌, ◌%◌, ◌^◌, ◌==◌, Bool, true, false, Option, none, some, List, [], ◌∷◌, ◌++◌, take,
  if◌then◌else◌,
}
use mlink_device.Prelude.Int.{ℤ, pos}
use mlink_device.Prelude.Bytes.{Bytes, bytes}
use mlink_device.Memory.{M, pure, ◌>>=◌, ◌>>◌, malloc}
use mlink_device.Memory as Memory
use mlink_device.Json.{Json, bool, str, object, Env}
use mlink_device.Worker.{Sched, post}
use mlink_device.Mcp.Server.{Server, Sent, send}
use mlink_device.Mcp.Protocol.{parse_message}

-- What a C function reads of a block that ends in NUL: the bytes in front of the first one.
unfoldable pub c_string : Bytes → Bytes
c_string [] = []
c_string (c ∷ cs) = if c == 0 then [] else c ∷ c_string cs

-- The replies of a message, in front of whose end its block is given back.
unfoldable pub parse_and_free : Env → Server → Bytes → M (List Sent)
parse_and_free e s message = do
  sent ← parse_message e s message
  Memory.free (some message)
  pure sent

-- A task of the scheduler is the message of a `struct mcp_message_task`.
unfoldable pub message_task_run : Env → Server → Bytes → M (List Sent)
message_task_run e s message = do
  sent ← parse_and_free e s message
  Memory.free (some (tt {0}))
  pure sent

-- The replies so far, and the scheduler behind the call.
pub record Received : Type 0 where
  pub sent : List Sent
  pub worker : Option (Sched Bytes)

abbrev pub at_once : Env → Server → Option (Sched Bytes) → Bytes → M Received
at_once e s worker message = do
  sent ← parse_and_free e s message
  pure (record { sent = sent; worker = worker })

-- Behind `bg_sched_post`: a task that was refused is given back when its message is done.
abbrev pub posted : Env → Server → Bytes → Bool × Sched Bytes → M Received
posted e s message (true, sched) = pure (record { sent = []; worker = some sched })
posted e s message (false, sched) = do
  received ← at_once e s (some sched) message
  Memory.free (some (tt {0}))
  pure received

abbrev pub hand_over : Env → Server → Option (Sched Bytes) → Bytes → M Received
hand_over e s none message = at_once e s none message
hand_over e s (some sched) message = malloc >>= λ granted.
    if granted
    then (post sched (some message) >>= posted e s message)
    else at_once e s (some sched) message

-- `data` is none for NULL; without bytes nothing happens.
unfoldable pub receive : Env → Server → Option (Sched Bytes) → Option Bytes → M Received
receive e s worker none = pure (record { sent = []; worker = worker })
receive e s worker (some []) = pure (record { sent = []; worker = worker })
receive e s worker (some (b ∷ bs)) = malloc >>= λ granted.
    if granted
    then hand_over e s worker (c_string (b ∷ bs))
    else pure (record { sent = []; worker = worker })

unfoldable pub set_send_callback : Server → Bool → Server
set_send_callback s given = record s { has_callback = given }

-- `snprintf` into 64 bytes; `now` and `counter` are the clock and the number of ids before.
unfoldable pub generate_session_id : Env → ℤ → ℕ → M (Option Bytes)
generate_session_id e now counter = malloc >>= λ granted. pure (
    if granted
    then some (take 63 (bytes "mcp_" ++ (e.decimal now ++ (bytes "_" ++ e.decimal (pos counter)))))
    else none)

-- `static unsigned int counter`.
abbrev pub next_counter : ℕ → ℕ
next_counter counter = (counter + 1) % 2 ^ 32

abbrev pub optional : Bytes → Option Bytes → List (Bytes × Json)
optional key none = []
optional key (some text) = (key, str text) ∷ []

unfoldable pub hello_document : Bytes → Option Bytes → Json
hello_document transport_name session_id = object (
    (bytes "type", str (bytes "hello"))
    ∷ (bytes "version", str (bytes "2024-11-05"))
    ∷ (bytes "features", object ((bytes "mcp", bool true) ∷ []))
    ∷ (bytes "transport", str transport_name)
    ∷ optional (bytes "session_id") session_id)

unfoldable pub send_hello : Env → Server → ℤ → ℕ → Option Bytes → M (List Sent)
send_hello e s now counter none = pure []
send_hello e s now counter (some transport_name) = do
  session_id ← generate_session_id e now counter
  Memory.free session_id
  pure (elim (e.print (hello_document transport_name session_id)) [
    | none ↦ []
    | some text ↦ send s (some text)
  ])

-- A missing level is "info".
abbrev pub level_of : Option Bytes → Bytes
level_of none = bytes "info"
level_of (some level) = level

unfoldable pub notification_document : Option Bytes → Option Bytes → Option Bytes → Json
notification_document level logger text = object (
    (bytes "jsonrpc", str (bytes "2.0"))
    ∷ (bytes "method", str (bytes "notifications/message"))
    ∷ (
      bytes "params",
      object (
          (bytes "level", str (level_of level))
          ∷ (optional (bytes "logger") logger ++ optional (bytes "data") text)),
    )
    ∷ [])

unfoldable pub send_notification_message :
    Env → Server → Option Bytes → Option Bytes → Option Bytes → List Sent
send_notification_message e s level logger text =
    elim (e.print (notification_document level logger text)) [
      | none ↦ []
      | some payload ↦ send s (some payload)
    ]

-- `registered` is the answer of `transport_register_callback`. The transport stays set on failure.
unfoldable pub set_transport :
    Env → Server → ℤ → ℕ → Bool → Bool → Option Bytes → M (Bool × (Server × List Sent))
set_transport e s now counter given registered transport_name =
    let s' = record s { has_transport = given } in
    if given
    then (if registered
        then (send_hello e s' now counter transport_name >>= λ sent. pure (true, (s', sent)))
        else pure (false, (s', [])))
    else pure (true, (s', []))
