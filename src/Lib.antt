-- ===== src/Lib.antt =====
-- mlink_device: the device side of an MCP (Model Context Protocol) link, in C. A device registers
-- tools; a client behind a transport lists and calls them by JSON-RPC messages. This library models
-- the program in functions that can be run, and proves what its parts promise.
--
-- The parts, each with its file here. A message comes from a transport to the server, which
-- parses it, finds the tool, checks the arguments and sends the reply back to the transport; the
-- server may leave this to its worker. core/mlink.c starts a server with its transport and stops it.
--   Prelude: shared names, Boolean tests, lists, integers, C strings as their bytes.
--   Memory: malloc, realloc and free of the C library as a state that counts blocks, and utils_strdup
--     (core/posix/utils.c). Which requests are granted is a function that the theorems do not fix.
--   Json: JSON documents, and cJSON as a parameter `Env`; `EnvLaws` is what its documentation says
--     of `valueint`, which is about numbers only.
--   DynList: core/posix/list.c. A block is a list of slots; list_init, _reserve, _add, _get, _free,
--     _clear and _clone are init, reserve, add, get, free, clear and clone. Grow is about the
--     loop for the capacity, Contents about the invariant, Add, Free and Clone about the operations,
--     Every about a predicate on all items, Copying about copies with memory for everything.
--   Mcp/Property, Mcp/PropertyList: core/mcp/mcp_property.c. A C function mcp_property_list_add_int
--     is PropertyList.add_int, and so on. Children: Copy, Accept, Default,
--     Find, Add, Lookup, Clone, Through (what adding a property keeps) and Sound (the union of a
--     property against its type); Blocks here and below is about the blocks that an operation moves.
--   Mcp/ReturnValue: core/mcp/mcp_return_value.c, the values that tools return.
--   Mcp/Tool: core/mcp/mcp_tool.c, tools with their description and their call; Lifetime is
--     about the blocks of a tool, Schema about its description.
--   Mcp/Server: core/mcp/mcp_server.c, the registry with its hash table, and what is sent; Growing is
--     about a registration with memory for everything.
--   Mcp/Protocol: core/mcp/mcp_server_protocol.c, from a message to its reply, over Mcp/Replies,
--     Mcp/Listing (tools/list) and Mcp/Calling (tools/call). Reply is about which messages are answered,
--     Arguments about the check of the arguments, Calls about tools/call as a whole, Pages about
--     tools/list, with Walk and Bounds about a client that follows the cursors.
--   Mcp/Session: the messages that the transport hands to the server, set_send_callback and
--     set_transport (core/mcp/mcp_server.c), and the hello and notification messages
--     (core/mcp/mcp_server_protocol.c). Delivery is about what becomes of a
--     message, Draining about those that the worker still has when it is stopped.
--   Transport: core/transport/transport.c, the table of transport types, and a transport's
--     operations. Tcp is core/transport/hwio/tcp.c, with the answers of the sockets as arguments and
--     the receive thread over a list of what it meets; Unix is core/transport/hwio/unix.c.
--   Mlink: core/mlink.c. start_server and destroy_server are mlink_server_init and
--     mlink_server_destroy; create_tool and destroy_tool are those of mlink_tool_.
--     Lifecycle and Stopping are about the former, Wrapper about the latter, Life about a tool with
--     its property list. Values are the return values of include/mlink.h with their casts, Properties the
--     functions mlink_property_list_.
--   Device: core/mcp/mcp_server.c over core/posix/background_sched.c, with the receive thread, the
--     worker and the application as steps on one state; a worker that has left its loop picks
--     nothing any more. Log and Account are about every message that
--     has arrived, Closing about the worker's last rounds, InOrder about an allocator that grants
--     everything, Tools about the tools with such an allocator; for these, modules named Granting
--     show that no call changes the allocator's answers.
--   Worker: core/posix/background_sched.c, with one step for each hold of its mutex.
--   Queue: core/posix/queue.c, with one function for each hold of its lock; a slot stands at the
--     32-bit product that the code computes. Trace is about any
--     sequence of calls. Deadline is its calc_timeout.
--   Threads: core/posix/task.c, Mutex: core/posix/mutex.c, Clock: core/posix/sys_time.c, with what
--     pthread and the system's clock answer as arguments.
--   EventGroup: core/posix/event_group.c. A wait runs over a list of the wake-ups that come.
--   Schedule: core/posix/schedule.c, with the effects of the callbacks as a parameter.
-- The modules named Tests apply the theorems at concrete inputs, those of Mcp/Sample for core/mcp.
--
-- Bounds and fuel. `size_t` has 64 bits, pointers 8 bytes. The loop that doubles a capacity has 64
-- rounds, since a capacity leaves `size_t` after as many. The other loops recurse on the list or the
-- count that the code runs over. The write loop recurses on the answers of the socket, `worker_main`
-- and the run of a schedule on rounds, and a client's walk through tools/list on pages; as many as
-- there are bytes, tasks or tools, and one more, are enough, where no task posts another.
-- A wait and a receive thread, which end only when
-- the outside lets them, recurse on what they meet.
--
-- Not modelled: mlink_server_run (core/mlink.c), which sleeps for ever; the log; the example and the
-- tests. Failures inside cJSON while a document is built show only as a document that does not
-- print. A tool's callback is a pure function of its arguments. A task that another thread posts to
-- a running schedule counts as one that the callback before it posts. In Device a call is one step,
-- and so is the worker's answer to a message, so that two threads do not meet inside one.
pub mod Prelude
pub mod Memory
pub mod DynList
pub mod Json
pub mod Mcp
pub mod Transport
pub mod Worker
pub mod Queue
pub mod EventGroup
pub mod Deadline
pub mod Schedule
pub mod Threads
pub mod Mutex
pub mod Clock
pub mod Device
pub mod Mlink
