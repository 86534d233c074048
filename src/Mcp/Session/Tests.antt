-- ===== src/Mcp/Session/Tests.antt =====
-- The theorem on the messages of a transport at a server with an idle worker.
use mlink_device.Prelude.{some, [], ◌∷◌}
use mlink_device.Prelude.Bytes.{bytes}
use mlink_device.Worker.{empty}
use mlink_device.Mcp.Sample.{env, hashed, heap}
use mlink_device.Mcp.Session.{c_string, receive}
use mlink_device.Mcp.Session.Delivery.{Delivery, receive-Delivery}

receive-Delivery_example :
    Delivery env hashed
      (some empty)
      (c_string (bytes "{}"))
      heap
      (receive env hashed (some empty) (some (bytes "{}")) heap)
receive-Delivery_example = receive-Delivery env hashed (some empty) 123 (125 ∷ []) heap
