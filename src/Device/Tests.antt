-- ===== src/Device/Tests.antt =====
-- The theorems on a device that one message reaches, and that sends one notification.
use mlink_device.Prelude.{◌≡◌, refl, none, some, [], ◌∷◌, ◌++◌, List, suc, length, arith, ◌+◌}
use mlink_device.Prelude.Bytes.{Bytes, bytes}
use mlink_device.Memory.{malloc}
use mlink_device.Worker.{post, enqueue, stop}
use mlink_device.Mcp.Session.{c_string, receive}
use mlink_device.Mcp.Sample.{env, hashed, heap, drive, hashed-IsConsistent}
use mlink_device.Mcp.Sample as Sample
use mlink_device.Mcp.Tool.{Tool}
use mlink_device.Mcp.Server.Growing.{Ready, HasRoom}
use mlink_device.Device.Tools.{registrations, Found, Run-Found}
use mlink_device.Device.{
  Device, start, arrive, notify, register_tool, registers, work, Run, started, arrives, acts,
  notifies,
}
use mlink_device.Device.Account.{Account, Run-Account}
use mlink_device.Device.Closing.{Finished, stop-Finished}
use mlink_device.Device.InOrder.{InOrder, stop-InOrder}

abbrev stop_tool : Tool
stop_tool = Sample.stop

abbrev reached : Device
reached = arrive env (start hashed heap) 123 (125 ∷ [])

abbrev notified : Device
notified = notify env reached none (some (bytes "car")) (some (bytes "ready"))

abbrev arrived : List Bytes
arrived = [] ++ c_string (123 ∷ 125 ∷ []) ∷ []

abbrev notified_run : Run env hashed heap arrived notified
notified_run =
    acts (arrives 123 (125 ∷ []) started)
      (notifies reached none (some (bytes "car")) (some (bytes "ready")))

idle : notified.worker.taken ≡ none
unfolding notify arrive receive post malloc enqueue
idle = refl

Run-Account_example : Account env notified_run
Run-Account_example = Run-Account env hashed heap arrived notified notified_run

stop-Finished_example : Finished env hashed heap arrived notified (
    work env
      (suc (length notified.worker.queue))
      (record notified { worker = stop notified.worker }))
unfolding notify arrive
stop-Finished_example = stop-Finished env hashed heap arrived notified notified_run refl idle

stop-InOrder_example : InOrder env hashed heap notified_run (
    work env
      (suc (length notified.worker.queue))
      (record notified { worker = stop notified.worker }))
unfolding notify arrive
stop-InOrder_example =
    stop-InOrder env hashed heap arrived notified (λ n. refl) notified_run refl idle

hashed-Ready : Ready hashed
hashed-Ready = record { consistent = hashed-IsConsistent; tight = omega arith; sized = refl }

abbrev with_stop_run : Run env hashed heap arrived (register_tool notified stop_tool)
with_stop_run = acts notified_run (registers notified stop_tool)

room : HasRoom (hashed.tools.count + registrations with_stop_run)
unfolding registrations
room = omega arith

Run-Found_example :
    Found hashed drive
      (register_tool notified stop_tool).server
      (register_tool (register_tool notified stop_tool) drive).server
Run-Found_example =
    Run-Found env hashed heap arrived (register_tool notified stop_tool) drive (λ n. refl)
      hashed-Ready with_stop_run room
