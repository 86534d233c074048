-- ===== src/EventGroup/Tests.antt =====
-- The theorems on core/posix/event_group.c at a group with two bits set.
use Prim.Native.Nat.{bit_and, bit_or}
use mlink_device.Prelude.{◌-◌, ltb, ◌≡◌, true, false, List, [], ◌∷◌, if◌then◌else◌, arith}
use mlink_device.EventGroup.{
  EventGroup, Wake, woken, timed_out, returned, set_bit, clear_bit, get_bit, wait,
}
use mlink_device.EventGroup.Wait.{Waited, wait-Waited, set_bit-seen}

abbrev group : EventGroup
group = record { bits = 5 }

abbrev wakes : List Wake
wakes = woken (record { bits = 7 }) ∷ timed_out (record { bits = 8 }) ∷ []

wait-Waited_example : Waited 10 2 true false group wakes (wait 10 2 true false group wakes)
wait-Waited_example =
    wait-Waited 10 2 true false (omega arith) (omega arith) group wakes (omega arith)
      (omega arith, (omega arith, tt))

set_bit-seen_example :
    (wait 128 1 true false (set_bit group 128) wakes
      ≡ returned 128 (record { bits = bit_and (bit_or 5 128) (255 - 1) }))
    × (get_bit (set_bit group 128) 128 ≡ (if ltb 128 128 then 128 else 0))
    × (get_bit (clear_bit group 128) 128 ≡ 0)
set_bit-seen_example =
    set_bit-seen group 128 1 true false wakes (omega arith) (omega arith) (λ e. ground arith)
      (omega arith)
