-- ===== src/EventGroup.antt =====
-- core/posix/event_group.c: eight bits that threads set, clear and wait for.
-- A parameter of type `unsigned char` is a number below 256, and so is `bits`; `~` of such a mask,
-- cut to the byte that it is combined with, is its difference from 255.
pub mod Bits
pub mod Wait
mod Tests
use Prim.Native.Nat.{bit_and, bit_or}
use mlink_device.Prelude.{
  ℕ, ◌-◌, ◌==◌, ltb, not, Bool, Option, none, some, List, [], ◌∷◌, if◌then◌else◌,
}
use mlink_device.Memory.{M, pure, ◌>>=◌, malloc}
use mlink_device.Memory as Memory

pub record EventGroup : Type 0 where
  pub bits : ℕ

abbrev pub bits_mask : ℕ
bits_mask = 0xFF

-- `mutex` and `cond` say whether the two `pthread` calls succeed.
unfoldable pub create : Bool → Bool → M (Option EventGroup)
create mutex cond = malloc >>= λ granted.
    if granted
    then (if mutex
        then (if cond
            then pure (some (record { bits = 0 }))
            else (Memory.free (some (tt {0})) >>= λ u. pure none))
        else (Memory.free (some (tt {0})) >>= λ u. pure none))
    else pure none

-- `event_group_delete`; `none` is NULL.
unfoldable pub delete : Option EventGroup → M (Unit {0})
delete none = pure tt
delete (some eg) = Memory.free (some eg)

-- `event_bit & ~BITS_MASK`
abbrev pub is_out_of_mask : ℕ → Bool
is_out_of_mask event_bit = ltb bits_mask event_bit

unfoldable pub set_bit : EventGroup → ℕ → EventGroup
set_bit eg event_bit =
    if is_out_of_mask event_bit
    then eg
    else record eg { bits = bit_or eg.bits (bit_and event_bit bits_mask) }

abbrev pub cleared : ℕ → ℕ → ℕ
cleared bits clear_bits = bit_and bits (bits_mask - bit_and clear_bits bits_mask)

unfoldable pub clear_bit : EventGroup → ℕ → EventGroup
clear_bit eg event_bit =
    if is_out_of_mask event_bit then eg else record eg { bits = cleared eg.bits event_bit }

-- `event_bit & 0x80`
unfoldable pub get_bit : EventGroup → ℕ → ℕ
get_bit eg event_bit = if not (bit_and event_bit 0x80 == 0) then 0 else bit_and eg.bits event_bit

-- The return of `pthread_cond_timedwait`, with the group as the thread finds it.
pub data Wake : Type 0 where
  woken : EventGroup → Wake
  timed_out : EventGroup → Wake

pub data Outcome : Type 0 where
  waiting : Outcome
  returned : ℕ → EventGroup → Outcome

unfoldable pub is_met : ℕ → Bool → ℕ → Bool
is_met wait_bits wait_all bits =
    let matched = bit_and (bit_and bits bits_mask) wait_bits in
    if wait_all then matched == bit_and wait_bits bits_mask else not (matched == 0)

unfoldable pub take_bits : ℕ → ℕ → EventGroup → Outcome
take_bits wait_bits clear_bits eg =
    returned (bit_and (bit_and eg.bits bits_mask) wait_bits)
      (if clear_bits == 0 then eg else record eg { bits = cleared eg.bits clear_bits })

-- One round; `rest` is what comes of a sleep.
abbrev pub round : ℕ → ℕ → Bool → Bool → EventGroup → Outcome → Outcome
round wait_bits clear_bits wait_all polls eg rest =
    if is_met wait_bits wait_all eg.bits
    then take_bits wait_bits clear_bits eg
    else if polls
    then returned (bit_and (bit_and eg.bits bits_mask) wait_bits) eg
    else rest

-- The loop, over the wake-ups that come. `polls` says that `timeout_ms` is 0.
unfoldable pub wait_loop : ℕ → ℕ → Bool → Bool → EventGroup → List Wake → Outcome
unfolding is_met take_bits
wait_loop wait_bits clear_bits wait_all polls eg [] =
    round wait_bits clear_bits wait_all polls eg waiting
wait_loop wait_bits clear_bits wait_all polls eg (timed_out eg' ∷ rest) =
    round wait_bits clear_bits wait_all polls eg (returned (bit_and eg'.bits wait_bits) eg')
wait_loop wait_bits clear_bits wait_all polls eg (woken eg' ∷ rest) =
    let again = wait_loop wait_bits clear_bits wait_all polls eg' rest in
    round wait_bits clear_bits wait_all polls eg again

unfoldable pub wait : ℕ → ℕ → Bool → Bool → EventGroup → List Wake → Outcome
wait wait_bits clear_bits wait_all polls eg wakes =
    if is_out_of_mask wait_bits
    then returned 0 eg
    else wait_loop wait_bits clear_bits wait_all polls eg wakes
