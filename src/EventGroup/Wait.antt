-- ===== src/EventGroup/Wait.antt =====
-- What a wait answers, and what later calls see of a set or cleared bit
-- (core/posix/event_group.c).
use Prim.Native.Nat.{bit_and, bit_or}
use mlink_device.Prelude.{
  ℕ, zero, suc, ◌-◌, ◌<◌, ◌==◌, ltb, not, ◌≡◌, ◌≢◌, refl, sym, ap, ◌∙◌, inl, inr, Bool, true, false,
  List, [], ◌∷◌, if◌then◌else◌, arith, Bool-cases,
}
use mlink_device.EventGroup.{
  EventGroup, cleared, set_bit, clear_bit, get_bit, Wake, woken, timed_out, Outcome, waiting,
  returned, is_met, take_bits, round, wait_loop, wait,
}
use mlink_device.EventGroup.Bits.{mask_byte, and-or, or-lt, and-clear, high_bit}

-- All of the bits, or at least one.
abbrev pub Holds : ℕ → Bool → ℕ → Type 0
Holds wait_bits true bits = bit_and bits wait_bits ≡ wait_bits
Holds wait_bits false bits = bit_and bits wait_bits ≢ 0

-- The group is a byte whenever the thread looks.
abbrev pub AreBytes : List Wake → Type 0
AreBytes [] = Unit
AreBytes (woken eg ∷ rest) = (eg.bits < 256) × AreBytes rest
AreBytes (timed_out eg ∷ rest) = (eg.bits < 256) × AreBytes rest

module _ (wait_bits clear_bits : ℕ) (wait_all polls : Bool) where
  -- A wait for bits ends when they hold, and then clears; without a timeout it asks once, and a
  -- timeout answers with what is set by then and clears nothing.
  pub data Waited : EventGroup → List Wake → Outcome → Type 0 where
    met :
        {eg : EventGroup} {wakes : List Wake}
        → Holds wait_bits wait_all eg.bits
        → Waited eg wakes (
            returned
              (bit_and eg.bits wait_bits)
              (record { bits = bit_and eg.bits (255 - clear_bits) }))
    polled :
        {eg : EventGroup} {wakes : List Wake}
        → ¬ Holds wait_bits wait_all eg.bits
        → polls ≡ true
        → Waited eg wakes (returned (bit_and eg.bits wait_bits) eg)
    expired :
        {eg eg' : EventGroup} {rest : List Wake}
        → ¬ Holds wait_bits wait_all eg.bits
        → polls ≡ false
        → Waited eg (timed_out eg' ∷ rest) (returned (bit_and eg'.bits wait_bits) eg')
    asleep :
        {eg : EventGroup}
        → ¬ Holds wait_bits wait_all eg.bits
        → polls ≡ false
        → Waited eg [] waiting
    again :
        {eg eg' : EventGroup} {rest : List Wake} {r : Outcome}
        → ¬ Holds wait_bits wait_all eg.bits
        → polls ≡ false
        → Waited eg' rest r
        → Waited eg (woken eg' ∷ rest) r

-- Masking with 0xFF changes no byte.
is_met_lem :
    (w : ℕ) (all : Bool) (bits : ℕ)
    → w < 256
    → bits < 256
    → is_met w all bits ≡ (if all then bit_and bits w == w else not (bit_and bits w == 0))
unfolding is_met
is_met_lem w all bits wb b = rw (mask_byte bits b, mask_byte w wb) refl

of_met :
    (w : ℕ) (all : Bool) (bits : ℕ)
    → (if all then bit_and bits w == w else not (bit_and bits w == 0)) ≡ true
    → Holds w all bits
of_met w true bits h = ground arith
of_met w false bits h = λ e. ground arith

of_unmet :
    (w : ℕ) (all : Bool) (bits : ℕ)
    → (if all then bit_and bits w == w else not (bit_and bits w == 0)) ≡ false
    → ¬ Holds w all bits
of_unmet w true bits h = λ e. ground arith
of_unmet w false bits h = λ e. e (ground arith)

cleared_lem : (bits c : ℕ) → c < 256 → cleared bits c ≡ bit_and bits (255 - c)
cleared_lem bits c cb = ap (λ m. bit_and bits (255 - m)) (mask_byte c cb)

nonzero : (c : ℕ) → (suc c == 0) ≡ false
nonzero c = ground arith

take_bits_lem :
    (w c : ℕ) (eg : EventGroup)
    → eg.bits < 256
    → c < 256
    → take_bits w c eg ≡ returned (bit_and eg.bits w) (record { bits = bit_and eg.bits (255 - c) })
unfolding take_bits
take_bits_lem w zero eg b cb = rw (mask_byte eg.bits b) refl
take_bits_lem w (suc c) eg b cb =
    rw (nonzero c, mask_byte eg.bits b, cleared_lem eg.bits (suc c) cb) refl

in_mask : (w : ℕ) → w < 256 → ltb 255 w ≡ false
in_mask w h = ground arith

module _ (w c : ℕ) (all polls : Bool) (wb : w < 256) (cb : c < 256) where
  unmet_round :
      (eg : EventGroup) (wakes : List Wake) (rest : Outcome)
      → ¬ Holds w all eg.bits
      → (polls ≡ false → Waited w c all polls eg wakes rest)
      → (p : Bool) → polls ≡ p
      → Waited w c all polls eg wakes (if p then returned (bit_and eg.bits w) eg else rest)
  unmet_round eg wakes rest unmet sleep true p = polled unmet p
  unmet_round eg wakes rest unmet sleep false p = sleep p

  -- One round, with what comes of a sleep.
  round-Waited :
      (eg : EventGroup) (wakes : List Wake) (rest : Outcome)
      → eg.bits < 256
      → (¬ Holds w all eg.bits → polls ≡ false → Waited w c all polls eg wakes rest)
      → Waited w c all polls eg wakes (round w c all polls eg rest)
  round-Waited eg wakes rest b sleep = elim (Bool-cases (is_met w all eg.bits)) [
    | inl h ↦
        rw (h, take_bits_lem w c eg b cb)
          (met (of_met w all eg.bits (sym (is_met_lem w all eg.bits wb b) ∙ h)))
    | inr h ↦
        let unmet = of_unmet w all eg.bits (sym (is_met_lem w all eg.bits wb b) ∙ h) in
        rw (h, mask_byte eg.bits b) (unmet_round eg wakes rest unmet (sleep unmet) polls refl)
  ]

  wait_loop-Waited :
      (eg : EventGroup) (wakes : List Wake)
      → eg.bits < 256
      → AreBytes wakes
      → Waited w c all polls eg wakes (wait_loop w c all polls eg wakes)
  unfolding wait_loop
  wait_loop-Waited eg [] b bs = round-Waited eg [] waiting b asleep
  wait_loop-Waited eg (timed_out eg' ∷ rest) b bs = round-Waited eg _ _ b expired
  wait_loop-Waited eg (woken eg' ∷ rest) b bs =
      round-Waited eg _ _ b (λ u p. again u p (wait_loop-Waited eg' rest bs.0 bs.1))

  -- For bits in a byte, and a group that is a byte whenever the thread looks: a wait goes on from
  -- wake-up to wake-up as long as its bits do not hold (all of them, or at least one); it ends
  -- once they do, answering those that are set and clearing what it was asked to clear; without a
  -- timeout it asks once; and when the time is over it answers what is set by then and clears
  -- nothing.
  pub wait-Waited :
      (eg : EventGroup) (wakes : List Wake)
      → eg.bits < 256
      → AreBytes wakes
      → Waited w c all polls eg wakes (wait w c all polls eg wakes)
  unfolding wait
  wait-Waited eg wakes b bs = rw (in_mask w wb) (wait_loop-Waited eg wakes b bs)

set_bit_lem :
    (eg : EventGroup) (b : ℕ) → b < 256 → set_bit eg b ≡ record { bits = bit_or eg.bits b }
unfolding set_bit
set_bit_lem eg b k = rw (in_mask b k, mask_byte b k) refl

-- A wait that holds at once asks for no wake-up.
wait_loop_met :
    (w c : ℕ) (all polls : Bool) (eg : EventGroup) (wakes : List Wake)
    → is_met w all eg.bits ≡ true
    → wait_loop w c all polls eg wakes ≡ take_bits w c eg
unfolding wait_loop
wait_loop_met w c all polls eg [] h = rw h refl
wait_loop_met w c all polls eg (timed_out eg' ∷ rest) h = rw h refl
wait_loop_met w c all polls eg (woken eg' ∷ rest) h = rw h refl

met_self : (b : ℕ) (all : Bool) → b ≢ 0 → (if all then b == b else not (b == 0)) ≡ true
met_self b true n = ground arith
met_self b false n = ground (arith, n)

set-met : (a b : ℕ) (all : Bool) → a < 256 → b < 256 → b ≢ 0 → is_met b all (bit_or a b) ≡ true
set-met a b all h k n =
    is_met_lem b all (bit_or a b) k (or-lt a b h k) ∙ rw (and-or a b h k) (met_self b all n)

wait-set_bit :
    (a b c : ℕ) (all polls : Bool) (wakes : List Wake)
    → a < 256
    → b < 256
    → b ≢ 0
    → c < 256
    → wait b c all polls (record { bits = bit_or a b }) wakes
      ≡ returned b (record { bits = bit_and (bit_or a b) (255 - c) })
unfolding wait
wait-set_bit a b c all polls wakes h k n m = rw (in_mask b k) (
    wait_loop_met b c all polls (record { bits = bit_or a b }) wakes (set-met a b all h k n)
    ∙ take_bits_lem b c (record { bits = bit_or a b }) (or-lt a b h k) m
    ∙ ap (λ v. returned v (record { bits = bit_and (bit_or a b) (255 - c) })) (and-or a b h k))

get_bit_lem :
    (eg : EventGroup) (b v : ℕ)
    → b < 256
    → bit_and eg.bits b ≡ v
    → get_bit eg b ≡ (if ltb b 128 then v else 0)
unfolding get_bit
get_bit_lem eg b v k e = rw (high_bit b k, e) (flip (ltb b 128))
  where
    flip : (t : Bool) → (if not t then 0 else v) ≡ (if t then v else 0)
    flip true = refl
    flip false = refl

get-clear_bit : (eg : EventGroup) (b : ℕ) → eg.bits < 256 → b < 256 → get_bit (clear_bit eg b) b ≡ 0
unfolding clear_bit
get-clear_bit eg b h k =
    get_bit_lem (clear_bit eg b) b 0 k
      (rw (in_mask b k, cleared_lem eg.bits b k) (and-clear eg.bits b h k))
    ∙ same (ltb b 128)
  where
    same : (t : Bool) → ◌≡◌ {A = ℕ} (if t then 0 else 0) 0
    same true = refl
    same false = refl

-- For a group and a non-zero set of bits in a byte: behind `event_group_set_bit` a wait for those
-- bits, all or any, with any timeout, is met at once and answers them; `event_group_get_bit`
-- answers them too if they lie below 0x80, and 0 otherwise; and behind `event_group_clear_bit` it
-- answers 0.
pub set_bit-seen :
    (eg : EventGroup) (b c : ℕ) (all polls : Bool) (wakes : List Wake)
    → eg.bits < 256
    → b < 256
    → b ≢ 0
    → c < 256
    → (wait b c all polls (set_bit eg b) wakes
        ≡ returned b (record { bits = bit_and (bit_or eg.bits b) (255 - c) }))
      × (get_bit (set_bit eg b) b ≡ (if ltb b 128 then b else 0))
      × (get_bit (clear_bit eg b) b ≡ 0)
set_bit-seen eg b c all polls wakes h k n m = (
  rw (set_bit_lem eg b k) (wait-set_bit eg.bits b c all polls wakes h k n m),
  rw (set_bit_lem eg b k)
      (get_bit_lem (record { bits = bit_or eg.bits b }) b b k (and-or eg.bits b h k)),
  get-clear_bit eg b h k,
)
