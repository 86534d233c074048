-- ===== src/EventGroup/Bits.antt =====
-- Bytes under `&` and `|`, as core/posix/event_group.c combines them.
use Prim.Native.Nat.{bit_and, bit_or}
use mlink_device.Prelude.{
  ℕ, zero, suc, ◌+◌, ◌-◌, ◌<◌, ◌==◌, ◌≡◌, refl, ap, ◌∙◌, ltb, not, Bool, true, false, if◌then◌else◌,
  arith,
}

-- The test at `start` and the numbers that follow it.
scan : (ℕ → Bool) → ℕ → ℕ → Bool
scan test start zero = true
scan test start (suc left) = if test start then scan test (suc start) left else false

test-scan :
    (test : ℕ → Bool) (left start offset : ℕ)
    → offset < left
    → scan test start left ≡ true
    → test (start + offset) ≡ true
unfolding scan
test-scan test zero start offset within passed = absurd (omega arith)
test-scan test (suc left) start zero within passed = ground arith
test-scan test (suc left) start (suc offset) within passed =
    ground (arith, test-scan test left (suc start) offset)

-- A test that every byte passes, and one that every two bytes do.
abbrev ByteFact : (ℕ → Bool) → Type 0
ByteFact test = scan test 0 256 ≡ true

abbrev PairFact : (ℕ → ℕ → Bool) → Type 0
PairFact test = ByteFact (λ x. scan (test x) 0 256)

at_byte : (test : ℕ → Bool) → ByteFact test → (x : ℕ) → x < 256 → test x ≡ true
at_byte test fact x byte =
    let same : x ≡ 0 + x = omega arith in ap test same ∙ test-scan test 256 0 x byte fact

at_pair : (test : ℕ → ℕ → Bool) → PairFact test → (x y : ℕ) → x < 256 → y < 256 → test x y ≡ true
at_pair test fact x y byte byte' =
    at_byte (test x) (at_byte (λ z. scan (test z) 0 256) fact x byte) y byte'

abbrev same_with_mask : ℕ → Bool
same_with_mask x = bit_and x 255 == x

abbrev mask_reads_union : ℕ → ℕ → Bool
mask_reads_union x y = bit_and (bit_or x y) y == y

abbrev union_is_byte : ℕ → ℕ → Bool
union_is_byte x y = ltb (bit_or x y) 256

abbrev rest_misses : ℕ → ℕ → Bool
rest_misses x y = bit_and (bit_and x (255 - y)) y == 0

abbrev shows_high_bit : ℕ → Bool
shows_high_bit x = if bit_and x 128 == 0 then ltb x 128 else not (ltb x 128)

mask_fact : ByteFact same_with_mask
unfolding scan
mask_fact = refl

union_fact : PairFact mask_reads_union
unfolding scan
union_fact = refl

byte_fact : PairFact union_is_byte
unfolding scan
byte_fact = refl

rest_fact : PairFact rest_misses
unfolding scan
rest_fact = refl

high_fact : ByteFact shows_high_bit
unfolding scan
high_fact = refl

pub mask_byte : (a : ℕ) → a < 256 → bit_and a 255 ≡ a
mask_byte a h = ground (arith, at_byte same_with_mask mask_fact a h)

pub and-or : (a b : ℕ) → a < 256 → b < 256 → bit_and (bit_or a b) b ≡ b
and-or a b ha hb = ground (arith, at_pair mask_reads_union union_fact a b ha hb)

pub or-lt : (a b : ℕ) → a < 256 → b < 256 → bit_or a b < 256
or-lt a b ha hb = ground (arith, at_pair union_is_byte byte_fact a b ha hb)

pub and-clear : (a b : ℕ) → a < 256 → b < 256 → bit_and (bit_and a (255 - b)) b ≡ 0
and-clear a b ha hb = ground (arith, at_pair rest_misses rest_fact a b ha hb)

pub high_bit : (a : ℕ) → a < 256 → (bit_and a 128 == 0) ≡ ltb a 128
high_bit a h = ground (arith, at_byte shows_high_bit high_fact a h)
