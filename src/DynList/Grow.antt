-- ===== src/DynList/Grow.antt =====
-- The growth of the capacity (`list_reserve` in core/posix/list.c).
use native.Mathlib.Nat.{mul-div_cancel, pow-suc, mul_comm, mul_assoc, mod-eq_of_lt}
use mlink_device.Prelude.{ℕ, zero, suc, ◌+◌, ◌*◌, ◌%◌, ◌^◌, ◌≤◌, ◌<◌, ◌≡◌, refl, sym, arith}
use mlink_device.DynList.{size_mod, grow, first_capacity, new_capacity, slot_count}

double_pow : (c f : ℕ) → c * 2 ^ suc f ≡ c * 2 * 2 ^ f
double_pow c f = rw (pow-suc 2 f) (rw (mul_comm (2 ^ f) 2) (sym (mul_assoc c 2 (2 ^ f))))

-- Below 2^63 one doubling does not wrap.
double_exact : (c r : ℕ) → r ≤ 2 ^ 63 → c < r → (c * 2) % size_mod ≡ c * 2
double_exact c r small less = mod-eq_of_lt (omega arith)

pub grow_enough :
    (fuel capacity required : ℕ)
    → required ≤ 2 ^ 63
    → required ≤ capacity * 2 ^ fuel
    → required ≤ grow fuel capacity required
unfolding grow
grow_enough zero capacity required small enough = omega arith
grow_enough (suc fuel) capacity required small enough = ground (
  arith,
  grow_enough fuel (capacity * 2) required small,
  double_exact capacity required small,
  double_pow capacity fuel,
)

-- For a capacity below 2 ^ 63 and a request of at most 2 ^ 63, the 64 rounds are enough: the loop
-- of `list_reserve` ends by its test, at a capacity that serves the request.
pub required-le-new_capacity :
    (capacity required : ℕ)
    → capacity < 2 ^ 63
    → required ≤ 2 ^ 63
    → required ≤ new_capacity capacity required
unfolding new_capacity
required-le-new_capacity capacity required c r =
    grow_enough 64 (first_capacity capacity) required r (ground arith)

pub grow_done :
    (fuel capacity required : ℕ) → required ≤ capacity → grow fuel capacity required ≡ capacity
unfolding grow
grow_done zero capacity required h = refl
grow_done (suc fuel) capacity required h = ground arith

-- A list that grows by one item starts at 4 and doubles.
pub new_capacity_step :
    (capacity : ℕ)
    → capacity * 2 + 4 < size_mod
    → new_capacity capacity (capacity + 1) ≡ first_capacity capacity
unfolding new_capacity
new_capacity_step capacity small =
    grow_done 64 (first_capacity capacity) (capacity + 1) (ground arith)

pub slot_count_exact :
    (capacity item_size : ℕ)
    → 0 < item_size
    → capacity * item_size < size_mod
    → slot_count capacity item_size ≡ capacity
slot_count_exact capacity item_size positive fits =
    rw (mod-eq_of_lt fits) (mul-div_cancel capacity positive)
