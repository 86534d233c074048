-- ===== src/Memory.antt =====
-- The C allocator as the program sees it: `malloc`, `realloc` and `free` of the C library, and
-- `utils_strdup` of core/posix/utils.c over them. Which requests are granted is not the program's
-- to say: `grant n` is the allocator's answer to the n-th request, and theorems hold for each.
-- `allocs` and `frees` count the blocks handed out and given back.
pub mod Granting
use mlink_device.Prelude.{ℕ, ◌+◌, Bool, true, false, Option, none, some, if◌then◌else◌}
use mlink_device.Prelude.Bytes.{Bytes}

pub record Heap : Type 0 where
  pub grant : ℕ → Bool
  pub next : ℕ
  pub allocs : ℕ
  pub frees : ℕ

-- A computation that may allocate.
abbrev pub M : Type 0 → Type 0
M A = Heap → A × Heap

abbrev pub pure : {A : Type 0} → A → M A
pure a h = (a, h)

infixl 5 ◌>>=◌ ◌>>◌
abbrev pub ◌>>=◌ : {A B : Type 0} → M A → (A → M B) → M B
◌>>=◌ m f h = f (m h).0 (m h).1

abbrev pub ◌>>◌ : {B : Type 0} → M (Unit {0}) → M B → M B
◌>>◌ m k h = k (m h).1

-- Whether the request is granted.
unfoldable pub malloc : M Bool
malloc h =
    if h.grant h.next
    then (true, record h { next = h.next + 1; allocs = h.allocs + 1 })
    else (false, record h { next = h.next + 1 })

-- `free(NULL)` does nothing.
unfoldable pub free : {A : Type 0} → Option A → M (Unit {0})
free none h = (tt, h)
free (some a) h = (tt, record h { frees = h.frees + 1 })

-- `realloc` of a block gives the old one back if it is granted, and is `malloc` on NULL.
unfoldable pub realloc : {A : Type 0} → Option A → M Bool
realloc none h = malloc h
realloc (some a) h =
    if h.grant h.next
    then (true, record h { next = h.next + 1; allocs = h.allocs + 1; frees = h.frees + 1 })
    else (false, record h { next = h.next + 1 })

unfoldable pub strdup : Option Bytes → M (Option Bytes)
unfolding malloc
strdup none = pure none
strdup (some s) = malloc >>= λ granted. pure (if granted then some s else none)
