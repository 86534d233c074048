-- ===== src/Prelude/Bytes.antt =====
-- C strings: the bytes in front of the terminating NUL.
use Prim.Native.Char.{code}
use Prim.Native.String.{String}
use Prim.Native.Nat.{ℕ, compare, Ordering}
use mathlib.Core.Path.{◌≡◌, refl}
use mathlib.Core.Logic.{◌↔◌}
use mathlib.Core.Bool.{Bool, true, false, ◌&&◌}
use mathlib.Core.List.{List, [], ◌∷◌}
use native.Mathlib.Omega.{arith}

abbrev pub Bytes : Type 0
Bytes = List ℕ

-- The bytes of an ASCII literal.
abbrev pub bytes : String → Bytes
bytes String.[] = []
bytes (String.◌∷◌ c s) = code c ∷ bytes s

-- `strcmp(a, b) == 0`.
unfoldable pub strcmp_eq : Bytes → Bytes → Bool
strcmp_eq [] [] = true
strcmp_eq [] (y ∷ ys) = false
strcmp_eq (x ∷ xs) [] = false
strcmp_eq (x ∷ xs) (y ∷ ys) =
    (elim (compare x y) [ Ordering.eq ↦ true | _ ↦ false ]) && strcmp_eq xs ys

pub strcmp_eq_sound : (a b : Bytes) → strcmp_eq a b ≡ true → a ≡ b
unfolding strcmp_eq
strcmp_eq_sound [] [] h = refl
strcmp_eq_sound [] (y ∷ ys) h = ground arith
strcmp_eq_sound (x ∷ xs) [] h = ground arith
strcmp_eq_sound (x ∷ xs) (y ∷ ys) h = ground (arith, strcmp_eq_sound xs ys)

pub strcmp_eq_refl : (a : Bytes) → strcmp_eq a a ≡ true
unfolding strcmp_eq
strcmp_eq_refl [] = refl
strcmp_eq_refl (x ∷ xs) = ground (arith, strcmp_eq_refl xs)

pub strcmp_eq_iff : (a b : Bytes) → (strcmp_eq a b ≡ true) ↔ (a ≡ b)
strcmp_eq_iff a b = (strcmp_eq_sound a b, λ e. ground (arith, strcmp_eq_refl a))

pub strcmp_eq_comm : (a b : Bytes) → strcmp_eq a b ≡ strcmp_eq b a
unfolding strcmp_eq
strcmp_eq_comm [] [] = refl
strcmp_eq_comm [] (y ∷ ys) = refl
strcmp_eq_comm (x ∷ xs) [] = refl
strcmp_eq_comm (x ∷ xs) (y ∷ ys) = ground (arith, strcmp_eq_comm xs ys)
