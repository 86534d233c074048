-- ===== src/Memory/Granting.antt =====
-- Computations that leave the allocator's answers to later requests as they are.
use mlink_device.Prelude.{
  ℕ, ◌≡◌, refl, ap, ◌∙◌, Bool, true, false, Option, none, some, if◌then◌else◌, arith,
}
use mlink_device.Prelude.Bytes.{Bytes}
use mlink_device.Memory.{Heap, M, pure, ◌>>=◌, ◌>>◌, malloc, realloc, strdup}
use mlink_device.Memory as Memory

-- An allocator that grants everything.
abbrev pub HasMemory : Heap → Type 0
HasMemory h = (n : ℕ) → h.grant n ≡ true

abbrev pub KeepsGrant : {A : Type 0} → M A → Type 0
KeepsGrant m = (h : Heap) → (m h).1.grant ≡ h.grant

pub HasMemory-kept : (h h' : Heap) → h'.grant ≡ h.grant → HasMemory h → HasMemory h'
HasMemory-kept h h' e m = λ n. ap (λ grant. grant n) e ∙ m n

pub if-KeepsGrant :
    {A : Type 0} (b : Bool) (m n : M A)
    → KeepsGrant m
    → KeepsGrant n
    → KeepsGrant (if b then m else n)
if-KeepsGrant true m n k l = k
if-KeepsGrant false m n k l = l

pub malloc-KeepsGrant : KeepsGrant malloc
unfolding malloc
malloc-KeepsGrant h = ground arith

pub free-KeepsGrant : {A : Type 0} (p : Option A) → KeepsGrant (Memory.free p)
unfolding Memory.free
free-KeepsGrant none h = refl
free-KeepsGrant (some a) h = refl

-- A block that is given back leaves the next answer as it is.
pub free-answer :
    {A : Type 0} (p : Option A) (h : Heap)
    → (Memory.free p h).1.grant (Memory.free p h).1.next ≡ h.grant h.next
unfolding Memory.free
free-answer none h = refl
free-answer (some a) h = refl

pub realloc-KeepsGrant : {A : Type 0} (p : Option A) → KeepsGrant (realloc p)
unfolding realloc
realloc-KeepsGrant none = malloc-KeepsGrant
realloc-KeepsGrant (some a) = λ h. ground arith

pub strdup-KeepsGrant : (text : Option Bytes) → KeepsGrant (strdup text)
unfolding strdup
strdup-KeepsGrant none h = refl
strdup-KeepsGrant (some text) h = malloc-KeepsGrant h

pub strdup-granted : (text : Option Bytes) (h : Heap) → HasMemory h → (strdup text h).0 ≡ text
unfolding strdup malloc
strdup-granted none h m = refl
strdup-granted (some text) h m = rw (m h.next) refl

pub realloc-granted : {A : Type 0} (p : Option A) (h : Heap) → HasMemory h → (realloc p h).0 ≡ true
unfolding realloc malloc
realloc-granted none h m = rw (m h.next) refl
realloc-granted (some a) h m = rw (m h.next) refl
