-- ===== src/Prelude/Bytes.antt =====
-- Byte strings: big-endian words, and the order in which byte strings are compared.
use zerosats.Prelude.Tests.{ltb, ◌==◌, if◌then◌else◌}
use zerosats.Prelude.Lists.{length, length-append}
use Prim.Native.Nat.{ℕ, zero, suc, ◌+◌, ◌*◌, ◌/◌, ◌%◌, ◌^◌, ◌<◌}
use mathlib.Core.Path.{◌≡◌, refl, sym, ap, ◌∙◌}
use mathlib.Core.Logic.{◌↔◌}
use mathlib.Core.Bool.{Bool, true, false, ◌&&◌}
use mathlib.Core.List.{List, [], ◌∷◌, ◌++◌}
use native.Mathlib.Omega.{arith}

abbrev pub Bytes : Type 0
Bytes = List ℕ

-- `to_be_bytes`, of a word of `n` bytes
abbrev pub be_bytes : ℕ → ℕ → Bytes
be_bytes zero v = []
be_bytes (suc n) v = be_bytes n (v / 256) ++ v % 256 ∷ []

-- `from_be_bytes`, with the value of the bytes that were read before
abbrev from_be_acc : ℕ → Bytes → ℕ
from_be_acc acc [] = acc
from_be_acc acc (b ∷ bs) = from_be_acc (acc * 256 + b) bs

abbrev pub from_be_bytes : Bytes → ℕ
from_be_bytes bs = from_be_acc 0 bs

pub length-be_bytes : (n v : ℕ) → length (be_bytes n v) ≡ n
length-be_bytes zero v = refl
length-be_bytes (suc n) v =
    length-append (be_bytes n (v / 256)) (v % 256 ∷ []) ∙ omega (arith, length-be_bytes n (v / 256))

from_be_acc-snoc :
    (acc b : ℕ) (bs : Bytes) → from_be_acc acc (bs ++ b ∷ []) ≡ from_be_acc acc bs * 256 + b
from_be_acc-snoc acc b [] = refl
from_be_acc-snoc acc b (c ∷ bs) = from_be_acc-snoc (acc * 256 + c) b bs

div_bound : (n v : ℕ) → v < 256 ^ suc n → v / 256 < 256 ^ n
div_bound n v h = omega arith

pub from_be_bytes-be_bytes : (n v : ℕ) → v < 256 ^ n → from_be_bytes (be_bytes n v) ≡ v
from_be_bytes-be_bytes zero v h = omega arith
from_be_bytes-be_bytes (suc n) v h =
    from_be_acc-snoc 0 (v % 256) (be_bytes n (v / 256))
    ∙ omega (arith, from_be_bytes-be_bytes n (v / 256) (div_bound n v h))

abbrev pub bytes_eq : Bytes → Bytes → Bool
bytes_eq [] [] = true
bytes_eq [] (y ∷ ys) = false
bytes_eq (x ∷ xs) [] = false
bytes_eq (x ∷ xs) (y ∷ ys) = x == y && bytes_eq xs ys

-- Lexicographic order, a proper prefix first
abbrev pub bytes_lt : Bytes → Bytes → Bool
bytes_lt [] [] = false
bytes_lt [] (y ∷ ys) = true
bytes_lt (x ∷ xs) [] = false
bytes_lt (x ∷ xs) (y ∷ ys) = let rest = bytes_lt xs ys in if x == y then rest else ltb x y

pub bytes_eq_iff : (xs ys : Bytes) → (bytes_eq xs ys ≡ true) ↔ (xs ≡ ys)
bytes_eq_iff [] [] = ground arith
bytes_eq_iff [] (y ∷ ys) = ground arith
bytes_eq_iff (x ∷ xs) [] = ground arith
bytes_eq_iff (x ∷ xs) (y ∷ ys) = ground (arith, bytes_eq_iff xs ys)

pub bytes_eq_refl : (xs : Bytes) → bytes_eq xs xs ≡ true
bytes_eq_refl xs = (bytes_eq_iff xs xs).1 refl

pub bytes_lt_irrefl : (xs : Bytes) → bytes_lt xs xs ≡ false
bytes_lt_irrefl [] = refl
bytes_lt_irrefl (x ∷ xs) = ground (arith, bytes_lt_irrefl xs)

pub bytes_lt_trans :
    (xs ys zs : Bytes) → bytes_lt xs ys ≡ true → bytes_lt ys zs ≡ true → bytes_lt xs zs ≡ true
bytes_lt_trans [] [] [] p q = cc
bytes_lt_trans [] (y ∷ ys) [] p q = cc
bytes_lt_trans [] ys (z ∷ zs) p q = refl
bytes_lt_trans (x ∷ xs) [] zs p q = cc
bytes_lt_trans (x ∷ xs) (y ∷ ys) [] p q = cc
bytes_lt_trans (x ∷ xs) (y ∷ ys) (z ∷ zs) p q = ground (arith, bytes_lt_trans xs ys zs)

-- Two different byte strings are in one of the two orders.
pub bytes_lt_total :
    (xs ys : Bytes) → bytes_lt xs ys ≡ false → bytes_eq xs ys ≡ false → bytes_lt ys xs ≡ true
bytes_lt_total [] [] p q = cc
bytes_lt_total [] (y ∷ ys) p q = cc
bytes_lt_total (x ∷ xs) [] p q = refl
bytes_lt_total (x ∷ xs) (y ∷ ys) p q = ground (arith, bytes_lt_total xs ys)

-- Behind two strings of one length, what follows counts only where the strings are equal.
pub bytes_lt-append :
    (xs ys us vs : Bytes)
    → length xs ≡ length ys
    → bytes_lt (xs ++ us) (ys ++ vs) ≡ (if bytes_eq xs ys then bytes_lt us vs else bytes_lt xs ys)
bytes_lt-append [] [] us vs h = refl
bytes_lt-append [] (y ∷ ys) us vs h = absurd (omega arith)
bytes_lt-append (x ∷ xs) [] us vs h = absurd (omega arith)
bytes_lt-append (x ∷ xs) (y ∷ ys) us vs h = ground (arith, bytes_lt-append xs ys us vs)

-- Words of one width are equal as bytes where they are equal.
pub bytes_eq-be_bytes :
    (n u v : ℕ) → u < 256 ^ n → v < 256 ^ n → bytes_eq (be_bytes n u) (be_bytes n v) ≡ (u == v)
bytes_eq-be_bytes n u v hu hv = ground (
  arith,
  bytes_eq_iff (be_bytes n u) (be_bytes n v),
  λ (e : be_bytes n u ≡ be_bytes n v).
      sym (from_be_bytes-be_bytes n u hu) ∙ ap from_be_bytes e ∙ from_be_bytes-be_bytes n v hv,
  λ (e : u ≡ v). ap (be_bytes n) e,
)

-- Big-endian words of one width are in the order of their values.
pub bytes_lt-be_bytes :
    (n u v : ℕ) → u < 256 ^ n → v < 256 ^ n → bytes_lt (be_bytes n u) (be_bytes n v) ≡ ltb u v
bytes_lt-be_bytes zero u v hu hv = ground arith
bytes_lt-be_bytes (suc n) u v hu hv =
    bytes_lt-append (be_bytes n (u / 256)) (be_bytes n (v / 256)) (u % 256 ∷ []) (v % 256 ∷ [])
      (length-be_bytes n (u / 256) ∙ sym (length-be_bytes n (v / 256)))
    ∙ ground (
      arith,
      bytes_lt-be_bytes n (u / 256) (v / 256) (div_bound n u hu) (div_bound n v hv),
      bytes_eq-be_bytes n (u / 256) (v / 256) (div_bound n u hu) (div_bound n v hv),
    )
