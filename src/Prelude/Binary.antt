-- ===== src/Prelude/Binary.antt =====
-- Byte strings as lists of numbers, and the little-endian integers of Go's encoding/binary.
use Prim.Native.Nat.{ℕ, zero, suc, ◌+◌, ◌*◌, ◌/◌, ◌%◌, ◌^◌, ◌<◌}
use mathlib.Core.Path.{◌≡◌, refl, ap}
use mathlib.Core.List.{List, [], ◌∷◌, ◌++◌}
use mathlib.Core.Bool.{Bool, true, false, ◌&&◌}
use mathlib.Core.Logic.{◌↔◌}
use logblock.Prelude.Tests.{◌==◌}
use native.Mathlib.Nat.{pow-suc}
use native.Mathlib.Omega.{arith}
use logblock.Prelude.Lists.{length, take, drop}

abbrev pub Bytes : Type 0
Bytes = List ℕ

-- The `k` low bytes of a number: `PutUint32` is `le 4`, `PutUint64` is `le 8`.
abbrev pub le : ℕ → ℕ → Bytes
le zero n = []
le (suc k) n = (n % 256) ∷ le k (n / 256)

-- `Uint32` of four bytes, `Uint64` of eight.
abbrev pub of_le : Bytes → ℕ
of_le [] = 0
of_le (b ∷ bs) = b + 256 * of_le bs

pub length-le : (k n : ℕ) → length (le k n) ≡ k
length-le zero n = refl
length-le (suc k) n = ap suc (length-le k (n / 256))

pub of_le-le : (k n : ℕ) → n < 256 ^ k → of_le (le k n) ≡ n
of_le-le zero n h = omega arith
of_le-le (suc k) n h = omega (arith, of_le-le k (n / 256) (omega (arith, pow-suc 256 k)))

module _ {ℓ} {A : Type ℓ} where
  pub take-append : (xs ys : List A) → take (length xs) (xs ++ ys) ≡ xs
  take-append [] ys = refl
  take-append (x ∷ xs) ys = ap (λ t. x ∷ t) (take-append xs ys)

  pub drop-append : (xs ys : List A) → drop (length xs) (xs ++ ys) ≡ ys
  drop-append [] ys = refl
  drop-append (x ∷ xs) ys = drop-append xs ys

-- `bytes.Equal`
unfoldable pub bytes_equal : Bytes → Bytes → Bool
bytes_equal [] [] = true
bytes_equal [] (b ∷ bs) = false
bytes_equal (a ∷ rest) [] = false
bytes_equal (a ∷ rest) (b ∷ bs) = a == b && bytes_equal rest bs

pub bytes_equal_iff : (a b : Bytes) → (bytes_equal a b ≡ true) ↔ (a ≡ b)
unfolding bytes_equal
bytes_equal_iff [] [] = ground arith
bytes_equal_iff [] (b ∷ bs) = ground arith
bytes_equal_iff (a ∷ rest) [] = ground arith
bytes_equal_iff (a ∷ rest) (b ∷ bs) = ground (arith, bytes_equal_iff rest bs)
