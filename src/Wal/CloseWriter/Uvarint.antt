-- ===== src/Wal/CloseWriter/Uvarint.antt =====
-- A uvarint that internal/wal/writer.go writes is read back by internal/wal/reader.go.
use logblock.Prelude.{
  ℕ, zero, suc, ◌+◌, ◌*◌, ◌/◌, ◌%◌, ◌^◌, ◌≤◌, ◌<◌, ◌≡◌, refl, ap, ◌∙◌, inl, inr, true, false, ◌++◌,
  arith, ltb, ◌==◌, Bytes, length, Bool-cases,
}
use native.Mathlib.Nat.{pow-suc, pow-succ', add-mul, mul_assoc}
use logblock.Wal.NewReader.{value, read_uvarint_from, read_uvarint}
use logblock.Wal.CloseWriter.{append_uvarint}

-- A digit and the rest of a number, at a place value
place_value : (x n p : ℕ) → x + n % 128 * p + n / 128 * (128 * p) ≡ x + n * p
place_value x n p =
    let whole : n ≡ n % 128 + n / 128 * 128 = omega arith in
    omega
      (arith, add-mul (n % 128) (n / 128 * 128) p, mul_assoc (n / 128) 128 p, ap (λ t. t * p) whole)

read_from-append :
    (more fuel i x n : ℕ) (rest : Bytes)
    → n < 128 ^ suc more
    → more < fuel
    → i + more ≤ 8
    → read_uvarint_from fuel i x (append_uvarint more n ++ rest) ≡ value (x + n * 128 ^ i) rest
unfolding read_uvarint_from append_uvarint
read_from-append more zero i x n rest small enough places = absurd (omega arith)
read_from-append zero (suc fuel) i x n rest small enough places =
    let one : ltb n 128 ≡ true = ground (arith, pow-suc 128 0) in
    let not_last : (i == 9) ≡ false = ground arith in rw one (rw not_last refl)
read_from-append (suc more) (suc fuel) i x n rest small enough places =
    elim (Bool-cases (ltb n 128)) [
      | inl one ↦
          let not_last : (i == 9) ≡ false = ground arith in rw one (rw one (rw not_last refl))
      | inr long ↦
          let again : ltb (n % 128 + 128) 128 ≡ false = ground arith in
          let digit : (n % 128 + 128) % 128 ≡ n % 128 = omega arith in
          let next : i + 1 ≡ suc i = omega arith in
          let power : 128 ^ suc i ≡ 128 * 128 ^ i = pow-succ' 128 i in
          rw long (
            rw again (
              rw digit (
                rw next (
                  read_from-append more fuel (suc i) (x + n % 128 * 128 ^ i) (n / 128) rest
                    (omega (arith, pow-suc 128 (suc more))) (omega arith) (omega arith)
                  ∙ ap (λ v. value v rest)
                      (ap (λ t. x + n % 128 * 128 ^ i + n / 128 * t) power
                        ∙ place_value x n (128 ^ i))))))
    ]

pub read-append_uvarint :
    (n : ℕ) (rest : Bytes) → n < 2 ^ 63 → read_uvarint (append_uvarint 8 n ++ rest) ≡ value n rest
unfolding read_uvarint
read-append_uvarint n rest small =
    let unit : 0 + n * 128 ^ 0 ≡ n = omega arith in
    read_from-append 8 10 0 0 n rest (omega arith) (omega arith) (omega arith)
    ∙ ap (λ v. value v rest) unit

-- A uvarint is a byte at least.
pub append_uvarint_pos : (more n : ℕ) → 0 < length (append_uvarint more n)
unfolding append_uvarint
append_uvarint_pos zero n = omega arith
append_uvarint_pos (suc more) n = ground arith
