-- ===== src/Wal/Reader/Copy.antt =====
-- The inner loop of `NewReader` in internal/wal/reader.go reads all its bytes, or runs out of them.
use logblock.Prelude.{
  ℕ, zero, suc, ◌+◌, ◌-◌, ◌≤◌, ◌<◌, ◌≡◌, ◌≢◌, refl, ◌∙◌, true, false, none, some, [], ◌++◌, arith,
  if◌then◌else◌, ltb, ◌==◌, Bytes, length, take, drop, length-drop, dec_lt, take-add, drop-add,
}
use logblock.Wal.Reader.{copy_bytes}

-- One buffer of the loop.
abbrev peek : ℕ → ℕ → ℕ
peek size n = if ltb size n then size else n

copy_bytes_step :
    (fuel size n : ℕ) (rest b left : Bytes)
    → n ≢ 0
    → peek size n ≤ length rest
    → copy_bytes fuel size (n - peek size n) (drop (peek size n) rest) ≡ some (b, left)
    → copy_bytes (suc fuel) size n rest ≡ some (take (peek size n) rest ++ b, left)
unfolding copy_bytes
copy_bytes_step fuel size n rest b left ne fits e =
    let nonzero : (n == 0) ≡ false = ground arith in
    let enough : ltb (length rest) (peek size n) ≡ false = ground arith in rw (nonzero, enough, e)

copy_bytes-zero : (fuel size : ℕ) (rest : Bytes) → copy_bytes fuel size 0 rest ≡ some ([], rest)
unfolding copy_bytes
copy_bytes-zero zero size rest = refl
copy_bytes-zero (suc fuel) size rest = refl

pub copy_bytes_all :
    (fuel size n : ℕ) (rest : Bytes)
    → 0 < size
    → n ≤ fuel
    → n ≤ length rest
    → copy_bytes fuel size n rest ≡ some (take n rest, drop n rest)
copy_bytes_all fuel size zero rest pos le fits = copy_bytes-zero fuel size rest
copy_bytes_all zero size (suc n) rest pos le fits = absurd (omega arith)
copy_bytes_all (suc fuel) size (suc n) rest pos le fits =
    let p = peek size (suc n) in
    let small : p ≤ suc n = ground arith in
    let some_bytes : 0 < p = ground arith in
    let more =
      copy_bytes_all fuel size (suc n - p) (drop p rest) pos (omega arith)
        (omega (arith, length-drop p rest)) in
    let whole : p + (suc n - p) ≡ suc n = omega arith in
    copy_bytes_step fuel size (suc n) rest _ _ (λ e. omega arith) (omega arith) more
    ∙ rw (← take-add p (suc n - p) rest, ← drop-add p (suc n - p) rest, whole)

copy_bytes_starved :
    (fuel size n : ℕ) (rest : Bytes)
    → n ≢ 0
    → length rest < peek size n
    → copy_bytes (suc fuel) size n rest ≡ none
unfolding copy_bytes
copy_bytes_starved fuel size n rest ne short =
    let nonzero : (n == 0) ≡ false = ground arith in
    let enough : ltb (length rest) (peek size n) ≡ true = ground arith in rw (nonzero, enough)

copy_bytes_later :
    (fuel size n : ℕ) (rest : Bytes)
    → n ≢ 0
    → copy_bytes fuel size (n - peek size n) (drop (peek size n) rest) ≡ none
    → copy_bytes (suc fuel) size n rest ≡ none
unfolding copy_bytes
copy_bytes_later fuel size n rest ne e =
    let nonzero : (n == 0) ≡ false = ground arith in rw (nonzero, e) (ground arith)

pub copy_bytes_short :
    (fuel size n : ℕ) (rest : Bytes)
    → 0 < size
    → n ≤ fuel
    → length rest < n
    → copy_bytes fuel size n rest ≡ none
copy_bytes_short fuel size zero rest pos le short = absurd (omega arith)
copy_bytes_short zero size (suc n) rest pos le short = absurd (omega arith)
copy_bytes_short (suc fuel) size (suc n) rest pos le short =
    let p = peek size (suc n) in
    let small : p ≤ suc n = ground arith in
    let some_bytes : 0 < p = ground arith in
    elim (dec_lt (length rest) p) [
      | yes starved ↦ copy_bytes_starved fuel size (suc n) rest (λ e. omega arith) starved
      | no fits ↦
          copy_bytes_later fuel size (suc n) rest (λ e. omega arith)
            (copy_bytes_short fuel size (suc n - p) (drop p rest) pos (omega arith)
              (omega (arith, length-drop p rest)))
    ]
