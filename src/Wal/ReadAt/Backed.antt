-- ===== src/Wal/ReadAt/Backed.antt =====
-- What an index of internal/wal shows of the device, with the bytes of the log behind it.
use logblock.Prelude.{
  ℕ, zero, suc, ◌+◌, ◌-◌, ◌≤◌, ◌<◌, ◌^◌, ◌≡◌, refl, sym, ap, ◌∙◌, false, Option, none, some, [],
  ◌∷◌, arith, if◌then◌else◌, Bytes, length, take, drop, replicate, get_or,
}
use logblock.Readers.Views.{content}
use logblock.RangeMap.RadixTree.{RadixTree}
use logblock.RangeMap.Extent
use logblock.RangeMap.Extent.Invariant.{IsValid}
use logblock.Wal.{LogRecord}

-- `k` bytes from an offset on
abbrev pub window : (ℕ → ℕ) → ℕ → ℕ → Bytes
window f off k = content (λ x. f x ∷ []) off k

-- The byte of a record at an offset of the device
unfoldable pub record_byte : Bytes → LogRecord → ℕ → ℕ
record_byte log lr x = if lr.zero then 0 else get_or log (lr.log_offset + (x - lr.offset)) 0

unfoldable pub shown_in : Bytes → Option LogRecord → ℕ → Option ℕ
shown_in log none x = none
shown_in log (some lr) x = some (record_byte log lr x)

abbrev pub or_zero : Option ℕ → ℕ
or_zero none = 0
or_zero (some b) = b

module _ (T : RadixTree LogRecord) where
  -- The byte that has been written at an offset of the device, if there is one
  abbrev pub shown : T.Tree → Bytes → ℕ → Option ℕ
  shown m log x = shown_in log (Extent.get T m x) x

  -- The same with zeros where nothing has been written
  abbrev pub device : T.Tree → Bytes → ℕ → ℕ
  device m log x = or_zero (shown m log x)

  -- Keys of a record are inside it, and the data of a record are in the log.
  pub record IsBacked (m : T.Tree) (log : Bytes) : Type 0 where
    pub valid : IsValid (T.at m)
    pub inside :
        (x : ℕ) (lr : LogRecord)
        → Extent.get T m x ≡ some lr
        → (lr.offset ≤ x) × (x < lr.offset + lr.length) × (lr.offset + lr.length < 2 ^ 63)
    pub in_log :
        (x : ℕ) (lr : LogRecord)
        → Extent.get T m x ≡ some lr
        → lr.zero ≡ false
        → lr.log_offset + lr.length ≤ length log
    pub small : length log < 2 ^ 63

slice_suc :
    (log : Bytes) (o k : ℕ)
    → o + suc k ≤ length log
    → take (suc k) (drop o log) ≡ get_or log o 0 ∷ take k (drop (suc o) log)
slice_suc [] o k h = absurd (omega arith)
slice_suc (b ∷ log) zero k h = refl
slice_suc (b ∷ log) (suc o) k h = slice_suc log o k (omega arith)

pub slice-window :
    (log : Bytes) (o k : ℕ)
    → o + k ≤ length log
    → take k (drop o log) ≡ window (λ i. get_or log i 0) o k
unfolding content
slice-window log o zero h = refl
slice-window log o (suc k) h =
    let e : o + 1 ≡ suc o = omega arith in
    slice_suc log o k h
    ∙ rw e (ap (λ t. get_or log o 0 ∷ t) (slice-window log (suc o) k (omega arith)))

-- Windows of functions that agree there, the second at other offsets
pub window_moved :
    (f g : ℕ → ℕ) (a b k : ℕ)
    → ((i : ℕ) → i < k → f (a + i) ≡ g (b + i))
    → window f a k ≡ window g b k
unfolding content
window_moved f g a b zero same = refl
window_moved f g a b (suc k) same =
    let first : f a ≡ g b =
      let ea : a + 0 ≡ a = omega arith in
      let eb : b + 0 ≡ b = omega arith in ap f (sym ea) ∙ same 0 (omega arith) ∙ ap g eb in
    let rest : (i : ℕ) → i < k → f (a + 1 + i) ≡ g (b + 1 + i) = λ i h.
      let ea : a + 1 + i ≡ a + suc i = omega arith in
      let eb : b + suc i ≡ b + 1 + i = omega arith in
      ap f ea ∙ same (suc i) (omega arith) ∙ ap g eb in
    λ j. first j ∷ window_moved f g (a + 1) (b + 1) k rest j

pub window-replicate :
    (f : ℕ → ℕ) (off k : ℕ)
    → ((x : ℕ) → off ≤ x → x < off + k → f x ≡ 0)
    → window f off k ≡ replicate k 0
unfolding content
window-replicate f off zero zeros = refl
window-replicate f off (suc k) zeros = λ j.
    zeros off (omega arith) (omega arith) j
    ∷ window-replicate f (off + 1) k (λ x a b. zeros x (omega arith) (omega arith)) j
