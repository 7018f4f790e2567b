-- ===== src/RangeMap/BitSets.antt =====
-- The third-party bit sets of internal/rangemap/bitmap_range_map.go, as parameters with what their
-- documentation says: a bitmap of 256 bits, and a bit set that grows.
use logblock.Prelude.{ℕ, ◌≤◌, ◌<◌, ◌≡◌, Bool, true, false, Option, none, some, ◌==◌, if◌then◌else◌}

pub record Bitmap256 : Type 1 where
  pub Bits : Type 0
  pub no_bits : Bits
  pub get : Bits → ℕ → Bool
  pub put : Bits → ℕ → Bits
  pub is_empty : Bits → Bool
  pub is_full : Bits → Bool
  -- The first bit from an index on, or 256.
  pub find_next_set : Bits → ℕ → ℕ
  pub find_next_clear : Bits → ℕ → ℕ
  pub get_no_bits : (i : ℕ) → get no_bits i ≡ false
  pub get-put :
      (b : Bits) (i j : ℕ)
      → i < 256
      → j < 256
      → get (put b i) j ≡ (if i == j then true else get b j)
  pub empty_true : (b : Bits) → is_empty b ≡ true → (i : ℕ) → i < 256 → get b i ≡ false
  pub empty_false : (b : Bits) → is_empty b ≡ false → (i : ℕ) × (i < 256) × (get b i ≡ true)
  pub full_true : (b : Bits) → is_full b ≡ true → (i : ℕ) → i < 256 → get b i ≡ true
  pub full_false : (b : Bits) → is_full b ≡ false → (i : ℕ) × (i < 256) × (get b i ≡ false)
  pub next_set :
      (b : Bits) (i : ℕ)
      → i < 256
      → (i ≤ find_next_set b i)
        × ((j : ℕ) → i ≤ j → j < 256 → j < find_next_set b i → get b j ≡ false)
        × (find_next_set b i < 256 → get b (find_next_set b i) ≡ true)
  pub next_clear :
      (b : Bits) (i : ℕ)
      → i < 256
      → (i ≤ find_next_clear b i)
        × ((j : ℕ) → i ≤ j → j < 256 → j < find_next_clear b i → get b j ≡ true)
        × (find_next_clear b i < 256 → get b (find_next_clear b i) ≡ false)

pub record BitSet : Type 1 where
  pub Bits : Type 0
  pub no_bits : Bits
  pub test : Bits → ℕ → Bool
  pub put : Bits → ℕ → Bits
  pub len : Bits → ℕ
  pub next_set : Bits → ℕ → Option ℕ
  -- The first clear bit below the length, from an index on.
  pub next_clear : Bits → ℕ → Option ℕ
  pub test_no_bits : (i : ℕ) → test no_bits i ≡ false
  pub test-put : (b : Bits) (i j : ℕ) → test (put b i) j ≡ (if i == j then true else test b j)
  pub test_len : (b : Bits) (i : ℕ) → test b i ≡ true → i < len b
  pub next_set_some :
      (b : Bits) (i n : ℕ)
      → next_set b i ≡ some n
      → (i ≤ n) × (test b n ≡ true) × ((j : ℕ) → i ≤ j → j < n → test b j ≡ false)
  pub next_set_none : (b : Bits) (i : ℕ) → next_set b i ≡ none → (j : ℕ) → i ≤ j → test b j ≡ false
  pub next_clear_some :
      (b : Bits) (i n : ℕ)
      → next_clear b i ≡ some n
      → (i ≤ n) × (test b n ≡ false) × ((j : ℕ) → i ≤ j → j < n → test b j ≡ true)
  pub next_clear_none :
      (b : Bits) (i : ℕ) → next_clear b i ≡ none → (j : ℕ) → i ≤ j → j < len b → test b j ≡ true
