-- ===== src/SparseBlock/ReadIndex.antt =====
-- The ranges that `writeIndex` (internal/sparseblock/builder.go) writes, as `readIndex`
-- (internal/sparseblock/reader.go) reads them.
use logblock.Prelude.{
  ℕ, suc, ◌+◌, ◌^◌, ◌<◌, ◌≡◌, refl, ap, ◌∙◌, some, List, [], ◌∷◌, ◌++◌, arith, Bytes, length, drop,
  append_assoc, false, ltb, ◌||◌,
}
use logblock.SparseBlock.{RangeEntry, marshal_range, unmarshal_range, set_byte}
use logblock.SparseBlock.Encoding.{unmarshal_range-marshal_range}
use logblock.SparseBlock.Builder.{marshal_ranges}
use logblock.SparseBlock.Reader.{unmarshal_ranges}

-- Entries that fit their encoding
unfoldable pub Fit : List RangeEntry → Type 0
Fit [] = ◌≡◌ {A = ℕ} 0 0
Fit (r ∷ rs) = (r.start_offset < 2 ^ 48) × (r.data_offset < 2 ^ 48) × (r.num_entries < 256) × Fit rs

-- The entries with the index of their first block entry, counted from one on
unfoldable pub indexed : ℕ → List RangeEntry → List RangeEntry
indexed count [] = []
indexed count (r ∷ rs) = record r { first_entry_index = count } ∷ indexed (count + r.num_entries) rs

length_marshal_range :
    (r : RangeEntry) (more : Bytes) → length (marshal_range r ++ more) ≡ 16 + length more
unfolding marshal_range set_byte
length_marshal_range r more = omega arith

drop-marshal_range : (r : RangeEntry) (more : Bytes) → drop 16 (marshal_range r ++ more) ≡ more
unfolding marshal_range set_byte
drop-marshal_range r more = refl

-- Only the first 16 bytes are read.
unmarshal_range_front :
    (r old : RangeEntry) (more : Bytes)
    → unmarshal_range (marshal_range r ++ more) old ≡ unmarshal_range (marshal_range r) old
unfolding marshal_range set_byte unmarshal_range
unmarshal_range_front r old more = refl

unmarshal_ranges_none : (count : ℕ) (more : Bytes) → unmarshal_ranges 0 16 count more ≡ some []
unfolding unmarshal_ranges
unmarshal_ranges_none count more = refl

unmarshal_ranges_step :
    (n count : ℕ) (r : RangeEntry) (more : Bytes) (rs : List RangeEntry)
    → (r.start_offset < 2 ^ 48) × (r.data_offset < 2 ^ 48) × (r.num_entries < 256)
    → unmarshal_ranges n 16 (count + r.num_entries) more ≡ some rs
    → unmarshal_ranges (suc n) 16 count (marshal_range r ++ more)
      ≡ some (record r { first_entry_index = count } ∷ rs)
unfolding unmarshal_ranges
unmarshal_ranges_step n count r more rs fit rest =
    let old : RangeEntry = record {
      start_offset = 0;
      data_offset = 0;
      num_entries = 0;
      first_entry_index = count;
    } in
    let all : (ltb (length (marshal_range r ++ more)) 16
          || ltb 16 7
          || ltb (length (marshal_range r ++ more)) 16)
        ≡ false =
      ground (arith, length_marshal_range r more) in
    let e : unmarshal_range (marshal_range r ++ more) old ≡ record r { first_entry_index = count } =
      unmarshal_range_front r old more ∙ unmarshal_range-marshal_range r old fit.0 fit.1 fit.2 in
    rw all (rw e (rw (drop-marshal_range r more) (rw rest (ap (λ x. some (x ∷ rs)) e))))

-- readIndex gives back the ranges that writeIndex wrote, each with the index of its first block entry, if
-- their offsets fit in 48 bits and their numbers of entries in a byte; what follows them is not read.
pub unmarshal_ranges-marshal_ranges :
    (count : ℕ) (rs : List RangeEntry) (more : Bytes)
    → Fit rs
    → unmarshal_ranges (length rs) 16 count (marshal_ranges rs ++ more) ≡ some (indexed count rs)
unfolding marshal_ranges indexed Fit
unmarshal_ranges-marshal_ranges count [] more fit = unmarshal_ranges_none count more
unmarshal_ranges-marshal_ranges count (r ∷ rs) more fit =
    ap (unmarshal_ranges (suc (length rs)) 16 count)
      (append_assoc (marshal_range r) (marshal_ranges rs) more)
    ∙ unmarshal_ranges_step (length rs) count r (marshal_ranges rs ++ more)
        (indexed (count + r.num_entries) rs) (fit.0, fit.1, fit.2)
        (unmarshal_ranges-marshal_ranges (count + r.num_entries) rs more fit.3)
