-- ===== src/Wal/CloseWriter/Section.antt =====
-- The index section of a closed log: what `CloseWriter` of internal/wal/writer.go writes for a list of ranges,
-- and the index that `readIndex` of internal/wal/reader.go makes of it.
use logblock.Prelude.{
  ℕ, zero, suc, ◌+◌, ◌<◌, ◌^◌, ◌≡◌, refl, sym, ap, ◌∙◌, inl, inr, true, false, ◌||◌, Option, none,
  some, List, [], ◌∷◌, ◌++◌, arith, if◌then◌else◌, ltb, Bytes, length, take-append, drop-append,
  length-append, append_assoc, append-nil, add64, sub64, Bool-cases,
}
use logblock.RangeMap.{RangeValue}
use logblock.RangeMap.RadixTree.{RadixTree}
use logblock.RangeMap.Spec.{in_range, denote, feed, Runs}
use logblock.RangeMap.Extent
use logblock.RangeMap.Extent.Invariant.{IsValid}
use logblock.RangeMap.Extent.Update.{get-add}
use logblock.Wal.{Codec, LogRecord, IndexEntry}
use logblock.Wal.Reader.{read_buf_size, Loaded, done, max_end}
use logblock.Wal.NewReader.{
  value, read_uvarint, read_uvarint_from, add_indexed, is_panic, after_entry, index_loop,
}
use logblock.Wal.CloseWriter.{append_uvarint, index_entry, sized_entry, write_entry_of}
use logblock.Wal.CloseWriter.Uvarint.{read-append_uvarint, append_uvarint_pos}

-- The record that a range of data becomes
abbrev pub range_record : RangeValue LogRecord → LogRecord
range_record r = record {
  log_offset = add64 r.value.log_offset (sub64 r.offset r.value.offset);
  offset = r.offset;
  length = r.length;
  zero = false;
}

unfoldable pub find_range : List (RangeValue LogRecord) → ℕ → Option (RangeValue LogRecord)
find_range [] x = none
find_range (r ∷ ranges) x = if in_range r.offset r.length x then some r else find_range ranges x

abbrev pub or_record : Option (RangeValue LogRecord) → Option LogRecord → Option LogRecord
or_record none o = o
or_record (some r) o = some (range_record r)

-- What the ranges show is what the one that is found has.
pub denote-find_range :
    (ranges : List (RangeValue LogRecord)) (x : ℕ) (r : RangeValue LogRecord)
    → find_range ranges x ≡ some r
    → (denote ranges x ≡ some r.value) × (in_range r.offset r.length x ≡ true)
unfolding denote find_range
denote-find_range [] x r e = cc
denote-find_range (s ∷ ranges) x r e = elim (Bool-cases (in_range s.offset s.length x)) [
  | inl h ↦
      let same : s ≡ r = ground (arith, h, e) in
      (rw h (ap (λ k. some k.value) same), ap (λ k. in_range k.offset k.length x) (sym same) ∙ h)
  | inr h ↦ let rest = denote-find_range ranges x r (ground (arith, h, e)) in (rw h rest.0, rest.1)
]

pub find_range-none :
    (ranges : List (RangeValue LogRecord)) (x : ℕ)
    → find_range ranges x ≡ none
    → denote ranges x ≡ none
unfolding denote find_range
find_range-none [] x e = refl
find_range-none (s ∷ ranges) x e = elim (Bool-cases (in_range s.offset s.length x)) [
  | inl h ↦ absurd (ground (arith, h, e))
  | inr h ↦ rw h (find_range-none ranges x (ground (arith, h, e)))
]

-- No later range is where an earlier one is.
later_range :
    (e : ℕ) (prev : Option LogRecord) (ranges : List (RangeValue LogRecord)) (x : ℕ)
    → Runs e prev ranges
    → x < e
    → find_range ranges x ≡ none
unfolding find_range
later_range e prev [] x runs below = refl
later_range e prev (r ∷ ranges) x runs below =
    let out : in_range r.offset r.length x ≡ false = ground (arith, runs.1) in
    rw out
      (later_range (r.offset + r.length) (some r.value) ranges x runs.3 (omega (arith, runs.1)))

module _ (c : Codec) (T : RadixTree LogRecord) where
  unfoldable pub section_of : List (RangeValue LogRecord) → Bytes
  section_of [] = []
  section_of (r ∷ ranges) = sized_entry c r ++ section_of ranges

  pub feed-section_of :
      (acc : Bytes) (ranges : List (RangeValue LogRecord))
      → feed (write_entry_of c) acc ranges ≡ acc ++ section_of ranges
  unfolding feed section_of write_entry_of
  feed-section_of acc [] = sym (append-nil acc)
  feed-section_of acc (r ∷ ranges) =
      feed-section_of (acc ++ sized_entry c r) ranges
      ∙ append_assoc acc (sized_entry c r) (section_of ranges)

  -- Ranges of data that the section has room for
  abbrev pub AllData : List (RangeValue LogRecord) → Type 0
  AllData [] = Unit
  AllData (r ∷ ranges) = (r.value.zero ≡ false) × (r.offset + r.length < 2 ^ 64) × AllData ranges

  add_indexed-entry :
      (r : RangeValue LogRecord) (l : Loaded c T) (index : T.Tree)
      → r.value.zero ≡ false
      → Extent.add T l.index r.offset r.length (range_record r) ≡ some index
      → add_indexed c T (index_entry r) l
        ≡ some (record l { index = index; end = max_end c T l.end r.offset r.length })
  unfolding add_indexed index_entry
  add_indexed-entry r l index kind added = rw kind (rw (added, add_indexed) refl)

  -- An entry of the section is read and added.
  index_loop-step :
      (fuel : ℕ) (e : IndexEntry) (tail : Bytes) (l l' : Loaded c T)
      → add_indexed c T e l ≡ some l'
      → is_panic l'.status ≡ false
      → index_loop c T
          (suc fuel)
          ((append_uvarint 8 (length (c.marshal_entry e)) ++ c.marshal_entry e) ++ tail)
          l
        ≡ index_loop c T fuel tail l'
  unfolding index_loop after_entry is_panic
  index_loop-step fuel e tail l l' added clean =
      let buf = c.marshal_entry e in
      let n = length buf in
      let fits : (ltb read_buf_size n || ltb (length (buf ++ tail)) n) ≡ false =
        ground (arith, length-append buf tail, c.marshal_entry_length e) in
      let first : read_uvarint ((append_uvarint 8 n ++ buf) ++ tail) ≡ value n (buf ++ tail) =
        ap read_uvarint (append_assoc (append_uvarint 8 n) buf tail)
        ∙ read-append_uvarint n (buf ++ tail) (omega (arith, c.marshal_entry_length e)) in
      rw (first, index_loop)
        (rw (fits, index_loop)
          (rw (take-append buf tail) (
            rw (c.unmarshal-marshal_entry e, index_loop)
              (rw (added, index_loop)
                (rw (clean, after_entry)
                  (ap (λ t. index_loop c T fuel t l') (drop-append buf tail)))))))

  -- The index after the entries of the ranges
  pub record Indexes (l : Loaded c T) (ranges : List (RangeValue LogRecord)) (l' : Loaded c T)
      : Type 0 where
    pub valid : IsValid (T.at l'.index)
    pub ended : l'.status ≡ l.status
    pub gets :
        (x : ℕ) → Extent.get T l'.index x ≡ or_record (find_range ranges x) (Extent.get T l.index x)

  merged :
      (r : RangeValue LogRecord) (ranges : List (RangeValue LogRecord)) (e : ℕ)
      (prev : Option LogRecord) (x : ℕ) (o : Option LogRecord)
      → Runs e prev (r ∷ ranges)
      → or_record
          (find_range ranges x)
          (if in_range r.offset r.length x then some (range_record r) else o)
        ≡ or_record (find_range (r ∷ ranges) x) o
  unfolding find_range
  merged r ranges e prev x o runs = elim (Bool-cases (in_range r.offset r.length x)) [
    | inl h ↦
        let none_later =
          later_range (r.offset + r.length) (some r.value) ranges x runs.3 (ground (arith, h)) in
        rw h (rw none_later refl)
    | inr h ↦ rw h refl
  ]

  pub index_loop-section :
      (fuel : ℕ) (e : ℕ) (prev : Option LogRecord) (ranges : List (RangeValue LogRecord))
      (l : Loaded c T)
      → length (section_of ranges) < fuel
      → length (section_of ranges) < 2 ^ 63
      → Runs e prev ranges
      → AllData ranges
      → IsValid (T.at l.index)
      → l.status ≡ done
      → (l' : Loaded c T) × (index_loop c T fuel (section_of ranges) l ≡ some l')
        × Indexes l ranges l'
  unfolding section_of sized_entry find_range is_panic
  index_loop-section zero e prev ranges l enough small runs ok_all valid clean =
      absurd (omega arith)
  index_loop-section (suc fuel) e prev [] l enough small runs ok_all valid clean = (
    l,
    unfold index_loop read_uvarint read_uvarint_from in refl,
    record { valid = valid; ended = refl; gets = λ x. refl },
  )
  index_loop-section (suc fuel) e prev (r ∷ ranges) l enough small runs ok_all valid clean =
      let entry = index_entry r in
      let size =
        length-append (append_uvarint 8 (length (c.marshal_entry entry))) (c.marshal_entry entry) in
      let whole = length-append (sized_entry c r) (section_of ranges) in
      let pos = append_uvarint_pos 8 (length (c.marshal_entry entry)) in
      let (index, added, valid', gets) =
        get-add T l.index valid r.offset r.length (range_record r) ok_all.1 in
      let next : Loaded c T = record l {
        index = index;
        end = max_end c T l.end r.offset r.length;
      } in
      let rest =
        index_loop-section fuel (r.offset + r.length) (some r.value) ranges next
          (omega (arith, size, whole, pos)) (omega (arith, size, whole)) runs.3 ok_all.2 valid'
          clean in
      (
        rest.0,
        index_loop-step fuel entry (section_of ranges) l next
              (add_indexed-entry r l index ok_all.0 added) (ap is_panic clean)
            ∙ rest.1,
        record {
          valid = rest.2.valid;
          ended = rest.2.ended;
          gets = λ x.
              rest.2.gets x
              ∙ ap (or_record (find_range ranges x)) (gets x)
              ∙ merged r ranges e prev x (Extent.get T l.index x) runs;
        },
      )
