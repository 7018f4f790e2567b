-- ===== src/Wal/CloseWriter/Reopen/Ranges.antt =====
-- The ranges that `CloseWriter` of internal/wal/writer.go iterates over, against the index of the writer.
use logblock.Prelude.{
  ℕ, ◌+◌, ◌-◌, ◌≤◌, ◌<◌, ◌^◌, ◌≡◌, refl, sym, ap, ◌∙◌, inl, inr, true, false, Option, none, some,
  List, [], ◌∷◌, arith, Bytes, length, Bool-cases,
}
use logblock.RangeMap.{RangeValue}
use logblock.RangeMap.RadixTree.{RadixTree}
use logblock.RangeMap.Spec.{in_range, denote, Runs}
use logblock.RangeMap.Extent
use logblock.Wal.{Codec, LogRecord}
use logblock.Wal.ReadAt.Backed.{IsBacked}
use logblock.Wal.CloseWriter.Section.{find_range, denote-find_range, AllData}

starts_later :
    (e : ℕ) (prev : Option LogRecord) (ranges : List (RangeValue LogRecord)) (x : ℕ)
    (r : RangeValue LogRecord)
    → Runs e prev ranges
    → find_range ranges x ≡ some r
    → e ≤ r.offset
unfolding find_range
starts_later e prev [] x r runs h = cc
starts_later e prev (s ∷ ranges) x r runs h = elim (Bool-cases (in_range s.offset s.length x)) [
  | inl k ↦
      let same : s ≡ r = ground (arith, k, h) in omega (arith, runs.1, ap (λ t. t.offset) same)
  | inr k ↦ omega (
    arith,
    runs.1,
    starts_later (s.offset + s.length) (some s.value) ranges x r runs.3 (ground (arith, k, h)),
  )
]

-- A range that is found somewhere is found everywhere in it.
pub found_all :
    (e : ℕ) (prev : Option LogRecord) (ranges : List (RangeValue LogRecord)) (x y : ℕ)
    (r : RangeValue LogRecord)
    → Runs e prev ranges
    → find_range ranges x ≡ some r
    → in_range r.offset r.length y ≡ true
    → find_range ranges y ≡ some r
unfolding find_range
found_all e prev [] x y r runs h inside = cc
found_all e prev (s ∷ ranges) x y r runs h inside =
    elim (Bool-cases (in_range s.offset s.length x)) [
      | inl k ↦
          let same : s ≡ r = ground (arith, k, h) in
          let here : in_range s.offset s.length y ≡ true =
            ap (λ t. in_range t.offset t.length y) same ∙ inside in
          rw here (ap (λ t. some t) same)
      | inr k ↦
          let found : find_range ranges x ≡ some r = ground (arith, k, h) in
          let after = starts_later (s.offset + s.length) (some s.value) ranges x r runs.3 found in
          let out : in_range s.offset s.length y ≡ false = ground (arith, after, inside) in
          rw out (found_all (s.offset + s.length) (some s.value) ranges x y r runs.3 found inside)
    ]

pub found_pos :
    (e : ℕ) (prev : Option LogRecord) (ranges : List (RangeValue LogRecord)) (x : ℕ)
    (r : RangeValue LogRecord)
    → Runs e prev ranges
    → find_range ranges x ≡ some r
    → 0 < r.length
found_pos e prev ranges x r runs h =
    let inside = (denote-find_range ranges x r h).1 in ground (arith, inside)

module _ (c : Codec) (T : RadixTree LogRecord) (m : T.Tree) (log : Bytes)
    (backed : IsBacked T m log)
    (data_only : (x : ℕ) (lr : LogRecord) → Extent.get T m x ≡ some lr → lr.zero ≡ false) where
  pub ranges-AllData :
      (e : ℕ) (prev : Option LogRecord) (ranges : List (RangeValue LogRecord))
      → Runs e prev ranges
      → ((x : ℕ) → e ≤ x → denote ranges x ≡ Extent.get T m x)
      → AllData c T ranges
  unfolding denote
  ranges-AllData e prev [] runs shows = tt
  ranges-AllData e prev (r ∷ ranges) runs shows =
      let last = r.offset + r.length - 1 in
      let in_first : in_range r.offset r.length r.offset ≡ true = ground (arith, runs.0) in
      let in_last : in_range r.offset r.length last ≡ true = ground (arith, runs.0) in
      let first : Extent.get T m r.offset ≡ some r.value =
        sym (shows r.offset runs.1) ∙ rw in_first refl in
      let at_last : Extent.get T m last ≡ some r.value =
        sym (shows last (omega (arith, runs.0, runs.1))) ∙ rw in_last refl in
      (
        data_only r.offset r.value first,
        omega (arith, backed.inside last r.value at_last, runs.0),
        ranges-AllData (r.offset + r.length) (some r.value) ranges runs.3 (λ x above.
            let out : in_range r.offset r.length x ≡ false = ground arith in
            sym (let e : denote (r ∷ ranges) x ≡ denote ranges x = rw out refl in e)
            ∙ shows x (omega (arith, runs.0, runs.1))),
      )

  -- A range of the index against the record that it is of
  pub record Found (r : RangeValue LogRecord) : Type 0 where
    pub pos : 0 < r.length
    pub after : r.value.offset ≤ r.offset
    pub within : r.offset + r.length ≤ r.value.offset + r.value.length
    pub fits : r.value.offset + r.value.length < 2 ^ 63
    pub in_log : r.value.log_offset + r.value.length ≤ length log

  pub found_lem :
      (ranges : List (RangeValue LogRecord)) (x : ℕ) (r : RangeValue LogRecord)
      → Runs 0 none ranges
      → ((x : ℕ) → denote ranges x ≡ Extent.get T m x)
      → find_range ranges x ≡ some r
      → Found r
  found_lem ranges x r runs shows h =
      let p = found_pos 0 none ranges x r runs h in
      let last = r.offset + r.length - 1 in
      let at = λ (y : ℕ) (i : in_range r.offset r.length y ≡ true).
        sym (shows y) ∙ (denote-find_range ranges y r (found_all 0 none ranges x y r runs h i)).0 in
      let first = at r.offset (ground (arith, p)) in
      let i1 = backed.inside r.offset r.value first in
      let i2 = backed.inside last r.value (at last (ground (arith, p))) in
      record {
        pos = p;
        after = i1.0;
        within = omega (arith, i2, p);
        fits = i1.2;
        in_log = backed.in_log r.offset r.value first (data_only r.offset r.value first);
      }
