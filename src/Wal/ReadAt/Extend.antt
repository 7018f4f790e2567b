-- ===== src/Wal/ReadAt/Extend.antt =====
-- What an index of internal/wal shows when a record is added to it and its bytes to the log.
use logblock.Prelude.{
  ℕ, zero, suc, ◌+◌, ◌-◌, ◌≤◌, ◌<◌, ◌^◌, ◌≡◌, refl, sym, ap, ◌∙◌, inl, inr, true, false, some, List,
  [], ◌∷◌, ◌++◌, arith, if◌then◌else◌, Bytes, length, get_or, length-append, Option-cases,
  Bool-cases,
}
use logblock.RangeMap.RadixTree.{RadixTree}
use logblock.RangeMap.Spec.{in_range}
use logblock.RangeMap.Extent
use logblock.RangeMap.Extent.Invariant.{IsValid}
use logblock.Wal.{LogRecord}
use logblock.Wal.ReadAt.Backed.{record_byte, shown_in, shown, IsBacked}

pub get_or-append_lt {ℓ} :
    {A : Type ℓ} (xs ys : List A) (i : ℕ) (d : A)
    → i < length xs
    → get_or (xs ++ ys) i d ≡ get_or xs i d
get_or-append_lt [] ys i d h = absurd (omega arith)
get_or-append_lt (x ∷ xs) ys zero d h = refl
get_or-append_lt (x ∷ xs) ys (suc i) d h = get_or-append_lt xs ys i d (omega arith)

pub get_or-append_add {ℓ} :
    {A : Type ℓ} (xs ys : List A) (i : ℕ) (d : A)
    → get_or (xs ++ ys) (length xs + i) d ≡ get_or ys i d
get_or-append_add [] ys i d = let e : 0 + i ≡ i = omega arith in ap (λ k. get_or ys k d) e
get_or-append_add (x ∷ xs) ys i d =
    let e : suc (length xs) + i ≡ suc (length xs + i) = omega arith in
    ap (λ k. get_or (x ∷ (xs ++ ys)) k d) e ∙ get_or-append_add xs ys i d

-- Bytes at the end of the log change nothing that its records show.
record_byte-append :
    (log tail : Bytes) (lr : LogRecord) (x : ℕ)
    → lr.offset ≤ x
    → x < lr.offset + lr.length
    → (lr.zero ≡ false → lr.log_offset + lr.length ≤ length log)
    → record_byte (log ++ tail) lr x ≡ record_byte log lr x
unfolding record_byte
record_byte-append log tail lr x above below in_log = elim (Bool-cases lr.zero) [
  | inl kind ↦ rw kind refl
  | inr kind ↦
      rw kind
        (get_or-append_lt log tail (lr.log_offset + (x - lr.offset)) 0 (omega (arith, in_log kind)))
]

module _ (T : RadixTree LogRecord) (m m' : T.Tree) (log tail : Bytes) (backed : IsBacked T m log)
    (lr : LogRecord) (valid : IsValid (T.at m'))
    (added : (x : ℕ)
      → Extent.get T m' x ≡ (if in_range lr.offset lr.length x then some lr else Extent.get T m x))
    (fits : lr.offset + lr.length < 2 ^ 63)
    (in_log : lr.zero ≡ false → lr.log_offset + lr.length ≤ length (log ++ tail))
    (small : length (log ++ tail) < 2 ^ 63) where
  added_inside : (x : ℕ) → in_range lr.offset lr.length x ≡ true → Extent.get T m' x ≡ some lr
  added_inside x h = added x ∙ rw h refl

  added_outside :
      (x : ℕ) → in_range lr.offset lr.length x ≡ false → Extent.get T m' x ≡ Extent.get T m x
  added_outside x h = added x ∙ rw h refl

  record_shown :
      (x : ℕ) (r : LogRecord)
      → Extent.get T m x ≡ some r
      → shown_in (log ++ tail) (some r) x ≡ shown_in log (some r) x
  unfolding shown_in
  record_shown x r e =
      let i = backed.inside x r e in
      ap (λ b. some b) (record_byte-append log tail r x i.0 i.1 (backed.in_log x r e))

  pub shown-added :
      (x : ℕ)
      → shown T m' (log ++ tail) x ≡ (
          if in_range lr.offset lr.length x
          then some (record_byte (log ++ tail) lr x)
          else shown T m log x)
  unfolding shown_in
  shown-added x = elim (Bool-cases (in_range lr.offset lr.length x)) [
    | inl h ↦ rw h (ap (λ o. shown_in (log ++ tail) o x) (added_inside x h))
    | inr h ↦ rw h (
        ap (λ o. shown_in (log ++ tail) o x) (added_outside x h)
        ∙ elim (Option-cases (Extent.get T m x)) [
          | inl e ↦ rw e refl
          | inr (r, e) ↦
              ap (λ o. shown_in (log ++ tail) o x) e
              ∙ record_shown x r e
              ∙ ap (λ o. shown_in log o x) (sym e)
        ])
  ]

  same_record :
      (x : ℕ) (r : LogRecord)
      → in_range lr.offset lr.length x ≡ true
      → Extent.get T m' x ≡ some r
      → lr ≡ r
  same_record x r h e = let both : some lr ≡ some r = sym (added_inside x h) ∙ e in cc

  pub added-IsBacked : IsBacked T m' (log ++ tail)
  added-IsBacked = record {
    valid = valid;
    inside = λ x r e. elim (Bool-cases (in_range lr.offset lr.length x)) [
      | inl h ↦
          let same = same_record x r h e in
          (
            ground (arith, h, ap (λ l. l.offset) same),
            ground (arith, h, ap (λ l. l.offset) same, ap (λ l. l.length) same),
            omega (arith, fits, ap (λ l. l.offset) same, ap (λ l. l.length) same),
          )
      | inr h ↦ backed.inside x r (sym (added_outside x h) ∙ e)
    ];
    in_log = λ x r e kind. elim (Bool-cases (in_range lr.offset lr.length x)) [
      | inl h ↦
          let same = same_record x r h e in
          let k = in_log (ap (λ l. l.zero) same ∙ kind) in
          omega (arith, k, ap (λ l. l.log_offset) same, ap (λ l. l.length) same)
      | inr h ↦
          omega
            (arith, backed.in_log x r (sym (added_outside x h) ∙ e) kind, length-append log tail)
    ];
    small = small;
  }
