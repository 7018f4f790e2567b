-- ===== src/BlockMap/Push.antt =====
-- `PushReader` of internal/blockmap/reader.go: what the index shows when a table has been added.
use logblock.Prelude.{
  ℕ, zero, suc, ◌+◌, ◌-◌, ◌^◌, ◌≤◌, ◌<◌, ◌≡◌, ◌≢◌, refl, sym, ap, ◌∙◌, subst, inl, inr, Bool, true,
  false, ◌&&◌, Option, none, some, List, [], ◌∷◌, ◌++◌, arith, if◌then◌else◌, ltb, leb, Bytes,
  length, Bool-cases,
}
use logblock.Adaptor.{Status, done, eof, failed}
use logblock.Readers.Views.{SoundReader}
use logblock.RangeMap.{Range}
use logblock.RangeMap.Spec.{in_range}
use logblock.RangeMap.Index.{RangeIndex}
use logblock.BlockMap.{FreeSet, batch_size, do_add, add_range, pushed, push_loop}

unfoldable pub has_block : Option Bytes → Bool
has_block none = false
has_block (some d) = true

module _ (I : RangeIndex) (F : FreeSet) (iv : ℕ) where
  do_add-push :
      (rl : List Range) (rg : Range) (m : I.Map)
      → do_add I F iv (rl ++ rg ∷ []) m ≡ I.add (do_add I F iv rl m) rg.offset rg.length iv
  unfolding do_add
  do_add-push [] rg m = refl
  do_add-push (r ∷ rl) rg m = do_add-push rl rg (I.add m r.offset r.length iv)

  -- Batches make no difference to the index that there is when all of them are added.
  pub add_range-flush :
      (rg : Range) (rl : List Range) (m : I.Map)
      → do_add I F iv (add_range I F iv rg rl m).0 (add_range I F iv rg rl m).1
        ≡ I.add (do_add I F iv rl m) rg.offset rg.length iv
  unfolding add_range
  add_range-flush rg rl m = elim (Bool-cases (leb batch_size (length (rl ++ rg ∷ [])))) [
    | inl full ↦ rw full (unfold do_add in do_add-push rl rg m)
    | inr room ↦ rw room (do_add-push rl rg m)
  ]

  module _ {block_size : ℕ} (br : SoundReader block_size) (m : I.Map) (bound : ℕ)
      (small : bound < 2 ^ 63) (above_bound : (b : ℕ) → bound ≤ b → br.view b ≡ none) where
    -- The index shows the table in its blocks before an offset, and elsewhere what it showed at first.
    abbrev pub Shows : ℕ → I.Map → Type 0
    Shows off m' =
        I.Valid m'
        × ((x : ℕ)
            → I.get m' x ≡ (if ltb x off && has_block (br.view x) then some iv else I.get m x))

    -- The index shows the table in all its blocks.
    abbrev pub ShowsTable : I.Map → Type 0
    ShowsTable m' =
        I.Valid m' × ((x : ℕ) → I.get m' x ≡ (if has_block (br.view x) then some iv else I.get m x))

    has_block-none : (x : ℕ) → br.view x ≡ none → has_block (br.view x) ≡ false
    unfolding has_block
    has_block-none x e = ap has_block e

    has_block-some : (x : ℕ) → ((d : Bytes) × (br.view x ≡ some d)) → has_block (br.view x) ≡ true
    unfolding has_block
    has_block-some x s = ap has_block s.1

    none-some : (x : ℕ) (d : Bytes) → br.view x ≡ some d → br.view x ≢ none
    none-some x d e h = cc

    before_bound : (x : ℕ) (d : Bytes) → br.view x ≡ some d → x < bound
    before_bound x d e = elim (Bool-cases (ltb x bound)) [
      | inl less ↦ ground (arith, less)
      | inr more ↦ absurd (none-some x d e (above_bound x (ground (arith, more))))
    ]

    -- The next range of the table is after the offset, and ends within the bound.
    pub range_ahead :
        (off : ℕ)
        → (br.reader.next_block_data off).1 ≡ done
        → let s = (br.reader.next_block_data off).0 in
          (off ≤ s)
          × (s < (br.reader.next_block_hole s).0)
          × ((br.reader.next_block_hole s).0 ≤ bound)
    range_ahead off e =
        let s = (br.reader.next_block_data off).0 in
        let h = (br.reader.next_block_hole s).0 in
        let law = br.data_done off e in
        let past : s < h = elim (Bool-cases (ltb s h)) [
          | inl less ↦ ground (arith, less)
          | inr at ↦
              let same : h ≡ s = ground (arith, at, br.hole_le s) in
              absurd (none-some s law.2.0 law.2.1 (ap br.view (sym same) ∙ br.hole_none s))
        ] in
        let last = br.hole_data s (h - 1) (omega arith) (omega arith) in
        (law.0, past, omega (arith, before_bound (h - 1) last.0 last.1))

    range_added :
        (off s h x : ℕ) (old first : Option ℕ)
        → off ≤ s
        → s < h
        → ((b : ℕ) → off ≤ b → b < s → br.view b ≡ none)
        → ((b : ℕ) → s ≤ b → b < h → (d : Bytes) × (br.view b ≡ some d))
        → old ≡ (if ltb x off && has_block (br.view x) then some iv else first)
        → (if in_range s (h - s) x then some iv else old)
          ≡ (if ltb x h && has_block (br.view x) then some iv else first)
    range_added off s h x old first off_le ahead gap run shown =
        elim (Bool-cases (in_range s (h - s) x)) [
          | inl inside ↦ ground (
            arith,
            inside,
            has_block-some x (run x (ground (arith, inside)) (ground (arith, inside))),
          )
          | inr outside ↦ elim (Bool-cases (ltb x off)) [
            | inl before ↦ ground (arith, outside, before, shown)
            | inr from ↦ elim (Bool-cases (ltb x s)) [
              | inl skipped ↦ ground (
                arith,
                outside,
                shown,
                from,
                has_block-none x (gap x (ground (arith, from)) (ground (arith, skipped))),
              )
              | inr past ↦ ground (arith, outside, shown, from, past)
            ]
          ]
        ]

    -- One more range
    pub Shows-add :
        (off : ℕ) (m' : I.Map)
        → (br.reader.next_block_data off).1 ≡ done
        → Shows off m'
        → let s = (br.reader.next_block_data off).0 in
          Shows
            (br.reader.next_block_hole s).0
            (I.add m' s ((br.reader.next_block_hole s).0 - s) iv)
    Shows-add off m' e shown =
        let s = (br.reader.next_block_data off).0 in
        let h = (br.reader.next_block_hole s).0 in
        let law = br.data_done off e in
        let r = range_ahead off e in
        (
          I.add-Valid m' s (h - s) iv shown.0 (omega (arith, r)),
          λ x.
              I.get-add m' s (h - s) iv shown.0 (omega (arith, r)) x
              ∙ range_added off s h x (I.get m' x) (I.get m x) law.0 r.1 law.1
                  (λ b above under. br.hole_data s b above under) (shown.1 x),
        )

    -- At the end of the table
    pub shown_all :
        (off : ℕ) (end : I.Map)
        → (br.reader.next_block_data off).1 ≡ eof
        → Shows off end
        → ShowsTable end
    shown_all off end e shown = (
      shown.0,
      λ x. elim (Bool-cases (ltb x off)) [
        | inl before ↦ ground (arith, before, shown.1 x)
        | inr from ↦
            ground (
              arith,
              from,
              shown.1 x,
              has_block-none x (br.data_eof off e x (ground (arith, from))),
            )
      ],
    )

    abbrev Ends : ℕ → ℕ → List Range → I.Map → Type 0
    Ends fuel off rl m' =
        (end : I.Map) × (push_loop I F br.reader iv fuel off rl m' ≡ pushed end) × ShowsTable end

    push_step :
        (fuel off : ℕ) (rl : List Range) (m' : I.Map)
        → Shows off (do_add I F iv rl m')
        → ((off' : ℕ) (rl' : List Range) (m'' : I.Map)
            → off < off'
            → off' ≤ bound
            → Shows off' (do_add I F iv rl' m'')
            → Ends fuel off' rl' m'')
        → (s : Status) → (br.reader.next_block_data off).1 ≡ s
        → Ends (suc fuel) off rl m'
    unfolding push_loop
    push_step fuel off rl m' shown go eof e =
        (do_add I F iv rl m', rw (e, push_loop) refl, shown_all off (do_add I F iv rl m') e shown)
    push_step fuel off rl m' shown go failed e = absurd (br.data_ok off e)
    push_step fuel off rl m' shown go done e =
        let s = (br.reader.next_block_data off).0 in
        let h = (br.reader.next_block_hole s).0 in
        let r = range_ahead off e in
        let rg : Range = record { offset = s; length = h - s } in
        let next = add_range I F iv rg rl m' in
        let rest = go h next.0 next.1 (omega (arith, r)) r.2 (
          subst (Shows h) (sym (add_range-flush rg rl m'))
            (Shows-add off (do_add I F iv rl m') e shown)) in
        (rest.0, rw (e, push_loop) (rw (br.hole_done s, push_loop) rest.1), rest.2)

    -- With more fuel than blocks up to the bound, the loop of PushReader ends without a panic, and the index
    -- shows the table in all its blocks.
    push_loop-ShowsTable :
        (fuel off : ℕ) (rl : List Range) (m' : I.Map)
        → off ≤ bound
        → bound < fuel + off
        → Shows off (do_add I F iv rl m')
        → Ends fuel off rl m'
    push_loop-ShowsTable zero off rl m' inside enough shown = absurd (omega arith)
    push_loop-ShowsTable (suc fuel) off rl m' inside enough shown =
        push_step fuel off rl m' shown
          (λ off' rl' m'' later inside' shown'.
            push_loop-ShowsTable fuel off' rl' m'' inside' (omega arith) shown')
          (br.reader.next_block_data off).1 refl

    -- With more fuel than the bound on the blocks of a sound table, the loop of PushReader, from its start on a
    -- valid index, ends without a panic; the index is valid then, has the number of the table in exactly
    -- the blocks of the table, and is elsewhere as it was.
    pub push_loop_lem :
        (fuel : ℕ)
        → bound < fuel
        → I.Valid m
        → (end : I.Map) × (push_loop I F br.reader iv fuel 0 [] m ≡ pushed end) × ShowsTable end
    unfolding do_add
    push_loop_lem fuel enough valid =
        push_loop-ShowsTable fuel 0 [] m (omega arith) (omega arith) (valid, λ x. ground arith)
