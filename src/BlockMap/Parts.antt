-- ===== src/BlockMap/Parts.antt =====
-- A call of `PushReader` of internal/blockmap/reader.go in its parts: what is found while it goes on
use logblock.Prelude.{
  ℕ, ◌-◌, ◌^◌, ◌≤◌, ◌<◌, ◌≡◌, refl, sym, ap, ◌∙◌, subst, ◌⊎◌, inl, inr, Bool, true, false, ◌&&◌,
  ◌||◌, Option, none, some, List, [], ◌∷◌, ◌++◌, arith, if◌then◌else◌, ltb, leb, ◌==◌, length,
  Bool-cases, Option-cases,
}
use logblock.Adaptor.{Status, done, eof, failed}
use logblock.Readers.Views.{SoundReader}
use logblock.RangeMap.{Range}
use logblock.RangeMap.Index.{RangeIndex}
use logblock.BlockMap.{
  FreeSet, BlockMap, PushCall, begin_push, continue_push, start_push, fetch_or_add_value_index,
  is_member, do_add, add_range, batch_size, find,
}
use logblock.BlockMap.Push.{range_ahead, has_block, Shows, add_range-flush, Shows-add, shown_all}
use logblock.BlockMap.Tables.{
  IsConsistent, find-some, find-none, started, start_push_lem, other_number, ended, find-ended,
  ended-IsConsistent,
}

is_member-last : (x y : ℕ) (xs : List ℕ) → is_member x (xs ++ y ∷ []) ≡ (is_member x xs || x == y)
unfolding is_member
is_member-last x y [] = ground arith
is_member-last x y (z ∷ xs) = ground (arith, is_member-last x y xs)

module _ (I : RangeIndex) (F : FreeSet) where
  -- What the block map knows of a name
  abbrev pub Unknown : BlockMap I F → ℕ → Type 0
  Unknown r x = (is_member x r.rs ≡ false) × (r.index_map x ≡ none)

  abbrev with_index : BlockMap I F → I.Map → BlockMap I F
  with_index k m = record k { range_map = m }

  abbrev or_pair :
      Option (PushCall × BlockMap I F) → PushCall × BlockMap I F → PushCall × BlockMap I F
  or_pair none k = k
  or_pair (some q) k = q

  module _ {block_size : ℕ} (t : ℕ → SoundReader block_size) {bound : ℕ} (small : bound < 2 ^ 63)
      (bounded : (x b : ℕ) → bound ≤ b → (t x).view b ≡ none) where
    abbrev pub has : ℕ → ℕ → Bool
    has x b = has_block ((t x).view b)

    -- A block map in the middle of a call, and what it was before
    pub record IsPushing (before : BlockMap I F) (c : PushCall) (r : BlockMap I F) : Type 0 where
      pub consistent : IsConsistent I F before
      pub unknown : Unknown before c.table
      pub free : F.next before.free_set ≡ some c.number
      pub names :
          r ≡ record (started I F before consistent c.table c.number unknown.0 unknown.1 free) {
            range_map = r.range_map;
          }
      pub flushed :
          Shows I F c.number
            (t c.table)
            before.range_map
            bound
            small
            (bounded c.table)
            c.offset
            (do_add I F c.number c.ranges r.range_map)
      pub partial :
          (x : ℕ)
          → (I.get r.range_map x ≡ I.get before.range_map x)
            ⊎ ((has c.table x ≡ true) × (I.get r.range_map x ≡ some c.number))

    -- The first part of the call
    pub begin_push-IsPushing :
        (r : BlockMap I F) (br nv : ℕ)
        → IsConsistent I F r
        → Unknown r br
        → F.next r.free_set ≡ some nv
        → (c : PushCall) × (r' : BlockMap I F) × (begin_push I F br r ≡ some (c, r'))
          × (c.table ≡ br)
          × IsPushing r c r'
    unfolding begin_push do_add
    begin_push-IsPushing r br nv consistent u free =
        let r' = started I F r consistent br nv u.0 u.1 free in
        (
          record { table = br; number = nv; offset = 0; ranges = [] },
          r',
          rw (start_push_lem I F r consistent br nv u.0 u.1 free, begin_push) refl,
          refl,
          record {
            consistent = consistent;
            unknown = u;
            free = free;
            names = refl;
            flushed = (consistent.valid, λ x. ground arith);
            partial = λ x. inl refl;
          },
        )

    begin_push-full :
        (r : BlockMap I F) (br : ℕ)
        → Unknown r br
        → F.next r.free_set ≡ none
        → begin_push I F br r ≡ none
    unfolding begin_push start_push fetch_or_add_value_index
    begin_push-full r br u full =
        let none_left : start_push I F br r ≡ none =
          rw u.0 (rw (u.1, fetch_or_add_value_index) (rw (full, fetch_or_add_value_index) refl)) in
        rw (none_left, begin_push) refl

    -- The same, from the result
    pub begun :
        (r : BlockMap I F) (br : ℕ) (c : PushCall) (r' : BlockMap I F)
        → IsConsistent I F r
        → Unknown r br
        → begin_push I F br r ≡ some (c, r')
        → (c.table ≡ br) × IsPushing r c r'
    begun r br c r' consistent u e = elim (Option-cases (F.next r.free_set)) [
      | inl full ↦ absurd (ground (arith, sym (begin_push-full r br u full) ∙ e))
      | inr (nv, free) ↦
          let (c', q, ok, named, p) = begin_push-IsPushing r br nv consistent u free in
          let same : ◌≡◌ {A = PushCall × BlockMap I F} (c', q) (c, r') =
            ap (λ o. or_pair o (c, r')) (sym ok ∙ e) in
          (ap (λ k. k.0.table) (sym same) ∙ named, subst (λ k. IsPushing r k.0 k.1) same p)
    ]

    module _ {before r : BlockMap I F} {c : PushCall} (p : IsPushing before c r) where
      -- What is found is what was found before, or the table in its blocks.
      pub find-part :
          (b : ℕ)
          → (find I F r b ≡ find I F before b)
            ⊎ ((has c.table b ≡ true) × (find I F r b ≡ some c.table))
      find-part b =
          let nv = c.number in
          let q : BlockMap I F =
            record (started I F before p.consistent c.table nv p.unknown.0 p.unknown.1 p.free) {
              range_map = r.range_map;
            } in
          let same : find I F r b ≡ find I F q b = ap (λ k. find I F k b) p.names in
          elim (p.partial b) [
            | inr (h, e) ↦ inr (h, same ∙ find-some I F q b nv e ∙ ground arith)
            | inl e ↦ elim (Option-cases (I.get before.range_map b)) [
              | inl f ↦ inl (same ∙ find-none I F q b (e ∙ f) ∙ sym (find-none I F before b f))
              | inr (iv, f) ↦
                  let apart =
                    other_number I F before p.consistent c.table nv p.unknown.0 p.unknown.1 p.free b
                      iv f in
                  inl (
                    same
                    ∙ find-some I F q b iv (e ∙ f)
                    ∙ rw apart refl
                    ∙ sym (find-some I F before b iv f))
            ]
          ]

      Unknown-part : (x : ℕ) → (x == c.table) ≡ false → Unknown before x → Unknown r x
      Unknown-part x other u = (
        ap (λ k. is_member x k.rs) p.names
            ∙ is_member-last x c.table before.rs
            ∙ ground (arith, other, u.0),
        ap (λ k. k.index_map x) p.names ∙ ground (arith, other, u.1),
      )

      -- After the part of the call
      abbrev pub Continued : Option (PushCall) → BlockMap I F → Type 0
      Continued (some c') r' =
          (c'.table ≡ c.table)
          × IsPushing before c' r'
          × (c.offset < c'.offset)
          × (c'.offset ≤ bound)
      Continued none r' =
          IsConsistent I F r'
          × ((b : ℕ) → find I F r' b ≡ (if has c.table b then some c.table else find I F before b))
          × ((x : ℕ) → (x == c.table) ≡ false → Unknown before x → Unknown r' x)

      abbrev last : BlockMap I F
      last = record r { range_map = do_add I F c.number c.ranges r.range_map }

      last-Continued : ((t c.table).reader.next_block_data c.offset).1 ≡ eof → Continued none last
      last-Continued e =
          let end = do_add I F c.number c.ranges r.range_map in
          let shown =
            shown_all I F c.number (t c.table) before.range_map bound small (bounded c.table)
              c.offset end e p.flushed in
          let q =
            ended I F before p.consistent c.table c.number p.unknown.0 p.unknown.1 p.free
              (t c.table) end shown in
          let same : last ≡ q = ap (λ k. with_index k end) p.names in
          (
            subst (IsConsistent I F) (sym same) (
                ended-IsConsistent I F before p.consistent c.table c.number p.unknown.0 p.unknown.1
                  p.free (t c.table) end shown),
            (λ b.
                ap (λ k. find I F k b) same
                ∙ find-ended I F before p.consistent c.table c.number p.unknown.0 p.unknown.1 p.free
                    (t c.table) end shown b),
            Unknown-part,
          )

      abbrev next_range : Range
      next_range =
          let s = ((t c.table).reader.next_block_data c.offset).0 in
          record { offset = s; length = ((t c.table).reader.next_block_hole s).0 - s }

      abbrev added : List Range × I.Map
      added = add_range I F c.number next_range c.ranges r.range_map

      abbrev next_call : PushCall
      next_call = record c {
        offset =
            ((t c.table).reader.next_block_hole ((t c.table).reader.next_block_data c.offset).0).0;
        ranges = added.0;
      }

      next-flushed :
          ((t c.table).reader.next_block_data c.offset).1 ≡ done
          → Shows I F c.number
              (t c.table)
              before.range_map
              bound
              small
              (bounded c.table)
              next_call.offset
              (do_add I F c.number added.0 added.1)
      next-flushed e =
          subst
            (Shows I F c.number (t c.table) before.range_map bound small (bounded c.table)
              next_call.offset)
            (sym (add_range-flush I F c.number next_range c.ranges r.range_map))
            (Shows-add I F c.number (t c.table) before.range_map bound small (bounded c.table)
              c.offset (do_add I F c.number c.ranges r.range_map) e p.flushed)

      next-partial :
          ((t c.table).reader.next_block_data c.offset).1 ≡ done
          → (x : ℕ)
          → (I.get added.1 x ≡ I.get before.range_map x)
            ⊎ ((has c.table x ≡ true) × (I.get added.1 x ≡ some c.number))
      unfolding add_range do_add
      next-partial e x = elim (Bool-cases (leb batch_size (length (c.ranges ++ next_range ∷ [])))) [
        | inr room ↦
            let same : added.1 ≡ r.range_map = rw room refl in
            elim (p.partial x) [
              | inl f ↦ inl (ap (λ k. I.get k x) same ∙ f)
              | inr (h, f) ↦ inr (h, ap (λ k. I.get k x) same ∙ f)
            ]
        | inl full ↦
            let flushed : do_add I F c.number added.0 added.1 ≡ added.1 = rw full refl in
            let shown = ap (λ k. I.get k x) (sym flushed) ∙ (next-flushed e).1 x in
            elim (Bool-cases (ltb x next_call.offset && has c.table x)) [
              | inl there ↦ inr (ground (arith, there), shown ∙ rw there refl)
              | inr nowhere ↦ inl (shown ∙ rw nowhere refl)
            ]
      ]

      next-IsPushing :
          ((t c.table).reader.next_block_data c.offset).1 ≡ done
          → IsPushing before next_call (record r { range_map = added.1 })
      next-IsPushing e = record {
        consistent = p.consistent;
        unknown = p.unknown;
        free = p.free;
        names = ap (λ k. with_index k added.1) p.names;
        flushed = next-flushed e;
        partial = next-partial e;
      }

      -- A part of the call does not panic.
      pub continue_push-Continued :
          (o : Option (PushCall)) × (r' : BlockMap I F) × (continue_push I F (t c.table).reader c r
            ≡ some (o, r'))
          × Continued o r'
      unfolding continue_push
      continue_push-Continued = by_data ((t c.table).reader.next_block_data c.offset).1 refl
        where
          by_data :
              (s : Status)
              → ((t c.table).reader.next_block_data c.offset).1 ≡ s
              → (o : Option (PushCall)) × (r' : BlockMap I F) × (continue_push I F
                    (t c.table).reader
                    c
                    r
                  ≡ some (o, r'))
                × Continued o r'
          by_data eof e = (none, last, rw (e, continue_push) refl, last-Continued e)
          by_data failed e = absurd ((t c.table).data_ok c.offset e)
          by_data done e =
              let s = ((t c.table).reader.next_block_data c.offset).0 in
              let ahead =
                range_ahead I F c.number (t c.table) before.range_map bound small (bounded c.table)
                  c.offset e in
              (
                some next_call,
                record r { range_map = added.1 },
                rw (e, continue_push) (rw ((t c.table).hole_done s, continue_push) refl),
                (refl, next-IsPushing e, omega (arith, ahead.0, ahead.1), ahead.2),
              )
