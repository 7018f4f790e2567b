-- ===== src/BlockMap/Tables.antt =====
-- Adding and removing tables (internal/blockmap/reader.go), as changes of the table that is found for a block.
use logblock.Prelude.{
  ℕ, update, ◌^◌, ◌≤◌, ◌<◌, ◌≡◌, ◌≢◌, refl, sym, ap, ◌∙◌, inl, inr, true, false, Option, none, some,
  [], ◌∷◌, ◌++◌, arith, if◌then◌else◌, ◌==◌, Bool-cases, Option-cases,
}
use logblock.Readers.Views.{SoundReader}
use logblock.RangeMap.Index.{RangeIndex}
use logblock.BlockMap.{
  FreeSet, is_member, delete_table, BlockMap, new_block_map, fetch_or_add_value_index, start_push,
  push_reader, push_ok, remove_table, find,
}
use logblock.BlockMap.Push.{has_block, push_loop_lem}

not_dead : (found : Option ℕ) (iv n : ℕ) → found ≡ some n → found ≢ some iv → (iv == n) ≡ false
not_dead found iv n e dead = elim (Bool-cases (iv == n)) [
  | inr other ↦ other
  | inl same ↦ let at : n ≡ iv = ground (arith, same) in absurd (dead (e ∙ ap (λ k. some k) at))
]

module _ (I : RangeIndex) (F : FreeSet) where
  -- Every number in the index is in use, and is the number of a table.
  pub record IsConsistent (r : BlockMap I F) : Type 0 where
    pub valid : I.Valid r.range_map
    pub used : (b iv : ℕ) → I.get r.range_map b ≡ some iv → F.test r.free_set iv ≡ false
    pub known : (b iv : ℕ) → I.get r.range_map b ≡ some iv → (br : ℕ) × (r.value_map iv ≡ some br)

  pub new_block_map-IsConsistent :
      (block_size num_blocks : ℕ) → IsConsistent (new_block_map I F block_size num_blocks)
  unfolding new_block_map
  new_block_map-IsConsistent block_size num_blocks = record {
    valid = I.empty-Valid;
    used = λ b iv e. cc (I.get-empty b);
    known = λ b iv e. cc (I.get-empty b);
  }

  pub find-some :
      (r : BlockMap I F) (b iv : ℕ) → I.get r.range_map b ≡ some iv → find I F r b ≡ r.value_map iv
  unfolding find
  find-some r b iv e = rw (e, find) refl

  pub find-none : (r : BlockMap I F) (b : ℕ) → I.get r.range_map b ≡ none → find I F r b ≡ none
  unfolding find
  find-none r b e = rw (e, find) refl

  -- A table that is new, and a free number for it
  module _ (r : BlockMap I F) (consistent : IsConsistent r) (br nv : ℕ)
      (fresh : is_member br r.rs ≡ false) (no_number : r.index_map br ≡ none)
      (free : F.next r.free_set ≡ some nv) where
    abbrev pub started : BlockMap I F
    started = record r {
      rs = r.rs ++ br ∷ [];
      free_set = F.clear r.free_set nv;
      value_map = update r.value_map nv (some br);
      index_map = update r.index_map br (some nv);
    }

    pub start_push_lem : start_push I F br r ≡ some (nv, started)
    unfolding start_push fetch_or_add_value_index
    start_push_lem =
        rw fresh
          (rw (no_number, fetch_or_add_value_index) (rw (free, fetch_or_add_value_index) refl))

    -- A number in the index is not the new one.
    pub other_number : (b iv : ℕ) → I.get r.range_map b ≡ some iv → (nv == iv) ≡ false
    other_number b iv e = elim (Bool-cases (nv == iv)) [
      | inr other ↦ other
      | inl same ↦
          let at : nv ≡ iv = ground (arith, same) in
          absurd (ground (arith, at, consistent.used b iv e, (F.next_some r.free_set nv free).1))
    ]

    module _ {block_size : ℕ} (t : SoundReader block_size) (end : I.Map)
        (shown : I.Valid end
          × ((x : ℕ)
              → I.get end x
                ≡ (if has_block (t.view x) then some nv else I.get r.range_map x))) where
      abbrev pub ended : BlockMap I F
      ended = record started { range_map = end }

      index_at : (b : ℕ) → has_block (t.view b) ≡ true → I.get end b ≡ some nv
      index_at b h = shown.1 b ∙ rw h refl

      index_off : (b : ℕ) → has_block (t.view b) ≡ false → I.get end b ≡ I.get r.range_map b
      index_off b h = shown.1 b ∙ rw h refl

      pub kept : (b iv : ℕ) → I.get r.range_map b ≡ some iv → ended.value_map iv ≡ r.value_map iv
      kept b iv e = rw (other_number b iv e) refl

      pub find-ended :
          (b : ℕ) → find I F ended b ≡ (if has_block (t.view b) then some br else find I F r b)
      find-ended b = elim (Bool-cases (has_block (t.view b))) [
        | inl h ↦ rw h (find-some ended b nv (index_at b h) ∙ ground arith)
        | inr h ↦ rw h (elim (Option-cases (I.get r.range_map b)) [
          | inl e ↦ find-none ended b (index_off b h ∙ e) ∙ sym (find-none r b e)
          | inr (iv, e) ↦
              find-some ended b iv (index_off b h ∙ e) ∙ kept b iv e ∙ sym (find-some r b iv e)
        ])
      ]

      pub ended-IsConsistent : IsConsistent ended
      ended-IsConsistent = record {
        valid = shown.0;
        used = λ b iv e. elim (Bool-cases (has_block (t.view b))) [
          | inl h ↦
              let same : nv ≡ iv = ground (arith, e, index_at b h) in
              F.test-clear r.free_set nv iv ∙ ground (arith, same)
          | inr h ↦
              let was = sym (index_off b h) ∙ e in
              F.test-clear r.free_set nv iv
              ∙ ground (arith, other_number b iv was, consistent.used b iv was)
        ];
        known = λ b iv e. elim (Bool-cases (has_block (t.view b))) [
          | inl h ↦
              let same : nv ≡ iv = ground (arith, e, index_at b h) in (br, ground (arith, same))
          | inr h ↦
              let was = sym (index_off b h) ∙ e in
              let k = consistent.known b iv was in (k.0, kept b iv was ∙ k.1)
        ];
      }

    -- PushReader of a sound table that is new to a consistent block map, with a number free for it, ends without a
    -- panic when there is more fuel than the bound on its blocks; the block map stays consistent, the table
    -- is found for exactly the blocks that it has, and for the other blocks what was found before.
    pub find-push_reader :
        {block_size : ℕ} (t : SoundReader block_size) (bound fuel : ℕ)
        → bound < 2 ^ 63
        → ((b : ℕ) → bound ≤ b → t.view b ≡ none)
        → bound < fuel
        → (r' : BlockMap I F) × (push_reader I F fuel br t.reader r ≡ push_ok r')
          × IsConsistent r'
          × ((b : ℕ) → find I F r' b ≡ (if has_block (t.view b) then some br else find I F r b))
    unfolding push_reader
    find-push_reader t bound fuel small above enough =
        let p = push_loop_lem I F nv t r.range_map bound small above fuel enough consistent.valid in
        (
          ended t p.0 p.2,
          rw (start_push_lem, push_reader) (rw (p.1, push_reader) refl),
          ended-IsConsistent t p.0 p.2,
          find-ended t p.0 p.2,
        )

  -- RemoveTable of a table that no block is found in, with a number that is not 0, leaves a consistent block map
  -- consistent, and what is found for every block as it was.
  pub find-remove_table :
      (r : BlockMap I F) (br iv : ℕ)
      → IsConsistent r
      → r.index_map br ≡ some iv
      → 0 < iv
      → ((b : ℕ) → I.get r.range_map b ≢ some iv)
      → (r' : BlockMap I F) × (remove_table I F br r ≡ some r')
        × IsConsistent r'
        × ((b : ℕ) → find I F r' b ≡ find I F r b)
  unfolding remove_table
  find-remove_table r br iv c number pos dead =
      let r' : BlockMap I F = record r {
        rs = delete_table br r.rs;
        index_map = update r.index_map br none;
        value_map = update r.value_map iv none;
        free_set = F.set r.free_set iv;
      } in
      let other = λ (b n : ℕ) (e : I.get r.range_map b ≡ some n).
        not_dead (I.get r.range_map b) iv n e (dead b) in
      let not_zero : (iv == 0) ≡ false = ground arith in
      (
        r',
        rw (number, remove_table) (rw not_zero refl),
        record {
          valid = c.valid;
          used = λ b n e. F.test-set r.free_set iv n ∙ ground (arith, other b n e, c.used b n e);
          known = λ b n e. let k = c.known b n e in (k.0, rw (other b n e) k.1);
        },
        λ b. elim (Option-cases (I.get r.range_map b)) [
          | inl e ↦ find-none r' b e ∙ sym (find-none r b e)
          | inr (n, e) ↦ find-some r' b n e ∙ rw (other b n e) (sym (find-some r b n e))
        ],
      )
