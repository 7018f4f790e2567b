-- ===== src/Tracker/Reader/Pushes.antt =====
-- What calls on the block map by internal/tracker/reader.go do
use logblock.Prelude.{
  ℕ, update, ◌^◌, ◌≤◌, ◌<◌, ◌≡◌, ◌≢◌, refl, sym, ap, ◌∙◌, subst, inl, inr, Bool, false, Option,
  none, some, List, [], ◌∷◌, arith, if◌then◌else◌, ◌==◌, Bool-cases,
}
use logblock.Readers.Views.{SoundReader}
use logblock.RangeMap.Index.{RangeIndex}
use logblock.BlockMap.{FreeSet, BlockMap, is_member, delete_table, find, remove_table}
use logblock.BlockMap.Push.{has_block}
use logblock.BlockMap.Tables.{IsConsistent, find-remove_table}

-- What the block map knows of a name
abbrev pub Unknown : {I : RangeIndex} {F : FreeSet} → BlockMap I F → ℕ → Type 0
Unknown r x = (is_member x r.rs ≡ false) × (r.index_map x ≡ none)

is_member-delete_table :
    (x y : ℕ) (xs : List ℕ) → is_member x xs ≡ false → is_member x (delete_table y xs) ≡ false
unfolding is_member delete_table
is_member-delete_table x y [] h = refl
is_member-delete_table x y (z ∷ xs) h = ground (arith, is_member-delete_table x y xs)

module _ (I : RangeIndex) (F : FreeSet) where
  module _ {block_size num_blocks : ℕ} (t : ℕ → SoundReader block_size)
      (small : num_blocks < 2 ^ 63)
      (bounded : (x b : ℕ) → num_blocks ≤ b → (t x).view b ≡ none) where
    abbrev pub has : ℕ → ℕ → Bool
    has x b = has_block ((t x).view b)

    -- What a call of PushReader for a table that was unknown has made of the block map when it ends
    abbrev pub IsIndexed : BlockMap I F → ℕ → BlockMap I F → Type 0
    IsIndexed r br p =
        IsConsistent I F p
        × ((b : ℕ) → find I F p b ≡ (if has br b then some br else find I F r b))
        × ((x : ℕ) → (x == br) ≡ false → Unknown r x → Unknown p x)

  abbrev or_map : Option (BlockMap I F) → BlockMap I F → BlockMap I F
  or_map none r = r
  or_map (some p) r = p

  abbrev removed_table : BlockMap I F → ℕ → ℕ → BlockMap I F
  removed_table r br iv = record r {
    rs = delete_table br r.rs;
    index_map = update r.index_map br none;
    value_map = update r.value_map iv none;
    free_set = F.set r.free_set iv;
  }

  pub remove_table_lem :
      (r : BlockMap I F) (br iv : ℕ) (p : BlockMap I F)
      → IsConsistent I F r
      → r.index_map br ≡ some iv
      → ((b : ℕ) → I.get r.range_map b ≢ some iv)
      → remove_table I F br r ≡ some p
      → IsConsistent I F p
        × ((b : ℕ) → find I F p b ≡ find I F r b)
        × ((x : ℕ) → Unknown r x → Unknown p x)
  unfolding remove_table
  remove_table_lem r br iv p consistent number dead e = elim (Bool-cases (iv == 0)) [
    | inl zero_number ↦
        let fails : remove_table I F br r ≡ none =
          rw (number, remove_table) (rw zero_number refl) in
        absurd (ground (arith, sym fails ∙ e))
    | inr positive ↦
        let removed = removed_table r br iv in
        let result : remove_table I F br r ≡ some removed =
          rw (number, remove_table) (rw positive refl) in
        let same : removed ≡ p = ap (λ o. or_map o r) (sym result ∙ e) in
        let (q, ok, good, finds) =
          find-remove_table I F r br iv consistent number (ground (arith, positive)) dead in
        let also : q ≡ p = ap (λ o. or_map o r) (sym ok ∙ e) in
        (
          subst (IsConsistent I F) also good,
          (λ b. ap (λ k. find I F k b) (sym also) ∙ finds b),
          λ x u. (
            ap (λ k. is_member x k.rs) (sym same) ∙ is_member-delete_table x br r.rs u.0,
            ap (λ k. k.index_map x) (sym same) ∙ ground (arith, u.1),
          ),
        )
  ]
