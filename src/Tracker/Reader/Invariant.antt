-- ===== src/Tracker/Reader/Invariant.antt =====
-- What holds of the tables of internal/tracker/reader.go, and that each part of an operation keeps it
use logblock.Prelude.{
  ℕ, ◌^◌, ◌≤◌, ◌<◌, ◌≡◌, refl, sym, ap, ◌∙◌, subst, Bool, true, false, Option, none, some, List, [],
  ◌∷◌, ◌++◌, arith, if◌then◌else◌, ◌==◌, length, append_assoc, append-nil,
}
use logblock.Readers.Views.{SoundReader}
use logblock.RangeMap.Index.{RangeIndex}
use logblock.BlockMap.{FreeSet, BlockMap, is_member, find}
use logblock.BlockMap.Tables.{IsConsistent}
use logblock.Tracker.Reader.{
  Merge, merge_idle, merge_pushing, merge_adding, merge_waiting, reverse, delete_merged,
}
use logblock.Tracker.Reader.Names.{
  first, Distinct, Distinct-drop, Distinct-take, reverse-reverse, delete_merged-reverse,
}
use logblock.Tracker.Reader.Pushes.{Unknown, has, IsIndexed}

-- What a merge has done: `merged` are the pending tables that are in the block map already, newest first.
abbrev pub Phase : Merge → List ℕ → List ℕ → Bool → Type 0
Phase merge_idle merged pending compacting = merged ≡ []
Phase (merge_waiting g) merged pending compacting = merged ≡ []
Phase (merge_adding c rest rs) merged pending compacting = ⊥
Phase (merge_pushing todo rs) merged pending compacting =
    (compacting ≡ false)
    × (extra : List ℕ) × (p : List ℕ) × (pending ≡ extra ++ p)
    × (rs ≡ reverse p)
    × (p ≡ reverse todo ++ merged)
    × (0 < length p)

regroup :
    (a b c d e : List ℕ) (r : ℕ)
    → ((a ++ ((b ++ r ∷ []) ++ c)) ++ d) ++ e ≡ (a ++ b) ++ (r ∷ (c ++ (d ++ e)))
regroup a b c d e r = simp append_assoc

module _ (I : RangeIndex) (F : FreeSet) {block_size num_blocks : ℕ} (t : ℕ → SoundReader block_size)
    (small : num_blocks < 2 ^ 63) (bounded : (x b : ℕ) → num_blocks ≤ b → (t x).view b ≡ none) where
  abbrev pub H : ℕ → ℕ → Bool
  H = has I F t small bounded

  -- Of the recent tables, `indexed` are those that are not pending any more. The block map is what all but the
  -- pending tables make, with those that the merge has done on top.
  pub record TablesInv (pending : List ℕ) (primary : BlockMap I F) (compacting : Bool)
      (merge : Merge) (recent older : List ℕ) : Type 0 where
    pub consistent : IsConsistent I F primary
    pub indexed : List ℕ
    pub merged : List ℕ
    pub is_recent : recent ≡ pending ++ indexed
    pub distinct : Distinct (recent ++ older)
    pub found : (b : ℕ) → find I F primary b ≡ first H (merged ++ (indexed ++ older)) b
    pub unknown : (x : ℕ) → is_member x (merged ++ (indexed ++ older)) ≡ false → Unknown primary x
    pub phase : Phase merge merged pending compacting
    pub frozen : compacting ≡ true → indexed ≡ []

  module _ {pending : List ℕ} {primary : BlockMap I F} {compacting : Bool} {merge : Merge}
      {recent older : List ℕ} (v : TablesInv pending primary compacting merge recent older) where
    Phase-push :
        (r : ℕ) (g : Merge)
        → Phase g v.merged pending compacting
        → Phase g v.merged (r ∷ pending) compacting
    Phase-push r merge_idle h = h
    Phase-push r (merge_adding c rest rs) h = absurd h
    Phase-push r (merge_waiting g) h = h
    Phase-push r (merge_pushing todo rs) (c, extra, p, e, k, l, h) =
        (c, r ∷ extra, p, ap (λ k. r ∷ k) e, k, l, h)

    pub reader_pushed-TablesInv :
        (r : ℕ)
        → is_member r (recent ++ older) ≡ false
        → TablesInv (r ∷ pending) primary compacting merge (r ∷ recent) older
    reader_pushed-TablesInv r new = record {
      consistent = v.consistent;
      indexed = v.indexed;
      merged = v.merged;
      is_recent = ap (λ k. r ∷ k) v.is_recent;
      distinct = (new, v.distinct);
      found = v.found;
      unknown = v.unknown;
      phase = Phase-push r merge v.phase;
      frozen = v.frozen;
    }

    none_merged : merge ≡ merge_idle → v.merged ≡ []
    none_merged idle = subst (λ g. Phase g v.merged pending compacting) idle v.phase

    pub merge_started-TablesInv :
        merge ≡ merge_idle
        → compacting ≡ false
        → (length pending == 0) ≡ false
        → TablesInv pending primary compacting
            (merge_pushing (reverse pending) (reverse pending))
            recent
            older
    merge_started-TablesInv idle off some_pending = record {
      consistent = v.consistent;
      indexed = v.indexed;
      merged = v.merged;
      is_recent = v.is_recent;
      distinct = v.distinct;
      found = v.found;
      unknown = v.unknown;
      phase = (
        off,
        [],
        pending,
        refl,
        refl,
        sym ((λ i. reverse-reverse pending i ++ none_merged idle i) ∙ append-nil pending),
        ground (arith, some_pending),
      );
      frozen = v.frozen;
    }

    -- The next table of a merge, not in the block map yet
    pub next-Unknown :
        (r : ℕ) (rest rs : List ℕ) → merge ≡ merge_pushing (r ∷ rest) rs → Unknown primary r
    unfolding reverse
    next-Unknown r rest rs e =
        let (c, extra, p, split, k, left, l) =
          subst (λ g. Phase g v.merged pending compacting) e v.phase in
        let tail = v.merged ++ (v.indexed ++ older) in
        let whole : recent ++ older ≡ (extra ++ reverse rest) ++ (r ∷ tail) =
          ap (λ k. k ++ older)
            (v.is_recent ∙ ap (λ k. k ++ v.indexed) (split ∙ ap (λ k. extra ++ k) left))
          ∙ regroup extra (reverse rest) v.merged v.indexed older r in
        v.unknown r
          (Distinct-drop (extra ++ reverse rest) (r ∷ tail) (subst Distinct whole v.distinct)).0

    pub merge_pushed-TablesInv :
        (r : ℕ) (rest rs : List ℕ) (p : BlockMap I F)
        → merge ≡ merge_pushing (r ∷ rest) rs
        → IsIndexed I F t small bounded primary r p
        → TablesInv pending p compacting (merge_pushing rest rs) recent older
    unfolding reverse first is_member
    merge_pushed-TablesInv r rest rs p e done =
        let (c, extra, q, split, k, left, l) =
          subst (λ g. Phase g v.merged pending compacting) e v.phase in
        let (good, finds, others) = done in
        record {
          consistent = good;
          indexed = v.indexed;
          merged = r ∷ v.merged;
          is_recent = v.is_recent;
          distinct = v.distinct;
          found = λ b. finds b ∙ ap (λ o. if H r b then some r else o) (v.found b);
          unknown = λ x u. others x (ground (arith, u)) (v.unknown x (ground (arith, u)));
          phase = (c, extra, q, split, k, left ∙ append_assoc (reverse rest) (r ∷ []) v.merged, l);
          frozen = v.frozen;
        }

    pub merge_ended-TablesInv :
        (rs : List ℕ) (g : Option (ℕ × ℕ))
        → merge ≡ merge_pushing [] rs
        → TablesInv (delete_merged rs pending) primary compacting (merge_waiting g) recent older
    unfolding reverse
    merge_ended-TablesInv rs g e =
        let (c, extra, p, split, whole, done, l) =
          subst (λ g. Phase g v.merged pending compacting) e v.phase in
        let all : recent ≡ extra ++ (p ++ v.indexed) =
          v.is_recent ∙ ap (λ k. k ++ v.indexed) split ∙ append_assoc extra p v.indexed in
        let parts : Distinct (extra ++ p) = Distinct-take (extra ++ p) (v.indexed ++ older) (
          subst Distinct
            (ap (λ k. k ++ older) (v.is_recent ∙ ap (λ k. k ++ v.indexed) split)
              ∙ append_assoc (extra ++ p) v.indexed older)
            v.distinct) in
        record {
          consistent = v.consistent;
          indexed = p ++ v.indexed;
          merged = [];
          is_recent =
              all
              ∙ ap (λ k. k ++ (p ++ v.indexed))
                  (sym (
                    (λ i. delete_merged (whole i) (split i))
                    ∙ delete_merged-reverse extra p parts));
          distinct = v.distinct;
          found = λ b.
              v.found b
              ∙ ap (λ k. first H k b)
                  (ap (λ k. k ++ (v.indexed ++ older)) (sym done)
                    ∙ sym (append_assoc p v.indexed older));
          unknown = λ x u. v.unknown x (
              ap (is_member x) (
                ap (λ k. k ++ (v.indexed ++ older)) (sym done)
                ∙ sym (append_assoc p v.indexed older))
              ∙ u);
          phase = refl;
          frozen = λ on. absurd (ground (arith, c, on));
        }

    pub merge_over-TablesInv :
        (g : Option (ℕ × ℕ))
        → merge ≡ merge_waiting g
        → TablesInv pending primary compacting merge_idle recent older
    merge_over-TablesInv g e = record {
      consistent = v.consistent;
      indexed = v.indexed;
      merged = v.merged;
      is_recent = v.is_recent;
      distinct = v.distinct;
      found = v.found;
      unknown = v.unknown;
      phase = subst (λ g. Phase g v.merged pending compacting) e v.phase;
      frozen = v.frozen;
    }
