-- ===== src/Tracker/Reader/Names.antt =====
-- Lists of tables (internal/tracker/reader.go): the first that has a block, membership, and lists without repeats.
use logblock.Prelude.{
  ℕ, ◌≡◌, refl, ap, ◌∙◌, Bool, true, false, ◌||◌, Option, none, some, List, [], ◌∷◌, ◌++◌, arith,
  if◌then◌else◌, append-nil,
}
use logblock.BlockMap.{is_member}
use logblock.Tracker.Reader.{reverse, delete_merged}

abbrev pub or_first : Option ℕ → Option ℕ → Option ℕ
or_first none y = y
or_first (some x) y = some x

-- The first of the names that has the block
unfoldable pub first : (ℕ → ℕ → Bool) → List ℕ → ℕ → Option ℕ
first has [] b = none
first has (x ∷ xs) b = if has x b then some x else first has xs b

abbrev pub Distinct : List ℕ → Type 0
Distinct [] = Unit
Distinct (x ∷ xs) = (is_member x xs ≡ false) × Distinct xs

module _ (has : ℕ → ℕ → Bool) (b : ℕ) where
  pub first-append :
      (xs ys : List ℕ) → first has (xs ++ ys) b ≡ or_first (first has xs b) (first has ys b)
  unfolding first
  first-append [] ys = refl
  first-append (x ∷ xs) ys = ground (arith, first-append xs ys)

  -- A list whose names are all among those before it adds nothing.
  pub first_again :
      (xs ys : List ℕ) (o : Option ℕ)
      → or_first (first has (xs ++ ys) b) (or_first (first has ys b) o)
        ≡ or_first (first has (xs ++ ys) b) o
  first_again xs ys o = ground (arith, first-append xs ys)

pub is_member-append :
    (x : ℕ) (xs ys : List ℕ) → is_member x (xs ++ ys) ≡ (is_member x xs || is_member x ys)
unfolding is_member
is_member-append x [] ys = refl
is_member-append x (y ∷ xs) ys = ground (arith, is_member-append x xs ys)

is_member-reverse : (x : ℕ) (xs : List ℕ) → is_member x (reverse xs) ≡ is_member x xs
unfolding is_member reverse
is_member-reverse x [] = refl
is_member-reverse x (y ∷ xs) =
    is_member-append x (reverse xs) (y ∷ []) ∙ ground (arith, is_member-reverse x xs)

pub Distinct-drop : (xs ys : List ℕ) → Distinct (xs ++ ys) → Distinct ys
Distinct-drop [] ys d = d
Distinct-drop (x ∷ xs) ys d = Distinct-drop xs ys d.1

pub Distinct-take : (xs ys : List ℕ) → Distinct (xs ++ ys) → Distinct xs
Distinct-take [] ys d = tt
Distinct-take (x ∷ xs) ys d =
    (ground (arith, d.0, is_member-append x xs ys), Distinct-take xs ys d.1)

Distinct-apart :
    (x : ℕ) (xs ys : List ℕ) → Distinct (xs ++ ys) → is_member x xs ≡ true → is_member x ys ≡ false
unfolding is_member
Distinct-apart x [] ys d h = absurd (ground (arith, h))
Distinct-apart x (y ∷ xs) ys d h =
    ground (arith, d.0, is_member-append y xs ys, Distinct-apart x xs ys d.1)

reverse-append : (xs : List ℕ) (x : ℕ) → reverse (xs ++ x ∷ []) ≡ x ∷ reverse xs
unfolding reverse
reverse-append [] x = refl
reverse-append (y ∷ xs) x = ap (λ t. t ++ y ∷ []) (reverse-append xs x)

pub reverse-reverse : (xs : List ℕ) → reverse (reverse xs) ≡ xs
unfolding reverse
reverse-reverse [] = refl
reverse-reverse (x ∷ xs) = reverse-append (reverse xs) x ∙ ap (λ t. x ∷ t) (reverse-reverse xs)

module _ (rs : List ℕ) where
  delete_merged-append :
      (xs ys : List ℕ) → delete_merged rs (xs ++ ys) ≡ delete_merged rs xs ++ delete_merged rs ys
  unfolding delete_merged
  delete_merged-append [] ys = refl
  delete_merged-append (x ∷ xs) ys = ground (arith, delete_merged-append xs ys)

  delete_all :
      (xs : List ℕ)
      → ((x : ℕ) → is_member x xs ≡ true → is_member x rs ≡ true)
      → delete_merged rs xs ≡ []
  unfolding delete_merged is_member
  delete_all [] h = refl
  delete_all (x ∷ xs) h =
      ground (arith, h x (ground arith), delete_all xs (λ y m. h y (ground (arith, m))))

  delete_nothing :
      (xs : List ℕ)
      → ((x : ℕ) → is_member x xs ≡ true → is_member x rs ≡ false)
      → delete_merged rs xs ≡ xs
  unfolding delete_merged is_member
  delete_nothing [] h = refl
  delete_nothing (x ∷ xs) h =
      ground (arith, h x (ground arith), delete_nothing xs (λ y m. h y (ground (arith, m))))

-- What is left of the pending tables after a merge
pub delete_merged-reverse :
    (extra p : List ℕ) → Distinct (extra ++ p) → delete_merged (reverse p) (extra ++ p) ≡ extra
delete_merged-reverse extra p d =
    delete_merged-append (reverse p) extra p
    ∙ (λ i.
        delete_nothing (reverse p) extra
          (λ x m. is_member-reverse x p ∙ Distinct-apart x extra p d m) i
        ++ delete_all (reverse p) p (λ x m. is_member-reverse x p ∙ m) i)
    ∙ append-nil extra
