-- ===== src/Tracker/Reader/Removal/Logs.antt =====
-- Lists of the write logs of internal/tracker/reader.go, newest first
use logblock.Prelude.{
  ℕ, ◌≤◌, ◌<◌, ◌≡◌, refl, ap, subst, inl, inr, Bool, false, ◌||◌, some, List, [], ◌∷◌, ◌++◌, arith,
  ◌==◌, map, Bool-cases, Option-cases,
}
use logblock.Tracker.Reader.{writer_layer, reader_layer, primary_layer, delete_writer}
use logblock.Tracker.Reader.Removal.{in_stack}

-- Logs in descending order, newest first
abbrev pub Newer : ℕ → List ℕ → Type 0
Newer n [] = Unit
Newer n (x ∷ xs) = (x < n) × Newer x xs

pub Newer-widen : (a b : ℕ) (xs : List ℕ) → a ≤ b → Newer a xs → Newer b xs
Newer-widen a b [] le h = tt
Newer-widen a b (x ∷ xs) le h = (omega (arith, h.0), h.1)

-- A log is in the list
unfoldable pub is_log : ℕ → List ℕ → Bool
is_log w [] = false
is_log w (x ∷ xs) = w == x || is_log w xs

pub above_Newer : (n w : ℕ) (xs : List ℕ) → Newer n xs → n ≤ w → is_log w xs ≡ false
unfolding is_log
above_Newer n w [] h le = refl
above_Newer n w (x ∷ xs) h le = ground (arith, above_Newer x w xs h.1 (omega (arith, h.0)), h.0)

pub Newer-delete :
    (n w : ℕ) (xs ys : List ℕ)
    → Newer n xs
    → delete_writer w xs ≡ some ys
    → Newer n ys × (is_log w ys ≡ false)
unfolding delete_writer is_log
Newer-delete n w [] ys h e = absurd (ground (arith, e))
Newer-delete n w (x ∷ xs) ys h e = elim (Bool-cases (x == w)) [
  | inl here ↦
      let same : xs ≡ ys = ground (arith, e, here) in
      let at : x ≡ w = ground (arith, here) in
      subst (λ zs. Newer n zs × (is_log w zs ≡ false)) same
        (Newer-widen x n xs (omega (arith, h.0)) h.1, above_Newer x w xs h.1 (omega (arith, at)))
  | inr further ↦ elim (Option-cases (delete_writer w xs)) [
    | inl gone ↦ absurd (ground (arith, e, further, gone))
    | inr (zs, rest) ↦
        let same : (x ∷ zs) ≡ ys = ground (arith, e, further, rest) in
        let r = Newer-delete x w xs zs h.1 rest in
        subst (λ k. Newer n k × (is_log w k ≡ false)) same
          ((h.0, r.0), ground (arith, r.1, further))
  ]
]

pub still_gone :
    (k l : ℕ) (xs ys : List ℕ)
    → delete_writer l xs ≡ some ys
    → is_log k xs ≡ false
    → is_log k ys ≡ false
unfolding delete_writer is_log
still_gone k l [] ys e h = absurd (ground (arith, e))
still_gone k l (x ∷ xs) ys e h = elim (Bool-cases (x == l)) [
  | inl here ↦
      let same : xs ≡ ys = ground (arith, e, here) in
      subst (λ zs. is_log k zs ≡ false) same (ground (arith, h))
  | inr further ↦ elim (Option-cases (delete_writer l xs)) [
    | inl gone ↦ absurd (ground (arith, e, further, gone))
    | inr (zs, rest) ↦
        let same : (x ∷ zs) ≡ ys = ground (arith, e, further, rest) in
        let r = still_gone k l xs zs rest (ground (arith, h)) in
        subst (λ t. is_log k t ≡ false) same (ground (arith, r, h))
  ]
]

pub deleted_below : (n l : ℕ) (xs ys : List ℕ) → Newer n xs → delete_writer l xs ≡ some ys → l < n
unfolding delete_writer
deleted_below n l [] ys h e = absurd (ground (arith, e))
deleted_below n l (x ∷ xs) ys h e = elim (Bool-cases (x == l)) [
  | inl here ↦ ground (arith, here, h.0)
  | inr further ↦ elim (Option-cases (delete_writer l xs)) [
    | inl gone ↦ absurd (ground (arith, e, further, gone))
    | inr (zs, rest) ↦ omega (arith, deleted_below x l xs zs h.1 rest, h.0)
  ]
]

pub no_log : (l : ℕ) → in_stack l [] ≡ false
unfolding in_stack
no_log l = refl

pub in_stack-built :
    (w : ℕ) (ws rs : List ℕ)
    → in_stack w (map writer_layer ws ++ (map reader_layer rs ++ primary_layer ∷ [])) ≡ is_log w ws
unfolding in_stack is_log
in_stack-built w [] [] = refl
in_stack-built w [] (r ∷ rs) = in_stack-built w [] rs
in_stack-built w (x ∷ ws) rs = ap (λ b. w == x || b) (in_stack-built w ws rs)
