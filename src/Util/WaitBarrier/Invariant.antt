-- ===== src/Util/WaitBarrier/Invariant.antt =====
-- What holds in every state of internal/util/wait_barrier.go and those that use it.
use logblock.Prelude.{
  ℕ, update, zero, suc, ◌+◌, ◌-◌, ◌≤◌, ◌<◌, ◌≡◌, ◌≢◌, refl, inl, inr, Option, none, some, arith,
  if◌then◌else◌, ◌==◌, Bool-cases, Option-cases,
}
use logblock.Util.WaitBarrier.{System, init}

-- 1 for a context in the group
unfoldable pub in_group : ℕ → Option ℕ → ℕ
in_group g none = 0
in_group g (some h) = if g == h then 1 else 0

-- The number of the first `n` contexts that are in the group
unfoldable pub held : ℕ → ℕ → (ℕ → Option ℕ) → ℕ
held g zero active = 0
held g (suc n) active = held g n active + in_group g (active n)

-- 1 if a call waits for the group
unfoldable pub is_waiting : Option (ℕ × ℕ) → ℕ
is_waiting none = 0
is_waiting (some w) = 1

-- 1 if the group is held by the call that waits for the group before it
unfoldable pub owned : (ℕ → Option (ℕ × ℕ)) → ℕ → ℕ
owned waiting zero = 0
owned waiting (suc h) = is_waiting (waiting h)

abbrev pub latest : ℕ → Option ℕ
latest made = if made == 0 then none else some (made - 1)

pub record Inv (s : System) : Type 0 where
  pub latest_group : s.barrier.wg ≡ latest s.barrier.made
  pub counted : (g : ℕ) → s.barrier.counts g ≡ held g s.started s.active + owned s.waiting g
  pub group_made : (i g : ℕ) → s.active i ≡ some g → (i < s.started) × (g < s.barrier.made)
  pub next_owned :
      (g own at : ℕ)
      → s.waiting g ≡ some (own, at)
      → (own ≡ g + 1) × (g + 1 < s.barrier.made) × (at ≤ s.started)
  -- Contexts from before a call are in the group that it waits for, or in one before it.
  pub before :
      (g own at : ℕ)
      → s.waiting g ≡ some (own, at)
      → (i h : ℕ) → s.active i ≡ some h
      → i < at
      → h ≤ g
  -- When no call waits for a group any more, no context is in it or in one before it.
  pub passed :
      (g : ℕ)
      → g + 1 < s.barrier.made
      → s.waiting g ≡ none
      → (i h : ℕ) → s.active i ≡ some h
      → g < h

held-update_of_le :
    (g n : ℕ) (active : ℕ → Option ℕ) (i : ℕ) (v : Option ℕ)
    → n ≤ i
    → held g n (update active i v) ≡ held g n active
unfolding held
held-update_of_le g zero active i v h = refl
held-update_of_le g (suc n) active i v h = ground (arith, held-update_of_le g n active i v)

pub held-update :
    (g n : ℕ) (active : ℕ → Option ℕ) (i : ℕ) (v : Option ℕ)
    → i < n
    → held g n (update active i v) + in_group g (active i) ≡ held g n active + in_group g v
unfolding held
held-update g zero active i v h = absurd (omega arith)
held-update g (suc n) active i v h = elim (Bool-cases (i == n)) [
  | inl here ↦
      let at : i ≡ n = ground (arith, here) in
      rw at (ground (arith, held-update_of_le g n active n v))
  | inr other ↦ ground (arith, other, held-update g n active i v)
]

pub held-started :
    (g n : ℕ) (active : ℕ → Option ℕ) (v : Option ℕ)
    → held g (suc n) (update active n v) ≡ held g n active + in_group g v
unfolding held
held-started g n active v = ground (arith, held-update_of_le g n active n v)

pub held_member :
    (g n : ℕ) (active : ℕ → Option ℕ) (i : ℕ) → i < n → active i ≡ some g → 0 < held g n active
unfolding held in_group
held_member g zero active i h e = absurd (omega arith)
held_member g (suc n) active i h e = elim (Bool-cases (i == n)) [
  | inl here ↦ let at : i ≡ n = ground (arith, here) in ground (arith, e, at)
  | inr other ↦ ground (arith, other, held_member g n active i)
]

pub held_none :
    (g n : ℕ) (active : ℕ → Option ℕ) → ((i : ℕ) → active i ≢ some g) → held g n active ≡ 0
unfolding held in_group
held_none g zero active h = refl
held_none g (suc n) active h = elim (Option-cases (active n)) [
  | inl e ↦ ground (arith, e, held_none g n active h)
  | inr (k, e) ↦ elim (Bool-cases (g == k)) [
    | inl same ↦ absurd (let at : k ≡ g = ground (arith, same) in h n (cc))
    | inr other ↦ ground (arith, e, other, held_none g n active h)
  ]
]

nothing_owned : (g : ℕ) → owned (λ h. none) g ≡ 0
unfolding owned is_waiting
nothing_owned zero = refl
nothing_owned (suc h) = refl

pub init-Inv : Inv init
init-Inv = record {
  latest_group = refl;
  counted = λ g. omega (arith, held_none g 0 (λ i. none) (λ i. cc), nothing_owned g);
  group_made = λ i g e. cc;
  next_owned = λ g own at e. cc;
  before = λ g own at e. cc;
  passed = λ g h e i k. cc;
}
