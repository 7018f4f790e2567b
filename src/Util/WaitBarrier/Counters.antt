-- ===== src/Util/WaitBarrier/Counters.antt =====
-- What the operations of internal/util/wait_barrier.go do to the counters.
use logblock.Prelude.{
  ℕ, update, zero, suc, ◌+◌, ◌-◌, ◌≤◌, ◌<◌, ◌≡◌, ◌≢◌, refl, sym, ap, ◌∙◌, inl, inr, Option, none,
  some, arith, if◌then◌else◌, ◌==◌, Bool-cases, Option-cases,
}
use logblock.Util.WaitBarrier.{WaitBarrier, add_one, new_group, start, done, begin_barrier, System}
use logblock.Util.WaitBarrier.Invariant.{is_waiting, owned, Inv, held_none}

pub owned-update :
    (waiting : ℕ → Option (ℕ × ℕ)) (h : ℕ) (w : Option (ℕ × ℕ)) (g : ℕ)
    → owned (update waiting h w) g ≡ (if g == h + 1 then is_waiting w else owned waiting g)
unfolding owned
owned-update waiting h w zero = ground arith
owned-update waiting h w (suc k) = ground arith

-- The counters after Done
pub done_counts :
    (g : ℕ) (b b' : WaitBarrier)
    → done g b ≡ some b'
    → (0 < b.counts g)
      × (b'.wg ≡ b.wg)
      × (b'.made ≡ b.made)
      × ((h : ℕ) → b'.counts h ≡ (if g == h then b.counts g - 1 else b.counts h))
unfolding done
done_counts g b b' e = elim (Bool-cases (b.counts g == 0)) [
  | inl bad ↦ absurd (ground (arith, bad, e))
  | inr good ↦
      let after : WaitBarrier = record b { counts = update b.counts g (b.counts g - 1) } in
      let at : after ≡ b' = ground (arith, good, e) in
      (
        ground (arith, good),
        sym (ap (λ c. c.wg) at),
        sym (ap (λ c. c.made) at),
        λ h. sym (ap (λ c. c.counts h) at),
      )
]

pub after_end :
    (active : ℕ → Option ℕ) (i j h : ℕ) → update active i none j ≡ some h → active j ≡ some h
after_end active i j h e = elim (Bool-cases (i == j)) [
  | inl here ↦ absurd (ground (arith, here, e))
  | inr other ↦ ground (arith, other, e)
]

pub not_waiting : (w : Option (ℕ × ℕ)) → is_waiting w ≡ 0 → w ≡ none
unfolding is_waiting
not_waiting none e = refl
not_waiting (some w) e = absurd (omega arith)

pub waiting_one : (w : Option (ℕ × ℕ)) (v : ℕ × ℕ) → w ≡ some v → is_waiting w ≡ 1
unfolding is_waiting
waiting_one none v e = cc
waiting_one (some w) v e = refl

pub owned_suc :
    (waiting : ℕ → Option (ℕ × ℕ)) (g : ℕ) → owned waiting (g + 1) ≡ is_waiting (waiting g)
unfolding owned
owned_suc waiting g = let e : g + 1 ≡ suc g = omega arith in rw e refl

module _ {s : System} (inv : Inv s) where
  not_active : (g : ℕ) → s.barrier.made ≤ g → (i : ℕ) → s.active i ≢ some g
  not_active g h i e = absurd (omega (arith, inv.group_made i g e))

  pub not_owned : (g : ℕ) → s.barrier.made ≤ g → owned s.waiting g ≡ 0
  unfolding owned is_waiting
  not_owned zero h = refl
  not_owned (suc k) h = elim (Option-cases (s.waiting k)) [
    | inl e ↦ rw (e, is_waiting) refl
    | inr (w, e) ↦ absurd (omega (arith, inv.next_owned k w.0 w.1 e))
  ]

  pub unmade_count : (g : ℕ) → s.barrier.made ≤ g → s.barrier.counts g ≡ 0
  unmade_count g h =
      omega (arith, inv.counted g, held_none g s.started s.active (not_active g h), not_owned g h)

  -- A barrier that has made no group yet has none.
  pub latest_none : s.barrier.wg ≡ none → s.barrier.made ≡ 0
  latest_none e = ground (arith, e, inv.latest_group)

  pub latest_some : (g : ℕ) → s.barrier.wg ≡ some g → g + 1 ≡ s.barrier.made
  latest_some g e = elim (Bool-cases (s.barrier.made == 0)) [
    | inl empty ↦ absurd (ground (arith, empty, e, inv.latest_group))
    | inr made ↦ ground (arith, made, e, inv.latest_group)
  ]

  -- The cases of Start and of BarrierWithUnlock
  abbrev start_with : Option ℕ → ℕ × WaitBarrier
  start_with w = elim w [
    | none ↦ (s.barrier.made, add_one s.barrier.made (new_group s.barrier))
    | some g ↦ (g, add_one g s.barrier)
  ]

  abbrev begin_with : Option ℕ → Option (ℕ × ℕ) × WaitBarrier
  begin_with w = elim w [
    | none ↦ (none, s.barrier)
    | some g ↦ (some (g, s.barrier.made), add_one s.barrier.made (new_group s.barrier))
  ]

  -- After Start
  pub record Started (g : ℕ) (b : WaitBarrier) : Type 0 where
    pub is_latest : g + 1 ≡ b.made
    pub group : b.wg ≡ some g
    pub made_or_one : b.made ≡ (if s.barrier.made == 0 then 1 else s.barrier.made)
    pub counts_one :
        (h : ℕ) → b.counts h ≡ (if g == h then s.barrier.counts g + 1 else s.barrier.counts h)

  pub start_lem : (g : ℕ) (b : WaitBarrier) → start s.barrier ≡ (g, b) → Started g b
  unfolding start add_one new_group
  start_lem g b e = elim (Option-cases s.barrier.wg) [
    | inl empty ↦
        let zeros = unmade_count s.barrier.made (omega arith) in
        let r : start s.barrier ≡ (s.barrier.made, add_one s.barrier.made (new_group s.barrier)) =
          ap start_with empty in
        let at = sym r ∙ e in
        let first : s.barrier.made ≡ g = ap (λ p. p.0) at in
        let after : add_one s.barrier.made (new_group s.barrier) ≡ b = ap (λ p. p.1) at in
        record {
          is_latest = ap (λ k. k + 1) (sym first) ∙ ap (λ c. c.made) after;
          group = sym (ap (λ c. c.wg) after) ∙ ap (λ k. some k) first;
          made_or_one = sym (ap (λ c. c.made) after) ∙ ground (arith, latest_none empty);
          counts_one = λ h. sym (ap (λ c. c.counts h) after) ∙ ground (arith, zeros, first);
        }
    | inr (k, present) ↦
        let r : start s.barrier ≡ (k, add_one k s.barrier) = ap start_with present in
        let at = sym r ∙ e in
        let first : k ≡ g = ap (λ p. p.0) at in
        let after : add_one k s.barrier ≡ b = ap (λ p. p.1) at in
        let l = latest_some k present in
        record {
          is_latest = ap (λ k. k + 1) (sym first) ∙ l ∙ ap (λ c. c.made) after;
          group = sym (ap (λ c. c.wg) after) ∙ present ∙ ap (λ k. some k) first;
          made_or_one = sym (ap (λ c. c.made) after) ∙ ground (arith, l);
          counts_one = λ h. sym (ap (λ c. c.counts h) after) ∙ ground (arith, first);
        }
  ]

  -- After the begin of a barrier that has to wait
  pub record Begun (g own : ℕ) (b : WaitBarrier) : Type 0 where
    pub is_own : own ≡ g + 1
    pub own_new : own ≡ s.barrier.made
    pub next_made : b.made ≡ s.barrier.made + 1
    pub own_group : b.wg ≡ some own
    pub own_one : (h : ℕ) → b.counts h ≡ s.barrier.counts h + (if h == own then 1 else 0)

  pub begin_lem :
      (g own : ℕ) (b : WaitBarrier) → begin_barrier s.barrier ≡ (some (g, own), b) → Begun g own b
  unfolding begin_barrier add_one new_group
  begin_lem g own b e = elim (Option-cases s.barrier.wg) [
    | inl empty ↦
        let r : begin_barrier s.barrier ≡ (none, s.barrier) = ap begin_with empty in
        let at : none ≡ some (g, own) = ap (λ p. p.0) (sym r ∙ e) in absurd (cc)
    | inr (k, present) ↦
        let zeros = unmade_count s.barrier.made (omega arith) in
        let r : begin_barrier s.barrier
            ≡ (some (k, s.barrier.made), add_one s.barrier.made (new_group s.barrier)) =
          ap begin_with present in
        let at = sym r ∙ e in
        let pair : some (k, s.barrier.made) ≡ some (g, own) = ap (λ p. p.0) at in
        let after : add_one s.barrier.made (new_group s.barrier) ≡ b = ap (λ p. p.1) at in
        let l = latest_some k present in
        let ours : s.barrier.made ≡ own = cc in
        let first : k ≡ g = cc in
        record {
          is_own = omega arith;
          own_new = sym ours;
          next_made = sym (ap (λ c. c.made) after);
          own_group = sym (ap (λ c. c.wg) after) ∙ ap (λ k. some k) ours;
          own_one = λ h. sym (ap (λ c. c.counts h) after) ∙ ground (arith, zeros, ours);
        }
  ]
