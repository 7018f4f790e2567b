-- ===== src/Util/WaitBarrier/Steps.antt =====
-- The steps of internal/util/wait_barrier.go keep its invariant.
use logblock.Prelude.{
  ℕ, update, zero, suc, ◌+◌, ◌≤◌, ◌<◌, ◌≡◌, ◌≢◌, sym, ap, ◌∙◌, ◌⊎◌, inl, inr, Option, none, some,
  arith, ◌==◌, Bool-cases,
}
use logblock.Util.WaitBarrier.{
  WaitBarrier, start, done, begin_barrier, System, Step, starts, ends, skips, waits, returns, Reach,
  initial, later,
}
use logblock.Util.WaitBarrier.Invariant.{
  in_group, is_waiting, owned, latest, Inv, init-Inv, held-update, held-started, held_member,
}
use logblock.Util.WaitBarrier.Counters.{
  owned-update, owned_suc, done_counts, after_end, not_waiting, waiting_one, not_owned, start_lem,
  begin_lem,
}

started_before :
    (active : ℕ → Option ℕ) (i g j h : ℕ)
    → update active i (some g) j ≡ some h
    → ((j ≡ i) × (h ≡ g)) ⊎ (active j ≡ some h)
started_before active i g j h e = elim (Bool-cases (i == j)) [
  | inl here ↦ inl (ground (arith, here), ground (arith, here, e))
  | inr other ↦ inr (ground (arith, other, e))
]

call_before :
    (waiting : ℕ → Option (ℕ × ℕ)) (g own at h own' at' : ℕ)
    → update waiting g (some (own, at)) h ≡ some (own', at')
    → ((h ≡ g) × (own' ≡ own) × (at' ≡ at)) ⊎ (waiting h ≡ some (own', at'))
call_before waiting g own at h own' at' e = elim (Bool-cases (g == h)) [
  | inl here ↦ inl (ground (arith, here), ground (arith, here, e), ground (arith, here, e))
  | inr other ↦ inr (ground (arith, other, e))
]

call_after :
    (waiting : ℕ → Option (ℕ × ℕ)) (g h : ℕ) (w : ℕ × ℕ)
    → update waiting g none h ≡ some w
    → waiting h ≡ some w
call_after waiting g h w e = elim (Bool-cases (g == h)) [
  | inl here ↦ absurd (ground (arith, here, e))
  | inr other ↦ ground (arith, other, e)
]

module _ {s : System} (inv : Inv s) where
  starts-Inv :
      (g : ℕ) (b : WaitBarrier)
      → start s.barrier ≡ (g, b)
      → Inv (record s {
        barrier = b;
        started = s.started + 1;
        active = update s.active s.started (some g);
      })
  unfolding in_group
  starts-Inv g b e =
      let d = start_lem inv g b e in
      let more : s.barrier.made ≤ b.made = ground (arith, d.made_or_one) in
      let next : s.started + 1 ≡ suc s.started = omega arith in
      record {
        latest_group = d.group ∙ ground (arith, d.is_latest);
        counted = λ h. rw next (
            ground (
              arith,
              d.counts_one h,
              inv.counted h,
              inv.counted g,
              held-started h s.started s.active (some g),
            ));
        group_made = λ j h k. elim (started_before s.active s.started g j h k) [
          | inl new ↦ omega (arith, new, d.is_latest)
          | inr old ↦ omega (arith, inv.group_made j h old, more)
        ];
        next_owned = λ h own at k.
            let o = inv.next_owned h own at k in
            (o.0, omega (arith, o.1, more), omega (arith, o.2));
        before = λ h own at k j f l small. elim (started_before s.active s.started g j f l) [
          | inl new ↦ absurd (omega (arith, new, inv.next_owned h own at k))
          | inr old ↦ inv.before h own at k j f old small
        ];
        passed = λ h small free j f l. elim (started_before s.active s.started g j f l) [
          | inl new ↦ omega (arith, new, d.is_latest, small)
          | inr old ↦ inv.passed h (ground (arith, d.made_or_one, small)) free j f old
        ];
      }

  ends-Inv :
      (i g : ℕ) (b : WaitBarrier)
      → s.active i ≡ some g
      → done g s.barrier ≡ some b
      → Inv (record s { barrier = b; active = update s.active i none })
  unfolding in_group
  ends-Inv i g b a e =
      let d = done_counts g s.barrier b e in
      let left = after_end s.active i in
      record {
        latest_group = d.1 ∙ inv.latest_group ∙ ap latest (sym d.2);
        counted = λ h. ground (
          arith,
          d.0,
          d.3 h,
          inv.counted h,
          inv.counted g,
          a,
          held-update h s.started s.active i none (inv.group_made i g a).0,
        );
        group_made = λ j h k. omega (arith, inv.group_made j h (left j h k), d.2);
        next_owned =
            λ h own at k. let o = inv.next_owned h own at k in (o.0, omega (arith, o.1, d.2), o.2);
        before = λ h own at k j f l small. inv.before h own at k j f (left j f l) small;
        passed =
            λ h small free j f l. inv.passed h (omega (arith, small, d.2)) free j f (left j f l);
      }

  waits-Inv :
      (g own : ℕ) (b : WaitBarrier)
      → begin_barrier s.barrier ≡ (some (g, own), b)
      → Inv (record s { barrier = b; waiting = update s.waiting g (some (own, s.started)) })
  unfolding is_waiting
  waits-Inv g own b e =
      let d = begin_lem inv g own b e in
      let new = not_owned inv own (omega (arith, d.own_new)) in
      record {
        latest_group = d.own_group ∙ ground (arith, d.own_new, d.next_made);
        counted = λ h. ground (
          arith,
          d.own_one h,
          inv.counted h,
          d.is_own,
          new,
          owned-update s.waiting g (some (own, s.started)) h,
        );
        group_made = λ j h k. omega (arith, inv.group_made j h k, d.next_made);
        next_owned = λ h own' at k. elim (call_before s.waiting g own s.started h own' at k) [
          | inl c ↦ (
            omega (arith, c, d.is_own),
            omega (arith, c, d.is_own, d.own_new, d.next_made),
            omega (arith, c),
          )
          | inr c ↦
              let o = inv.next_owned h own' at c in (o.0, omega (arith, o.1, d.next_made), o.2)
        ];
        before = λ h own' at k j f l small.
            elim (call_before s.waiting g own s.started h own' at k) [
              | inl c ↦ omega (arith, c, inv.group_made j f l, d.is_own, d.own_new)
              | inr c ↦ inv.before h own' at c j f l small
            ];
        passed = λ h small free j f l. elim (Bool-cases (g == h)) [
          | inl here ↦ absurd (ground (arith, here, free))
          | inr other ↦
              inv.passed h (ground (arith, other, small, d.is_own, d.own_new, d.next_made))
                (ground (arith, other, free)) j f l
        ];
      }

  -- A group that has no counts left has no contexts.
  group_empty : (g : ℕ) → s.barrier.counts g ≡ 0 → (i h : ℕ) → s.active i ≡ some h → h ≢ g
  group_empty g zero_count i h a same = absurd (
      omega (
        arith,
        inv.counted g,
        held_member g s.started s.active i (inv.group_made i h a).0 (a ∙ ap (λ k. some k) same),
      ))

  -- Contexts are in later groups than one that has no counts left.
  pub all_later :
      (g : ℕ)
      → g < s.barrier.made
      → s.barrier.counts g ≡ 0
      → (i h : ℕ) → s.active i ≡ some h
      → g < h
  unfolding owned
  all_later zero made zero_count i h a = elim (Bool-cases (h == 0)) [
    | inl first ↦ absurd (group_empty zero zero_count i h a (ground (arith, first)))
    | inr more ↦ ground (arith, more)
  ]
  all_later (suc k) made zero_count i h a =
      let free : is_waiting (s.waiting k) ≡ 0 = omega (arith, inv.counted (suc k)) in
      let past = inv.passed k (omega arith) (not_waiting (s.waiting k) free) i h a in
      elim (Bool-cases (h == suc k)) [
        | inl here ↦ absurd (group_empty (suc k) zero_count i h a (ground (arith, here)))
        | inr more ↦ ground (arith, more, past)
      ]

  returns-Inv :
      (g own at : ℕ) (b : WaitBarrier)
      → s.waiting g ≡ some (own, at)
      → s.barrier.counts g ≡ 0
      → done own s.barrier ≡ some b
      → Inv (record s { barrier = b; waiting = update s.waiting g none })
  unfolding is_waiting
  returns-Inv g own at b w zero_count e =
      let d = done_counts own s.barrier b e in
      let o = inv.next_owned g own at w in
      let one = owned_suc s.waiting g ∙ waiting_one (s.waiting g) (own, at) w in
      record {
        latest_group = d.1 ∙ inv.latest_group ∙ ap latest (sym d.2);
        counted = λ h. ground (
          arith,
          d.0,
          d.3 h,
          inv.counted h,
          inv.counted own,
          o.0,
          one,
          owned-update s.waiting g none h,
        );
        group_made = λ j h k. omega (arith, inv.group_made j h k, d.2);
        next_owned = λ h own' at' k.
            let p = inv.next_owned h own' at' (call_after s.waiting g h (own', at') k) in
            (p.0, omega (arith, p.1, d.2), p.2);
        before = λ h own' at' k. inv.before h own' at' (call_after s.waiting g h (own', at') k);
        passed = λ h small free j f l. elim (Bool-cases (g == h)) [
          | inl here ↦
              let same : g ≡ h = ground (arith, here) in
              omega (arith, same, all_later g (omega (arith, o.1)) zero_count j f l)
          | inr other ↦ inv.passed h (omega (arith, small, d.2)) (ground (arith, other, free)) j f l
        ];
      }

  pub Step-Inv : {t : System} → Step s t → Inv t
  Step-Inv (starts g b e) = starts-Inv g b e
  Step-Inv (ends i g b a e) = ends-Inv i g b a e
  Step-Inv (skips e) = inv
  Step-Inv (waits g own b e) = waits-Inv g own b e
  Step-Inv (returns g own at b w z e) = returns-Inv g own at b w z e

pub Reach-Inv : {s : System} → Reach s → Inv s
Reach-Inv initial = init-Inv
Reach-Inv (later r st) = Step-Inv (Reach-Inv r) st
