-- ===== src/Util/WaitBarrier/Returns.antt =====
-- Every call of BarrierWithUnlock of internal/util/wait_barrier.go ends once all operations are over.
use logblock.Prelude.{
  ℕ, zero, suc, update, ◌<◌, ◌≡◌, refl, ap, ◌∙◌, inl, inr, none, arith, ◌==◌, Bool-cases,
  Option-cases,
}
use logblock.Util.WaitBarrier.{System, Step, returns, Reach, later}
use logblock.Util.WaitBarrier.Invariant.{is_waiting, owned, held_none}
use logblock.Util.WaitBarrier.Counters.{done_counts}
use logblock.Util.WaitBarrier.Steps.{Reach-Inv}
use logblock.Util.WaitBarrier.Safety.{done_possible}

-- Steps from one state to another
pub data Steps (s : System) : System → Type 0 where
  stay : Steps s s
  next : {t u : System} → Steps s t → Step t u → Steps s u

Steps-Reach : {s t : System} → Reach s → Steps s t → Reach t
Steps-Reach r stay = r
Steps-Reach r (next m st) = later (Steps-Reach r m) st

-- A state after others, in which no context is active and no call waits for one of the first `n` groups
record Quiet (s : System) (n : ℕ) : Type 0 where
  pub end : System
  pub steps : Steps s end
  pub no_context : (i : ℕ) → end.active i ≡ none
  pub no_call : (g : ℕ) → g < n → end.waiting g ≡ none
  pub same_made : end.barrier.made ≡ s.barrier.made

module _ {s : System} (r : Reach s) where
  group_over :
      (n : ℕ) (t : System)
      → Reach t
      → ((i : ℕ) → t.active i ≡ none)
      → ((g : ℕ) → g < n → t.waiting g ≡ none)
      → t.barrier.counts n ≡ 0
  unfolding owned is_waiting
  group_over zero t reach quiet free =
      omega
        (arith, (Reach-Inv reach).counted 0, held_none 0 t.started t.active (λ i k. cc (quiet i)))
  group_over (suc n) t reach quiet free =
      let none_own : owned t.waiting (suc n) ≡ 0 = ap is_waiting (free n (omega arith)) in
      omega (
        arith,
        (Reach-Inv reach).counted (suc n),
        none_own,
        held_none (suc n) t.started t.active (λ i k. cc (quiet i)),
      )

  next-Quiet : (n : ℕ) → Quiet s n → Quiet s (suc n)
  next-Quiet n q = elim (Option-cases (q.end.waiting n)) [
    | inl e ↦ record {
      end = q.end;
      steps = q.steps;
      no_context = q.no_context;
      no_call = λ g h. elim (Bool-cases (g == n)) [
        | inl here ↦ let at : g ≡ n = ground (arith, here) in ap (λ k. q.end.waiting k) at ∙ e
        | inr other ↦ q.no_call g (ground (arith, other))
      ];
      same_made = q.same_made;
    }
    | inr (w, e) ↦
        let reach = Steps-Reach r q.steps in
        let over = group_over n q.end reach q.no_context q.no_call in
        let d = (done_possible reach).1 n w.0 w.1 e in
        let after = done_counts w.0 q.end.barrier d.0 d.1 in
        record {
          end = record q.end { barrier = d.0; waiting = update q.end.waiting n none };
          steps = next q.steps (returns n w.0 w.1 d.0 e over d.1);
          no_context = q.no_context;
          no_call = λ g h. elim (Bool-cases (n == g)) [
            | inl here ↦ ground (arith, here)
            | inr other ↦ ground (arith, other, q.no_call g (ground (arith, other)))
          ];
          same_made = after.2 ∙ q.same_made;
        }
  ]

  all-Quiet : ((i : ℕ) → s.active i ≡ none) → (n : ℕ) → Quiet s n
  all-Quiet quiet zero = record {
    end = s;
    steps = stay;
    no_context = quiet;
    no_call = λ g h. absurd (omega arith);
    same_made = refl;
  }
  all-Quiet quiet (suc n) = next-Quiet n (all-Quiet quiet n)

-- From every reachable state in which all contexts are done, there are steps to a state in which no call of
-- BarrierWithUnlock waits.
pub barriers_end :
    {s : System}
    → Reach s
    → ((i : ℕ) → s.active i ≡ none)
    → (t : System) × Steps s t × ((g : ℕ) → t.waiting g ≡ none)
barriers_end {s} r quiet =
    let q = all-Quiet r quiet s.barrier.made in
    let inv = Reach-Inv (Steps-Reach r q.steps) in
    (
      q.end,
      q.steps,
      λ g. elim (Option-cases (q.end.waiting g)) [
        | inl e ↦ e
        | inr (w, e) ↦ q.no_call g (omega (arith, inv.next_owned g w.0 w.1 e, q.same_made))
      ],
    )
