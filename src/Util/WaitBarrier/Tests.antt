-- ===== src/Util/WaitBarrier/Tests.antt =====
-- Two operations with a barrier between them.
use logblock.Prelude.{ℕ, update, ◌-◌, ◌≤◌, ◌≡◌, refl, none, some, arith}
use logblock.Util.WaitBarrier.{
  WaitBarrier, new_barrier, add_one, new_group, start, done, begin_barrier, System, starts, ends,
  waits, Reach, initial, later,
}
use logblock.Util.WaitBarrier.Returns.{Steps, barriers_end}
use logblock.Util.WaitBarrier.Safety.{barrier_waits, done_possible, barrier_returns}

abbrev one_start : WaitBarrier
one_start = (start new_barrier).1

abbrev begun : WaitBarrier
begun = (begin_barrier one_start).1

abbrev two_starts : WaitBarrier
two_starts = (start begun).1

abbrev one_left : WaitBarrier
one_left = record two_starts { counts = update two_starts.counts 0 (two_starts.counts 0 - 1) }

abbrev second_started : System
second_started = record {
  barrier = two_starts;
  started = 2;
  active = update (update (λ i. none) 0 (some 0)) 1 (some 1);
  waiting = update (λ g. none) 0 (some (1, 1));
}

second_started-Reach : Reach second_started
unfolding start begin_barrier add_one new_group
second_started-Reach =
    later (later (later initial (starts 0 one_start refl)) (waits 0 1 begun refl))
      (starts 1 two_starts refl)

abbrev first_done : System
first_done = record second_started {
  barrier = one_left;
  active = update second_started.active 0 none;
}

first_done-Reach : Reach first_done
unfolding start begin_barrier add_one new_group done
first_done-Reach = later second_started-Reach (ends 0 0 one_left refl refl)

barrier_waits_example : 1 ≤ 1
unfolding start begin_barrier add_one new_group
barrier_waits_example = barrier_waits 0 1 1 first_done-Reach refl refl 1 1 refl

done_possible_example :
    ((i g : ℕ)
      → second_started.active i ≡ some g
      → (b : WaitBarrier) × (done g two_starts ≡ some b))
    × ((g own at : ℕ)
        → second_started.waiting g ≡ some (own, at)
        → (b : WaitBarrier) × (done own two_starts ≡ some b))
done_possible_example = done_possible second_started-Reach

abbrev all_done : System
all_done = record {
  barrier = record begun { counts = update begun.counts 0 (begun.counts 0 - 1) };
  started = 1;
  active = update (update (λ i. none) 0 (some 0)) 0 none;
  waiting = update (λ g. none) 0 (some (1, 1));
}

all_done-Reach : Reach all_done
unfolding start begin_barrier add_one new_group done
all_done-Reach =
    later (later (later initial (starts 0 one_start refl)) (waits 0 1 begun refl))
      (ends 0 0 all_done.barrier refl refl)

barrier_returns_example :
    (h : ℕ) × (v : ℕ × ℕ) × (all_done.waiting h ≡ some v) × (all_done.barrier.counts h ≡ 0)
barrier_returns_example = barrier_returns 0 (1, 1) all_done-Reach (λ i. ground arith) refl

barriers_end_example : (t : System) × Steps all_done t × ((g : ℕ) → t.waiting g ≡ none)
barriers_end_example = barriers_end all_done-Reach (λ i. ground arith)
