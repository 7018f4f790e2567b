-- ===== src/Util/WaitBarrier.antt =====
-- internal/util/wait_barrier.go. A wait group is known by a number (its pointer), and `counts` are their counters.
-- The contexts that Start has given are numbered in the order in which it gave them.
pub mod Invariant
pub mod Counters
pub mod Steps
pub mod Safety
pub mod Returns
mod Tests
use logblock.Prelude.{
  ℕ, update, zero, suc, ◌+◌, ◌-◌, ◌≤◌, ◌<◌, ◌≡◌, Option, none, some, arith, if◌then◌else◌, ◌==◌,
}

-- `WaitBarrier`, with the wait groups and the number of them that `new` has made
pub record WaitBarrier : Type 0 where
  pub wg : Option ℕ
  pub made : ℕ
  pub counts : ℕ → ℕ

abbrev pub new_barrier : WaitBarrier
new_barrier = record { wg = none; made = 0; counts = λ g. 0 }

-- `wg.Add(1)`
unfoldable pub add_one : ℕ → WaitBarrier → WaitBarrier
add_one g b = record b { counts = update b.counts g (b.counts g + 1) }

-- `b.wg = new(sync.WaitGroup)`
unfoldable pub new_group : WaitBarrier → WaitBarrier
new_group b = record { wg = some b.made; made = b.made + 1; counts = update b.counts b.made 0 }

-- `Start`: the group of the context, and the barrier afterwards
unfoldable pub start : WaitBarrier → ℕ × WaitBarrier
start b = elim b.wg [ none ↦ (b.made, add_one b.made (new_group b)) | some g ↦ (g, add_one g b) ]

-- `Done`; `none` is the panic on a negative counter.
unfoldable pub done : ℕ → WaitBarrier → Option WaitBarrier
done g b =
    if b.counts g == 0
    then none
    else some (record b { counts = update b.counts g (b.counts g - 1) })

-- `BarrierWithUnlock` up to its Wait: the group that it waits for and its own, if there is one to wait for
unfoldable pub begin_barrier : WaitBarrier → Option (ℕ × ℕ) × WaitBarrier
begin_barrier b = elim b.wg [
  | none ↦ (none, b)
  | some g ↦ (some (g, b.made), add_one b.made (new_group b))
]

-- The barrier with those that use it: the groups of the contexts that are not done yet, and by the group
-- that it waits for, the group of each call of BarrierWithUnlock and the number of contexts started before it
pub record System : Type 0 where
  pub barrier : WaitBarrier
  pub started : ℕ
  pub active : ℕ → Option ℕ
  pub waiting : ℕ → Option (ℕ × ℕ)

abbrev pub init : System
init = record { barrier = new_barrier; started = 0; active = λ i. none; waiting = λ g. none }

pub data Step (s : System) : System → Type 0 where
  starts :
      (g : ℕ) (b : WaitBarrier)
      → start s.barrier ≡ (g, b)
      → Step s (record s {
        barrier = b;
        started = s.started + 1;
        active = update s.active s.started (some g);
      })
  ends :
      (i g : ℕ) (b : WaitBarrier)
      → s.active i ≡ some g
      → done g s.barrier ≡ some b
      → Step s (record s { barrier = b; active = update s.active i none })
  -- Without a group, BarrierWithUnlock returns at once.
  skips : (begin_barrier s.barrier).0 ≡ none → Step s s
  waits :
      (g own : ℕ) (b : WaitBarrier)
      → begin_barrier s.barrier ≡ (some (g, own), b)
      → Step s (record s { barrier = b; waiting = update s.waiting g (some (own, s.started)) })
  returns :
      (g own at : ℕ) (b : WaitBarrier)
      → s.waiting g ≡ some (own, at)
      → s.barrier.counts g ≡ 0
      → done own s.barrier ≡ some b
      → Step s (record s { barrier = b; waiting = update s.waiting g none })

pub data Reach : System → Type 0 where
  initial : Reach init
  later : {s t : System} → Reach s → Step s t → Reach t
