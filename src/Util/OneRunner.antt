-- ===== src/Util/OneRunner.antt =====
-- internal/util/one_runner.go. The state is that under the lock, with what each goroutine does in `do`; `f` is only
-- started and ended. The broadcasts wake waiters that test `running` again, as Wait does.
pub mod Invariant
pub mod Safety
mod Tests
use logblock.Prelude.{ℕ, update, ◌≡◌, Bool, true, false, not, if◌then◌else◌, ◌==◌}

-- Where a goroutine is: not in `do`, before its lock, or in `f`
pub data Place : Type 0 where
  outside looping calling : Place

-- `OneRunner`, without the goroutines
pub record OneRunner : Type 0 where
  pub running : Bool
  pub run : Bool

-- `NewOneRunner`
abbrev pub new_one_runner : OneRunner
new_one_runner = record { running = false; run = false }

-- The part of `do` under the lock: whether `f` is called, and the runner afterwards
unfoldable pub do_step : OneRunner → Bool × OneRunner
do_step r = (r.run, record { running = if r.run then r.running else false; run = false })

-- `Go` and `Run` under the lock: whether `do` is entered, and the runner afterwards
unfoldable pub request : OneRunner → Bool × OneRunner
request r = (not r.running, record { running = true; run = true })

-- `Wait` returns once this is false.
unfoldable pub must_wait : OneRunner → Bool
must_wait r = r.running

pub record System : Type 0 where
  pub runner : OneRunner
  pub places : ℕ → Place

abbrev pub init : System
init = record { runner = new_one_runner; places = λ i. outside }

-- The place after the lock of `do`
unfoldable pub after_do : Bool → Place
after_do run = if run then calling else outside

-- The place of the goroutine that does the request: Run enters `do` itself, Go in a new one.
unfoldable pub after_request : Bool → Place
after_request enters = if enters then looping else outside

pub data Step (s : System) : System → Type 0 where
  requests :
      (i : ℕ)
      → s.places i ≡ outside
      → Step s (record {
        runner = (request s.runner).1;
        places = update s.places i (after_request (request s.runner).0);
      })
  locks :
      (i : ℕ)
      → s.places i ≡ looping
      → Step s (record {
        runner = (do_step s.runner).1;
        places = update s.places i (after_do (do_step s.runner).0);
      })
  ends : (i : ℕ) → s.places i ≡ calling → Step s (record s { places = update s.places i looping })

pub data Reach : System → Type 0 where
  initial : Reach init
  later : {s t : System} → Reach s → Step s t → Reach t
