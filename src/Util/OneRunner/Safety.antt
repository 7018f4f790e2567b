-- ===== src/Util/OneRunner/Safety.antt =====
-- What internal/util/one_runner.go promises: one call of f at a time, and one that starts after every request.
use logblock.Prelude.{ℕ, update, ◌≡◌, ◌≢◌, refl, inl, inr, true, false, arith, Bool-cases}
use logblock.Util.OneRunner.{
  Place, outside, looping, calling, do_step, must_wait, System, after_do, locks, ends, Reach, later,
}
use logblock.Util.OneRunner.Invariant.{Reach-Inv}

-- In every reachable state at most one goroutine is in a call of f.
pub one_call :
    {s : System} → Reach s → (i j : ℕ) → s.places i ≡ calling → s.places j ≡ calling → i ≡ j
one_call r i j a b = (Reach-Inv r).single i j (λ e. cc) (λ e. cc)

-- In every reachable state in which Wait does not have to wait, no request is left and nobody is in `do`, so that
-- no call of f is going on.
pub wait_over :
    {s : System}
    → Reach s
    → must_wait s.runner ≡ false
    → (s.runner.run ≡ false) × ((i : ℕ) → s.places i ≡ outside)
unfolding must_wait
wait_over r e = (Reach-Inv r).idle e

-- What one goroutine in `do` does by itself: its lock, and the end of its call of f
pub data OwnSteps (i : ℕ) (s : System) : System → Type 0 where
  stay : OwnSteps i s s
  then_locks :
      {t : System}
      → OwnSteps i s t
      → t.places i ≡ looping
      → OwnSteps i s (record {
        runner = (do_step t.runner).1;
        places = update t.places i (after_do (do_step t.runner).0);
      })
  then_ends :
      {t : System}
      → OwnSteps i s t
      → t.places i ≡ calling
      → OwnSteps i s (record t { places = update t.places i looping })

-- They are steps of the system.
OwnSteps-Reach : {i : ℕ} {s t : System} → Reach s → OwnSteps i s t → Reach t
OwnSteps-Reach r stay = r
OwnSteps-Reach {i} r (then_locks o at) = later (OwnSteps-Reach r o) (locks i at)
OwnSteps-Reach {i} r (then_ends o at) = later (OwnSteps-Reach r o) (ends i at)

abbrev locked : ℕ → System → System
locked i s = record {
  runner = (do_step s.runner).1;
  places = update s.places i (after_do (do_step s.runner).0);
}

locked_calls :
    (i : ℕ) (s : System)
    → s.runner.run ≡ true
    → ((locked i s).places i ≡ calling) × ((locked i s).runner.run ≡ false)
unfolding do_step after_do
locked_calls i s e = (ground (arith, e), refl)

served_by :
    {s : System} (i : ℕ) (p : Place)
    → s.runner.run ≡ true
    → s.places i ≡ p
    → p ≢ outside
    → (t : System) × OwnSteps i s t × (t.places i ≡ calling) × (t.runner.run ≡ false)
served_by i outside asked at h = absurd (h refl)
served_by {s} i looping asked at h =
    let c = locked_calls i s asked in (locked i s, then_locks stay at, c.0, c.1)
served_by {s} i calling asked at h =
    let ended : System = record s { places = update s.places i looping } in
    let c = locked_calls i ended asked in
    (locked i ended, then_locks (then_ends stay at) (ground arith), c.0, c.1)

-- In every reachable state with a request, there is exactly one goroutine in `do`, and its own next steps alone, without
-- any other request, start a call of f that takes the request.
pub request_served :
    {s : System}
    → Reach s
    → s.runner.run ≡ true
    → (i : ℕ) × (s.places i ≢ outside)
      × ((j : ℕ) → s.places j ≢ outside → j ≡ i)
      × (t : System) × OwnSteps i s t
      × (t.places i ≡ calling)
      × (t.runner.run ≡ false)
request_served {s} r asked =
    let inv = Reach-Inv r in
    elim (Bool-cases s.runner.running) [
      | inr idle ↦ absurd (ground (arith, asked, (inv.idle idle).0))
      | inl busy ↦
          let (i, inside) = inv.busy busy in
          let v = served_by i (s.places i) asked refl inside in
          (i, inside, (λ j out. inv.single j i out inside), v.0, v.1, v.2, v.3)
    ]
