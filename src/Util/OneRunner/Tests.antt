-- ===== src/Util/OneRunner/Tests.antt =====
-- A request, the call for it, and a request during the call.
use logblock.Prelude.{ℕ, update, ◌≡◌, ◌≢◌, refl, true, false}
use logblock.Util.OneRunner.{
  outside, looping, calling, do_step, request, must_wait, System, after_do, after_request, requests,
  locks, ends, Reach, initial, later,
}
use logblock.Util.OneRunner.Safety.{OwnSteps, one_call, wait_over, request_served}

abbrev called : System
called = record {
  runner = record { running = true; run = false };
  places = update (update (λ i. outside) 0 looping) 0 calling;
}

called-Reach : Reach called
unfolding request after_request do_step after_do
called-Reach = later (later initial (requests 0 refl)) (locks 0 refl)

one_call_example : ◌≡◌ {A = ℕ} 0 0
one_call_example = one_call called-Reach 0 0 refl refl

abbrev asked_again : System
asked_again = record {
  runner = record { running = true; run = true };
  places = update called.places 1 outside;
}

asked_again-Reach : Reach asked_again
unfolding request after_request
asked_again-Reach = later called-Reach (requests 1 refl)

request_served_example :
    (i : ℕ) × (asked_again.places i ≢ outside)
    × ((j : ℕ) → asked_again.places j ≢ outside → j ≡ i)
    × (t : System) × OwnSteps i asked_again t
    × (t.places i ≡ calling)
    × (t.runner.run ≡ false)
request_served_example = request_served asked_again-Reach refl

abbrev over : System
over = record {
  runner = record { running = false; run = false };
  places = update (update called.places 0 looping) 0 outside;
}

over-Reach : Reach over
unfolding do_step after_do
over-Reach = later (later called-Reach (ends 0 refl)) (locks 0 refl)

wait_over_example : (over.runner.run ≡ false) × ((i : ℕ) → over.places i ≡ outside)
unfolding must_wait
wait_over_example = wait_over over-Reach refl
