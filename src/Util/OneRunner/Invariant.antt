-- ===== src/Util/OneRunner/Invariant.antt =====
-- What holds in every state of internal/util/one_runner.go.
use logblock.Prelude.{
  ℕ, update, ◌≡◌, ◌≢◌, refl, sym, ◌∙◌, ◌⊎◌, inl, inr, true, false, not, arith, if◌then◌else◌, ◌==◌,
  Bool-cases,
}
use logblock.Util.OneRunner.{
  Place, outside, looping, calling, do_step, request, System, init, after_do, after_request, Step,
  requests, locks, ends, Reach, initial, later,
}

pub record Inv (s : System) : Type 0 where
  -- Without a runner there is no request, and nobody is in `do`.
  pub idle : s.runner.running ≡ false → (s.runner.run ≡ false) × ((i : ℕ) → s.places i ≡ outside)
  pub busy : s.runner.running ≡ true → (i : ℕ) × (s.places i ≢ outside)
  pub single : (i j : ℕ) → s.places i ≢ outside → s.places j ≢ outside → i ≡ j

init-Inv : Inv init
init-Inv = record {
  idle = λ e. (refl, λ i. refl);
  busy = λ e. cc;
  single = λ i j p q. absurd (p refl);
}

Place-cases : (p : Place) → (p ≡ outside) ⊎ (p ≢ outside)
Place-cases outside = inl refl
Place-cases looping = inr (λ e. cc)
Place-cases calling = inr (λ e. cc)

module _ {s : System} (inv : Inv s) where
  -- A goroutine in `do` shows that there is a runner.
  runs : (i : ℕ) → s.places i ≢ outside → s.runner.running ≡ true
  runs i h = elim (Bool-cases s.runner.running) [
    | inl yes_running ↦ yes_running
    | inr none_running ↦ absurd (h ((inv.idle none_running).1 i))
  ]

  -- Only the goroutine in `do` changes its place.
  moved :
      (i : ℕ) (p : Place)
      → s.places i ≢ outside
      → (j k : ℕ) → update s.places i p j ≢ outside
      → update s.places i p k ≢ outside
      → j ≡ k
  moved i p h j k a b = elim (Bool-cases (i == j)) [
    | inl ij ↦ elim (Bool-cases (i == k)) [
      | inl ik ↦ ground (arith, ij, ik)
      | inr ik ↦ absurd (ground (arith, ik, inv.single i k h (λ e. b (ground (arith, ik, e)))))
    ]
    | inr ij ↦ absurd (ground (arith, ij, inv.single i j h (λ e. a (ground (arith, ij, e)))))
  ]

  -- Where all are outside, only the one that moves is not.
  only :
      (i : ℕ) (p : Place)
      → ((j : ℕ) → s.places j ≡ outside)
      → (j : ℕ) → update s.places i p j ≢ outside
      → i ≡ j
  only i p all_outside j h = elim (Bool-cases (i == j)) [
    | inl here ↦ ground (arith, here)
    | inr other ↦ absurd (h (ground (arith, other, all_outside j)))
  ]

  -- When the one in `do` leaves, all are outside.
  last :
      (i : ℕ)
      → s.runner.run ≡ false
      → s.places i ≢ outside
      → (j : ℕ) → update s.places i (if s.runner.run then calling else outside) j ≡ outside
  last i quiet inside j = elim (Bool-cases (i == j)) [
    | inl here ↦ ground (arith, here, quiet)
    | inr other ↦ elim (Place-cases (s.places j)) [
      | inl out ↦ ground (arith, other, out)
      | inr more ↦ absurd (ground (arith, other, inv.single i j inside more))
    ]
  ]

  requests-Inv :
      (i : ℕ)
      → s.places i ≡ outside
      → Inv (record {
        runner = (request s.runner).1;
        places = update s.places i (after_request (request s.runner).0);
      })
  unfolding request after_request
  requests-Inv i out = elim (Bool-cases s.runner.running) [
    | inl busy ↦
        let same : (j : ℕ)
            → update s.places i (if not s.runner.running then looping else outside) j ≡ s.places j =
          λ j. ground (arith, busy, out) in
        record {
          idle = λ e. cc;
          busy = λ e. let b = inv.busy busy in (b.0, λ h. b.1 (sym (same b.0) ∙ h));
          single = λ j k a b. inv.single j k (λ e. a (same j ∙ e)) (λ e. b (same k ∙ e));
        }
    | inr free ↦
        let all_outside = (inv.idle free).1 in
        let here : update s.places i (if not s.runner.running then looping else outside) i
            ≡ looping =
          ground (arith, free) in
        record {
          idle = λ e. cc;
          busy = λ e. (i, λ h. cc);
          single = λ j k a b.
              let ji : i ≡ j =
                only i (if not s.runner.running then looping else outside) all_outside j a in
              let ki : i ≡ k =
                only i (if not s.runner.running then looping else outside) all_outside k b in
              sym ji ∙ ki;
        }
  ]

  locks-Inv :
      (i : ℕ)
      → s.places i ≡ looping
      → Inv (record {
        runner = (do_step s.runner).1;
        places = update s.places i (after_do (do_step s.runner).0);
      })
  unfolding do_step after_do
  locks-Inv i at =
      let inside : s.places i ≢ outside = λ e. cc in
      let busy = runs i inside in
      elim (Bool-cases s.runner.run) [
        | inl asked ↦ record {
          idle = λ e. absurd (ground (arith, asked, busy, e));
          busy = λ e. (i, λ h. absurd (ground (arith, asked, h)));
          single = moved i (if s.runner.run then calling else outside) inside;
        }
        | inr quiet ↦ record {
          idle = λ e. (refl, λ j. last i quiet inside j);
          busy = λ e. absurd (ground (arith, quiet, e));
          single = moved i (if s.runner.run then calling else outside) inside;
        }
      ]

  ends-Inv : (i : ℕ) → s.places i ≡ calling → Inv (record s { places = update s.places i looping })
  ends-Inv i at =
      let inside : s.places i ≢ outside = λ e. cc in
      let busy = runs i inside in
      record {
        idle = λ e. cc;
        busy = λ e. (i, λ h. absurd (ground (arith, h)));
        single = moved i looping inside;
      }

  pub Step-Inv : {t : System} → Step s t → Inv t
  Step-Inv (requests i e) = requests-Inv i e
  Step-Inv (locks i e) = locks-Inv i e
  Step-Inv (ends i e) = ends-Inv i e

pub Reach-Inv : {s : System} → Reach s → Inv s
Reach-Inv initial = init-Inv
Reach-Inv (later r st) = Step-Inv (Reach-Inv r) st
