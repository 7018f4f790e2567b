-- ===== src/Util/WaitBarrier/Safety.antt =====
-- What internal/util/wait_barrier.go promises: a barrier waits for all operations from before it, and only for them.
use logblock.Prelude.{
  ℕ, update, zero, suc, ◌-◌, ◌≤◌, ◌<◌, ◌≡◌, refl, ap, ◌∙◌, inl, inr, false, none, some, arith, ◌==◌,
  ltb, Bool-cases, Option-cases,
}
use logblock.Util.WaitBarrier.{WaitBarrier, done, System, Reach}
use logblock.Util.WaitBarrier.Invariant.{is_waiting, owned, held_member, held_none}
use logblock.Util.WaitBarrier.Counters.{owned_suc, waiting_one}
use logblock.Util.WaitBarrier.Steps.{all_later, Reach-Inv}

-- In every reachable state, when the group that a call of BarrierWithUnlock waits for has no counts left, so that
-- its Wait returns, every context that was started before the call is done.
pub barrier_waits :
    {s : System} (g own at : ℕ)
    → Reach s
    → s.waiting g ≡ some (own, at)
    → s.barrier.counts g ≡ 0
    → (i h : ℕ) → s.active i ≡ some h
    → at ≤ i
barrier_waits {s} g own at r w zero_count i h a = elim (Bool-cases (ltb i at)) [
  | inl early ↦
      let inv = Reach-Inv r in
      absurd (
        omega (
          arith,
          inv.before g own at w i h a (ground (arith, early)),
          inv.next_owned g own at w,
          all_later inv g (omega (arith, inv.next_owned g own at w)) zero_count i h a,
        ))
  | inr late ↦ ground (arith, late)
]

done_total : (g : ℕ) (b : WaitBarrier) → 0 < b.counts g → (b' : WaitBarrier) × (done g b ≡ some b')
unfolding done
done_total g b pos = (
  record b { counts = update b.counts g (b.counts g - 1) },
  let more : (b.counts g == 0) ≡ false = ground arith in rw more refl,
)

-- In every reachable state, neither Done of a context that is not done yet nor the Done of a call of
-- BarrierWithUnlock panics on a negative counter.
pub done_possible :
    {s : System}
    → Reach s
    → ((i g : ℕ) → s.active i ≡ some g → (b : WaitBarrier) × (done g s.barrier ≡ some b))
      × ((g own at : ℕ)
          → s.waiting g ≡ some (own, at)
          → (b : WaitBarrier) × (done own s.barrier ≡ some b))
done_possible {s} r =
    let inv = Reach-Inv r in
    (
      λ i g a. done_total g s.barrier (
          omega
            (arith, inv.counted g, held_member g s.started s.active i (inv.group_made i g a).0 a)),
      λ g own at w.
          let o = inv.next_owned g own at w in
          let one = owned_suc s.waiting g ∙ waiting_one (s.waiting g) (own, at) w in
          let own_one : owned s.waiting own ≡ 1 = ap (owned s.waiting) o.0 ∙ one in
          done_total own s.barrier (omega (arith, inv.counted own, own_one)),
    )

-- In every reachable state in which all contexts are done, if a call of BarrierWithUnlock waits, then there is one
-- whose group has no counts left, so that it can return.
pub barrier_returns :
    {s : System} (g : ℕ) (w : ℕ × ℕ)
    → Reach s
    → ((i : ℕ) → s.active i ≡ none)
    → s.waiting g ≡ some w
    → (h : ℕ) × (v : ℕ × ℕ) × (s.waiting h ≡ some v) × (s.barrier.counts h ≡ 0)
unfolding owned is_waiting
barrier_returns {s} zero w r quiet e =
    let inv = Reach-Inv r in
    (0, w, e, omega (arith, inv.counted 0, held_none 0 s.started s.active (λ i k. cc (quiet i))))
barrier_returns {s} (suc g) w r quiet e = elim (Option-cases (s.waiting g)) [
  | inr (v, f) ↦ barrier_returns g v r quiet f
  | inl f ↦
      let inv = Reach-Inv r in
      let free : owned s.waiting (suc g) ≡ 0 = ap is_waiting f in
      (
        suc g,
        w,
        e,
        omega (
          arith,
          inv.counted (suc g),
          free,
          held_none (suc g) s.started s.active (λ i k. cc (quiet i)),
        ),
      )
]
