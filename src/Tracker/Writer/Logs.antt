-- ===== src/Tracker/Writer/Logs.antt =====
-- Which logs a Flush of internal/tracker/writer.go flushes.
use logblock.Prelude.{
  ℕ, ◌≡◌, refl, sym, ap, ◌∙◌, inl, inr, Bool, true, false, ◌||◌, Option, none, some, List, [], ◌∷◌,
  ◌++◌, arith, ◌==◌, append-nil, Bool-cases, Option-cases,
}
use logblock.Util.WaitBarrier.{done}
use logblock.Tracker.Writer.{
  Writer, push_pending, delete_writer, delete_writers, remove_pending, push_new_log, close_done,
  start_write, end_write, to_list, start_flush, end_flush, start_close, wait_flushes, Event, pushes,
  removes, other, Step, pending, new_log, resets, closes, removed, starts_write, ends_write,
  starts_flush, ends_flush, starts_close, waits_flushes, Reach, initial, later,
}

unfoldable pub is_log : ℕ → List ℕ → Bool
is_log x [] = false
is_log x (y ∷ ys) = x == y || is_log x ys

-- The log has been pushed.
unfoldable pub was_pushed : ℕ → List Event → Bool
was_pushed x [] = false
was_pushed x (pushes y ∷ es) = x == y || was_pushed x es
was_pushed x (removes p ∷ es) = was_pushed x es
was_pushed x (other ∷ es) = was_pushed x es

-- The log has been given to RemovePending.
unfoldable pub was_removed : ℕ → List Event → Bool
was_removed x [] = false
was_removed x (pushes y ∷ es) = was_removed x es
was_removed x (removes p ∷ es) = is_log x p || was_removed x es
was_removed x (other ∷ es) = was_removed x es

is_log-append : (x : ℕ) (a b : List ℕ) → is_log x (a ++ b) ≡ (is_log x a || is_log x b)
unfolding is_log
is_log-append x [] b = refl
is_log-append x (y ∷ a) b = ground (arith, is_log-append x a b)

is_log_one : (x y : ℕ) → is_log x (y ∷ []) ≡ (x == y)
unfolding is_log
is_log_one x y = ground arith

is_log-delete_writer :
    (x y : ℕ) (ws : List ℕ) → (y == x) ≡ false → is_log x (delete_writer y ws) ≡ is_log x ws
unfolding is_log delete_writer
is_log-delete_writer x y [] h = refl
is_log-delete_writer x y (w ∷ ws) h = ground (arith, h, is_log-delete_writer x y ws h)

deleted_log : (x y : ℕ) (ws : List ℕ) → is_log x (delete_writer y ws) ≡ true → is_log x ws ≡ true
unfolding is_log delete_writer
deleted_log x y [] h = h
deleted_log x y (w ∷ ws) h = ground (arith, h, deleted_log x y ws)

is_log-delete_writers :
    (x : ℕ) (p ws : List ℕ) → is_log x p ≡ false → is_log x (delete_writers p ws) ≡ is_log x ws
unfolding is_log delete_writers
is_log-delete_writers x [] ws h = refl
is_log-delete_writers x (y ∷ p) ws h =
    is_log-delete_writers x p (delete_writer y ws) (ground (arith, h))
    ∙ is_log-delete_writer x y ws (ground (arith, h))

deleted_logs : (x : ℕ) (p ws : List ℕ) → is_log x (delete_writers p ws) ≡ true → is_log x ws ≡ true
unfolding delete_writers
deleted_logs x [] ws h = h
deleted_logs x (y ∷ p) ws h = deleted_log x y ws (deleted_logs x p (delete_writer y ws) h)

-- The log is pending or active.
abbrev kept : ℕ → Writer → Bool
kept x m = is_log x m.pending_writers || is_log x (to_list m.active_writer)

flushed-kept : (x : ℕ) (m : Writer) → is_log x (start_flush m).flush_writers ≡ kept x m
unfolding start_flush to_list
flushed-kept x m = elim (Option-cases m.active_writer) [
  | inl e ↦
      rw (e, start_flush)
        (ground (arith, is_log-append x m.pending_writers [], append-nil m.pending_writers))
  | inr (w, e) ↦ rw (e, start_flush) (is_log-append x m.pending_writers (w ∷ []))
]

-- The same logs in both states
abbrev SameLogs : Writer → Writer → Type 0
SameLogs m m' = (m'.pending_writers ≡ m.pending_writers) × (m'.active_writer ≡ m.active_writer)

kept_same : (x : ℕ) (m m' : Writer) → SameLogs m m' → kept x m' ≡ kept x m
kept_same x m m' e = λ i. is_log x (e.0 i) || is_log x (to_list (e.1 i))

close_done-SameLogs : (g : ℕ) (m m' : Writer) → close_done g m ≡ some m' → SameLogs m m'
unfolding close_done
close_done-SameLogs g m m' e = elim (Option-cases (done g m.pending_wb)) [
  | inl d ↦ absurd (ground (arith, d, e))
  | inr (b, d) ↦
      let at : record m { pending_wb = b } ≡ m' = ground (arith, d, e) in
      (sym (ap (λ w. w.pending_writers) at), sym (ap (λ w. w.active_writer) at))
]

end_write-SameLogs : (n g : ℕ) (m m' : Writer) → end_write n g m ≡ some m' → SameLogs m m'
unfolding end_write
end_write-SameLogs n g m m' e = elim (Option-cases (done g m.active_wb)) [
  | inl d ↦ absurd (ground (arith, d, e))
  | inr (b, d) ↦ (ground (arith, d, e), ground (arith, d, e))
]

end_flush-SameLogs :
    (a : Option ℕ) (g : ℕ) (m m' : Writer) → end_flush a g m ≡ some m' → SameLogs m m'
unfolding end_flush
end_flush-SameLogs none g m m' e = elim (Option-cases (done g m.pending_wb)) [
  | inl d ↦ absurd (ground (arith, d, e))
  | inr (b, d) ↦ (ground (arith, d, e), ground (arith, d, e))
]
end_flush-SameLogs (some a) g m m' e = elim (Option-cases (done a m.active_wb)) [
  | inl c ↦ absurd (ground (arith, c, e))
  | inr (k, c) ↦ elim (Option-cases (done g m.pending_wb)) [
    | inl d ↦ absurd (ground (arith, c, d, e))
    | inr (b, d) ↦ (ground (arith, c, d, e), ground (arith, c, d, e))
  ]
]

start_flush-SameLogs : (m : Writer) → SameLogs m (start_flush m).writer
unfolding start_flush
start_flush-SameLogs m = elim (Option-cases m.active_writer) [
  | inl e ↦ (rw (e, start_flush) refl, rw (e, start_flush) e)
  | inr (w, e) ↦ (rw (e, start_flush) refl, rw (e, start_flush) e)
]

kept-start_close : (x : ℕ) (m : Writer) → kept x (start_close m).1 ≡ kept x m
unfolding start_close to_list is_log
kept-start_close x m = elim (Option-cases m.active_writer) [
  | inl e ↦ rw (e, start_close) (ap (λ a. is_log x m.pending_writers || is_log x (to_list a)) e)
  | inr (w, e) ↦ rw (e, start_close) (ground (arith, is_log-append x m.pending_writers (w ∷ [])))
]

kept-push_new_log :
    (x wl : ℕ) (m : Writer) → kept x (push_new_log wl m).writer ≡ (x == wl || kept x m)
unfolding push_new_log to_list is_log
kept-push_new_log x wl m = elim (Option-cases m.active_writer) [
  | inl e ↦ rw (e, push_new_log) (ground arith)
  | inr (w, e) ↦ rw (e, push_new_log) (ground (arith, is_log-append x m.pending_writers (w ∷ [])))
]

kept-push_pending : (x wl : ℕ) (m : Writer) → kept x (push_pending wl m) ≡ (x == wl || kept x m)
unfolding push_pending is_log
kept-push_pending x wl m = ground (arith, is_log-append x m.pending_writers (wl ∷ []))

kept-remove_pending :
    (x : ℕ) (p : List ℕ) (m : Writer)
    → (is_log x p ≡ false → kept x (remove_pending p m).1 ≡ kept x m)
      × (kept x (remove_pending p m).1 ≡ true → kept x m ≡ true)
unfolding remove_pending
kept-remove_pending x p m = (
  λ h.
      ap (λ b. b || is_log x (to_list m.active_writer))
        (is_log-delete_writers x p m.pending_writers h),
  λ h. elim (Bool-cases (is_log x (delete_writers p m.pending_writers))) [
    | inl pend ↦ ground (arith, deleted_logs x p m.pending_writers pend)
    | inr none_pending ↦ ground (arith, none_pending, h)
  ],
)

-- What the history says is kept.
abbrev Tracks : List Event → Writer → ℕ → Type 0
Tracks es m x =
    (was_pushed x es ≡ true → was_removed x es ≡ false → kept x m ≡ true)
    × (kept x m ≡ true → was_pushed x es ≡ true)

Tracks-other :
    (es : List Event) (m m' : Writer) (x : ℕ)
    → kept x m' ≡ kept x m
    → Tracks es m x
    → Tracks (other ∷ es) m' x
unfolding was_pushed was_removed
Tracks-other es m m' x e t = (λ p r. e ∙ t.0 p r, λ k. t.1 (sym e ∙ k))

Tracks-pushes :
    (es : List Event) (m m' : Writer) (x wl : ℕ)
    → kept x m' ≡ (x == wl || kept x m)
    → Tracks es m x
    → Tracks (pushes wl ∷ es) m' x
unfolding was_pushed was_removed
Tracks-pushes es m m' x wl e t = elim (Bool-cases (x == wl)) [
  | inl same ↦ (λ p r. ground (arith, e, same), λ k. ground (arith, same))
  | inr different ↦ (
    λ p r. ground (arith, e, different, t.0 (ground (arith, different, p)) r),
    λ k. ground (arith, different, t.1 (ground (arith, e, different, k))),
  )
]

Step-Tracks :
    (es : List Event) {e : Event} {m m' : Writer} (x : ℕ)
    → Step m e m'
    → Tracks es m x
    → Tracks (e ∷ es) m' x
unfolding was_pushed was_removed start_write wait_flushes
Step-Tracks es {m} {m'} x (pending wl) t = Tracks-pushes es m m' x wl (kept-push_pending x wl m) t
Step-Tracks es {m} {m'} x (new_log wl) t = Tracks-pushes es m m' x wl (kept-push_new_log x wl m) t
Step-Tracks es {m} {m'} x resets t = Tracks-other es m m' x refl t
Step-Tracks es {m} x (closes g m' e) t =
    Tracks-other es m m' x (kept_same x m m' (close_done-SameLogs g m m' e)) t
Step-Tracks es {m} x (removed p) t =
    let k = kept-remove_pending x p m in
    (λ a r. k.0 (ground (arith, r)) ∙ t.0 a (ground (arith, r)), λ h. t.1 (k.1 h))
Step-Tracks es {m} {m'} x starts_write t = Tracks-other es m m' x refl t
Step-Tracks es {m} x (ends_write n g m' e) t =
    Tracks-other es m m' x (kept_same x m m' (end_write-SameLogs n g m m' e)) t
Step-Tracks es {m} {m'} x starts_flush t =
    Tracks-other es m m' x (kept_same x m m' (start_flush-SameLogs m)) t
Step-Tracks es {m} x (ends_flush a g m' e) t =
    Tracks-other es m m' x (kept_same x m m' (end_flush-SameLogs a g m m' e)) t
Step-Tracks es {m} {m'} x starts_close t = Tracks-other es m m' x (kept-start_close x m) t
Step-Tracks es {m} {m'} x waits_flushes t = Tracks-other es m m' x refl t

Reach-Tracks :
    {block_size : ℕ} {es : List Event} {m : Writer} (x : ℕ) → Reach block_size es m → Tracks es m x
unfolding was_pushed is_log to_list
Reach-Tracks x initial = (λ p r. cc, λ k. cc)
Reach-Tracks x (later {es} r st) = Step-Tracks es x st (Reach-Tracks x r)

-- In every reachable state a Flush flushes each log that has been pushed and was never given to RemovePending, also
-- when a newer log has become the active one or Close has begun, and it flushes only logs that have been pushed.
pub flush_writers-start_flush :
    {block_size : ℕ} {es : List Event} {m : Writer} (x : ℕ)
    → Reach block_size es m
    → (was_pushed x es ≡ true
        → was_removed x es ≡ false
        → is_log x (start_flush m).flush_writers ≡ true)
      × (is_log x (start_flush m).flush_writers ≡ true → was_pushed x es ≡ true)
flush_writers-start_flush {m} x r =
    let t = Reach-Tracks x r in
    let e = flushed-kept x m in (λ p q. e ∙ t.0 p q, λ h. t.1 (sym e ∙ h))
