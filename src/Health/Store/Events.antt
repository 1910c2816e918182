-- ===== src/Health/Store/Events.antt =====
-- No press is lost between the tick observer, the fold and the flush, and none is counted twice.
use zephyr_applications.Common.{
  ap₂, ℕ, suc, ◌+◌, ◌≡◌, refl, ◌∙◌, Bool, true, false, List, [], ◌∷◌, Option, u32, arith,
  if◌then◌else◌,
}
use zephyr_applications.Health.Edge.{EdgeOut, Seen, events}
use zephyr_applications.Health.Store.{
  Config, Store, observe, fold_locked, flush_locked, evaluate_locked, health_poll, health_flush,
  health_publish,
}

-- What happens to the store between two resets: a tick, a poll, a flush, a published warning.
pub data Step : Type 0 where
  tick : (n verdict0 verdict1 : ℕ) → Step
  poll : (now_ms : ℕ) (failed : Bool) → Step
  flush : (now_ms : ℕ) (failed : Bool) → Step
  publish : (src : List ℕ) (level : ℕ) (msg : Option (List ℕ)) (now_ms : ℕ) → Step

unfoldable pub step : Config → Store → Step → Store
step k st (tick n v0 v1) = observe k st n v0 v1
step k st (poll now_ms failed) = health_poll k st now_ms failed
step k st (flush now_ms failed) = health_flush st now_ms failed
step k st (publish src level msg now_ms) = (health_publish st src level msg now_ms).0

unfoldable pub run : Config → Store → List Step → Store
run k st [] = st
run k st (s ∷ ss) = run k (step k st s) ss

-- The ticks among the steps.
abbrev pub ticks : List Step → List Seen
ticks [] = []
ticks (tick n v0 v1 ∷ ss) = (n, v0, v1) ∷ ticks ss
ticks (poll now_ms failed ∷ ss) = ticks ss
ticks (flush now_ms failed ∷ ss) = ticks ss
ticks (publish src level msg now_ms ∷ ss) = ticks ss

abbrev pub presses : List EdgeOut → ℕ
presses [] = 0
presses (e ∷ es) = if e.press then suc (presses es) else presses es

abbrev pub mismatches : List EdgeOut → ℕ
mismatches [] = 0
mismatches (e ∷ es) = if e.mismatch then suc (mismatches es) else mismatches es

-- Counted and not yet folded in.
abbrev pub total_presses : Store → ℕ
total_presses st = u32 (st.counters.presses + st.press_delta)

abbrev pub total_mismatches : Store → ℕ
total_mismatches st = u32 (st.counters.mismatch_events + st.mismatch_delta)

-- A step that is no tick keeps the totals and the edge detector.
abbrev Keeps : Store → Store → Type 0
Keeps st st' =
    (total_presses st' ≡ total_presses st)
    × (total_mismatches st' ≡ total_mismatches st)
    × (st'.edge ≡ st.edge)

fold-Keeps : (st : Store) (now_ms : ℕ) → Keeps st (fold_locked st now_ms)
unfolding fold_locked
fold-Keeps st now_ms = ground arith

flush-Keeps : (st : Store) (now_ms : ℕ) (failed : Bool) → Keeps st (flush_locked st now_ms failed)
unfolding flush_locked
flush-Keeps st now_ms true = fold-Keeps st now_ms
flush-Keeps st now_ms false = fold-Keeps st now_ms

evaluate-Keeps : (k : Config) (st : Store) (now_ms : ℕ) → Keeps st (evaluate_locked k st now_ms)
unfolding evaluate_locked
evaluate-Keeps k st now_ms = (refl, refl, refl)

then-Keeps : (a b c : Store) → Keeps a b → Keeps b c → Keeps a c
then-Keeps a b c (p, q, r) (p', q', r') = (p' ∙ p, q' ∙ q, r' ∙ r)

poll-Keeps :
    (k : Config) (st : Store) (now_ms : ℕ) (failed : Bool)
    → Keeps st (health_poll k st now_ms failed)
unfolding health_poll
poll-Keeps k st now_ms failed =
    let folded = fold_locked st now_ms in
    let seen = evaluate_locked k folded now_ms in
    let h = then-Keeps st folded seen (fold-Keeps st now_ms) (evaluate-Keeps k folded now_ms) in
    ground (
      arith,
      h,
      then-Keeps st seen (flush_locked seen now_ms failed) h (flush-Keeps seen now_ms failed),
    )

publish-Keeps :
    (st : Store) (src : List ℕ) (level : ℕ) (msg : Option (List ℕ)) (now_ms : ℕ)
    → Keeps st (health_publish st src level msg now_ms).0
unfolding health_publish
publish-Keeps st src level msg now_ms = (refl, refl, refl)

-- What the totals are after steps with these ticks.
abbrev Tells : Config → Store → List Seen → Store → Type 0
Tells k st seen st' =
    (total_presses st' ≡ u32 (total_presses st + presses (events st.edge k.stop_code seen)))
    × (total_mismatches st'
        ≡ u32 (total_mismatches st + mismatches (events st.edge k.stop_code seen)))

Keeps-Tells :
    (k : Config) (a b c : Store) (seen : List Seen)
    → Keeps a b
    → Tells k b seen c
    → Tells k a seen c
Keeps-Tells k a b c seen (p, q, r) (x, y) = (
  x ∙ ap₂ (λ n e. u32 (n + presses (events e k.stop_code seen))) p r,
  y ∙ ap₂ (λ n e. u32 (n + mismatches (events e k.stop_code seen))) q r,
)

add_one : (n m : ℕ) → u32 (u32 (n + 1) + m) ≡ u32 (u32 n + suc m)
add_one n m = omega arith

tick-Tells :
    (k : Config) (st c : Store) (n v0 v1 : ℕ) (seen : List Seen)
    → Tells k (observe k st n v0 v1) seen c
    → Tells k st ((n, v0, v1) ∷ seen) c
unfolding observe events
tick-Tells k st c n v0 v1 seen (x, y) = ground (arith, x, y)

-- From any state on, after any sequence of ticks, polls, flushes (failed ones too) and published
-- warnings, the presses counted are those before and one for each press that the edge detector saw
-- in the ticks, modulo 2 ^ 32; the same holds of the mismatches.
pub run_totals :
    (k : Config) (st : Store) (steps : List Step)
    → (total_presses (run k st steps)
        ≡ u32 (total_presses st + presses (events st.edge k.stop_code (ticks steps))))
      × (total_mismatches (run k st steps)
          ≡ u32 (total_mismatches st + mismatches (events st.edge k.stop_code (ticks steps))))
unfolding run step events
run_totals k st [] = (nil, nil')
  where
    nil : total_presses st ≡ u32 (total_presses st + presses (events st.edge k.stop_code []))
    nil = ground arith

    nil' :
        total_mismatches st ≡ u32 (total_mismatches st + mismatches (events st.edge k.stop_code []))
    nil' = ground arith
run_totals k st (tick n v0 v1 ∷ ss) =
    tick-Tells k st (run k st (tick n v0 v1 ∷ ss)) n v0 v1 (ticks ss)
      (run_totals k (observe k st n v0 v1) ss)
run_totals k st (poll now_ms failed ∷ ss) =
    Keeps-Tells k st (health_poll k st now_ms failed) (run k st (poll now_ms failed ∷ ss))
      (ticks ss) (poll-Keeps k st now_ms failed) (run_totals k (health_poll k st now_ms failed) ss)
run_totals k st (flush now_ms failed ∷ ss) =
    Keeps-Tells k st (health_flush st now_ms failed) (run k st (flush now_ms failed ∷ ss))
      (ticks ss) (flush-Keeps st now_ms failed) (run_totals k (health_flush st now_ms failed) ss)
run_totals k st (publish src level msg now_ms ∷ ss) =
    let st' = (health_publish st src level msg now_ms).0 in
    Keeps-Tells k st st' (run k st (publish src level msg now_ms ∷ ss)) (ticks ss)
      (publish-Keeps st src level msg now_ms) (run_totals k st' ss)
