-- ===== src/Lockstep/Body.antt =====
-- The four ways in which `run_tick_body` of lockstep.c ends, and what each sends and counts.
use zephyr_applications.Common.{
  ℕ, ◌+◌, ◌≡◌, Bool, true, false, List, [], some, arith, ◌∙◌, Bool-cases, Option-cases, ◌⊎◌, inl,
  inr, u32,
}
use zephyr_applications.Pstop.{Codes, Wire}
use zephyr_applications.Estop.{estop_channels_primed}
use zephyr_applications.Lockstep.Defs.{Slot, Lockstep, Env, Effects}
use zephyr_applications.Lockstep.Tick.{
  find_mismatch, transmitted, comparator_pass, run_tick_body, samplers_published,
}
use zephyr_applications.Lockstep.Compare.{AllAgree, find_mismatch-none, AllAgree-find_mismatch}

-- Both samplers published this generation inside the window.
abbrev pub InTime : Lockstep → ℕ → Bool → Bool → Type 0
InTime l gen late_a late_b =
    (late_a ≡ false) × (late_b ≡ false) × (l.channel_a.gen ≡ gen) × (l.channel_b.gen ≡ gen)

abbrev pub is_primed : Lockstep → Bool
is_primed l = estop_channels_primed l.channel_a.estop l.channel_b.estop

abbrev bump : Bool → ℕ → ℕ
bump true n = u32 (n + 1)
bump false n = n

-- Which of its three fault counters a tick advances by one.
abbrev pub Counts : Lockstep → Lockstep → Bool → Bool → Bool → Type 0
Counts l l' missed gated mismatched =
    (l'.missed_deadlines ≡ bump missed l.missed_deadlines)
    × (l'.gated_ticks ≡ bump gated l.gated_ticks)
    × (l'.mismatches ≡ bump mismatched l.mismatches)

-- What `comparator_pass` returns in its three cases.
abbrev Compared : Lockstep → Lockstep × List (ℕ × List ℕ) → Type 0
Compared l r =
    ((is_primed l ≡ false) × (r.1 ≡ []) × Counts l r.0 false true false)
    ⊎ ((is_primed l ≡ true) × (¬ AllAgree l.slots) × (r.1 ≡ []) × Counts l r.0 false false true)
    ⊎ ((is_primed l ≡ true)
        × AllAgree l.slots
        × (r.1 ≡ transmitted 0 l.slots)
        × Counts l r.0 false false false)

AllAgree-not_some : {x : ℕ × Slot} (ss : List Slot) → find_mismatch 0 ss ≡ some x → ¬ AllAgree ss
AllAgree-not_some ss e all = cc (AllAgree-find_mismatch 0 ss all)

comparator_pass-Compared : (env : Env) (l : Lockstep) → Compared l (comparator_pass env l)
unfolding comparator_pass
comparator_pass-Compared env l = elim (Bool-cases (is_primed l)) [
  | inl p ↦ elim (Option-cases (find_mismatch 0 l.slots)) [
    | inl e ↦ inr (inr (p, find_mismatch-none 0 l.slots e, ground arith, ground arith))
    | inr (x, e) ↦ inr (inl (p, AllAgree-not_some l.slots e, ground arith, ground arith))
  ]
  | inr p ↦ inl (p, ground arith, ground arith)
]

module _ (c : Codes) (w : Wire) (env : Env) (l : Lockstep) (now_ms gen : ℕ) (late_a late_b : Bool)
    (late_by_ms : ℕ) where
  abbrev body : Lockstep × Effects
  body = run_tick_body c w env l now_ms gen late_a late_b late_by_ms

  InTime-cases : InTime l gen late_a late_b ⊎ (¬ InTime l gen late_a late_b)
  InTime-cases = ground arith

  body_missed : ¬ InTime l gen late_a late_b → (body.1.sent ≡ []) × Counts l body.0 true false false
  unfolding run_tick_body samplers_published
  body_missed h = ground arith

  body_compared :
      InTime l gen late_a late_b
      → (body.1.sent ≡ (comparator_pass env l).1)
        × Counts (comparator_pass env l).0 body.0 false false false
  unfolding run_tick_body samplers_published
  body_compared h = ground arith

-- The three ways in which a tick with both samplers in time ends.
abbrev pub Judged : Lockstep → ℕ → Bool → Bool → Lockstep × Effects → Type 0
Judged l gen late_a late_b r =
    (InTime l gen late_a late_b
      × (is_primed l ≡ false)
      × (r.1.sent ≡ [])
      × Counts l r.0 false true false)
    ⊎ (InTime l gen late_a late_b
        × (is_primed l ≡ true)
        × (¬ AllAgree l.slots)
        × (r.1.sent ≡ [])
        × Counts l r.0 false false true)
    ⊎ (InTime l gen late_a late_b
        × (is_primed l ≡ true)
        × AllAgree l.slots
        × (r.1.sent ≡ transmitted 0 l.slots)
        × Counts l r.0 false false false)

Compared-Judged :
    (l : Lockstep) (gen : ℕ) (late_a late_b : Bool) (r : Lockstep × Effects)
    (q : Lockstep × List (ℕ × List ℕ))
    → InTime l gen late_a late_b
    → (r.1.sent ≡ q.1) × Counts q.0 r.0 false false false
    → Compared l q
    → Judged l gen late_a late_b r
Compared-Judged l gen late_a late_b r q h (e, k) (inl (p, s, n)) = inl (h, p, e ∙ s, ground arith)
Compared-Judged l gen late_a late_b r q h (e, k) (inr (inl (p, d, s, n))) =
    inr (inl (h, p, d, e ∙ s, ground arith))
Compared-Judged l gen late_a late_b r q h (e, k) (inr (inr (p, a, s, n))) =
    inr (inr (h, p, a, e ∙ s, ground arith))

pub run_tick_body_outcome :
    (c : Codes) (w : Wire) (env : Env) (l : Lockstep) (now_ms gen : ℕ) (late_a late_b : Bool)
    (late_by_ms : ℕ)
    → let r = run_tick_body c w env l now_ms gen late_a late_b late_by_ms in
      ((¬ InTime l gen late_a late_b) × (r.1.sent ≡ []) × Counts l r.0 true false false)
      ⊎ Judged l gen late_a late_b r
run_tick_body_outcome c w env l now_ms gen late_a late_b late_by_ms =
    elim (InTime-cases c w env l now_ms gen late_a late_b late_by_ms) [
      | inr h ↦
          let m = body_missed c w env l now_ms gen late_a late_b late_by_ms h in inl (h, m.0, m.1)
      | inl h ↦ inr (
          Compared-Judged l gen late_a late_b
            (run_tick_body c w env l now_ms gen late_a late_b late_by_ms) (comparator_pass env l) h
            (body_compared c w env l now_ms gen late_a late_b late_by_ms h)
            (comparator_pass-Compared env l))
    ]

abbrev pub Sends : Lockstep → ℕ → Bool → Bool → List (ℕ × List ℕ) → Type 0
Sends l gen late_a late_b sent =
    (sent ≡ [])
    ⊎ (InTime l gen late_a late_b
        × (is_primed l ≡ true)
        × AllAgree l.slots
        × (sent ≡ transmitted 0 l.slots))

pub run_tick_body-Sends :
    (c : Codes) (w : Wire) (env : Env) (l : Lockstep) (now_ms gen : ℕ) (late_a late_b : Bool)
    (late_by_ms : ℕ)
    → Sends l gen late_a late_b (run_tick_body c w env l now_ms gen late_a late_b late_by_ms).1.sent
run_tick_body-Sends c w env l now_ms gen late_a late_b late_by_ms =
    elim (run_tick_body_outcome c w env l now_ms gen late_a late_b late_by_ms) [
      | inl h ↦ inl h.1
      | inr (inl h) ↦ inl h.2
      | inr (inr (inl h)) ↦ inl h.3
      | inr (inr (inr h)) ↦ inr (h.0, h.1, h.2, h.3)
    ]
