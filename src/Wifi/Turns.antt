-- ===== src/Wifi/Turns.antt =====
-- The networks take turns: how far a stored network is from the next attempt.
use mathlib.Core.List.{[], Memᴰ}
use zephyr_applications.Wifi.{is_some, request_of, disconnect_request}
use zephyr_applications.Common.{
  ltb, ◌*◌, ap, ◌⊎◌, [], ◌==◌, subst, sym, ◌∷◌, ◌++◌, ◌∷◌, ◌≢◌, Bool-cases, ◌++◌, Bool, ◌≢◌,
  Bool-cases, ℕ, zero, suc, ◌+◌, ◌-◌, ◌%◌, ◌<◌, ◌≤◌, ◌≡◌, inl, inr, false, List, some, get_or,
  arith,
}
use zephyr_applications.Settings.{WifiNet, no_net}
use zephyr_applications.Wifi.{
  try_next, unconnected, Request, on_uplink, supervise, Wifi, is_empty, pick,
}

-- Entry `j` holds a network.
abbrev pub IsStored : List WifiNet → ℕ → Type 0
IsStored nets j = (j < 4) × (is_empty (get_or nets j no_net).ssid ≡ false)

-- The turns from entry `idx` to entry `j`, both below four.
abbrev pub turns : ℕ → ℕ → ℕ
turns idx j = (j + 4 - idx) % 4

turns_next : (a j : ℕ) → a < 4 → j < 4 → a ≢ j → turns a j ≡ suc (turns ((a + 1) % 4) j)
turns_next a j p q ne = omega arith

turns_le : (a i : ℕ) → a < 4 → i < 4 → turns a i ≤ suc (turns ((a + 1) % 4) i)
turns_le a i p q = omega arith

turns_after :
    (a i j : ℕ)
    → a < 4
    → i < 4
    → j < 4
    → i ≢ j
    → turns a i ≤ turns a j
    → turns ((i + 1) % 4 % 4) j < turns a j
turns_after a i j p q r ne le = omega arith

-- The entry picked is no further than any stored one.
pick_lem :
    (nets : List WifiNet) (idx left j : ℕ)
    → idx < 4
    → IsStored nets j
    → turns idx j < left
    → (i : ℕ) × (pick nets idx left ≡ some i) × (i < 4) × (turns idx i ≤ turns idx j)
unfolding pick
pick_lem nets idx zero j p q h = absurd (omega arith)
pick_lem nets idx (suc left) j p (q, s) h =
    elim (Bool-cases (is_empty (get_or nets idx no_net).ssid)) [
      | inl e ↦
          let ne : idx ≢ j = λ same. ground (arith, same, e, s) in
          let near = turns_next idx j p q ne in
          let (i, f, l, d) =
            pick_lem nets ((idx + 1) % 4) left j (omega arith) (q, s) (omega (arith, near)) in
          (i, ground (arith, e, f), l, omega (arith, near, d, turns_le idx i p l))
      | inr e ↦ (idx, ground (arith, e), p, omega arith)
    ]

-- Polls without Ethernet and without a connection: their times, and whether requests are refused.
unfoldable pub stalled : List WifiNet → Wifi → List (ℕ × Bool) → List Request
stalled nets st [] = []
stalled nets st ((now, refused) ∷ more) =
    let went = supervise nets st false false now refused in went.1 ++ stalled nets went.0 more

-- Every poll comes at most `gap` after the one before it, the first after `t`.
abbrev pub IsRegular : ℕ → ℕ → List (ℕ × Bool) → Type 0
IsRegular gap t [] = Unit
IsRegular gap t ((now, refused) ∷ more) = (t ≤ now) × (now ≤ t + gap) × IsRegular gap now more

-- The time of the last poll.
abbrev pub last_time : ℕ → List (ℕ × Bool) → ℕ
last_time t [] = t
last_time t ((now, refused) ∷ more) = last_time now more

-- One poll, that picks entry `i`.
abbrev Picks : List WifiNet → ℕ → ℕ → Wifi × List Request → Type 0
Picks nets now i went =
    let asked = request_of (get_or nets i no_net) in
    ((went.1 ≡ asked ∷ []) ⊎ (went.1 ≡ disconnect_request ∷ asked ∷ []))
    × (went.0.next_idx ≡ (i + 1) % 4)
    × (went.0.attempt_ms ≡ now)
    × (went.0.reload ≡ false)

-- A poll that lets an attempt go on.
abbrev Waits : Wifi → ℕ → Wifi × List Request → Type 0
Waits st now went = (now ≤ st.attempt_ms + 20000) × (went ≡ (st, []))

poll-Picks :
    (nets : List WifiNet) (st : Wifi) (now : ℕ) (refused : Bool) (i : ℕ)
    → pick nets (st.next_idx % 4) 4 ≡ some i
    → st.reload ≡ false
    → Picks nets now i (supervise nets st false false now refused)
      ⊎ Waits st now (supervise nets st false false now refused)
unfolding supervise on_uplink unconnected try_next
poll-Picks nets st now refused i f r = elim (Bool-cases (is_some st.active_idx)) [
  | inl on ↦ inl (
    inl (ground (arith, f, r, on)),
    ground (arith, f, r, on),
    ground (arith, f, r, on),
    ground (arith, f, r, on),
  )
  | inr off ↦ elim (Bool-cases (is_some st.trying)) [
    | inr idle ↦ inl (
      inl (ground (arith, f, r, off, idle)),
      ground (arith, f, r, off, idle),
      ground (arith, f, r, off, idle),
      ground (arith, f, r, off, idle),
    )
    | inl on ↦ elim (Bool-cases (ltb 20000 (now - st.attempt_ms))) [
      | inl late ↦ inl (
        inr (ground (arith, f, r, late, off, on)),
        ground (arith, f, r, late, off, on),
        ground (arith, f, r, late, off, on),
        ground (arith, f, r, late, off, on),
      )
      | inr soon ↦ inr (ground (arith, soon), ground (arith, f, r, soon, off, on))
    ]
  ]
]

mem_left : (r : Request) (xs ys : List Request) → Memᴰ r xs → Memᴰ r (xs ++ ys)
mem_left r _ ys (Memᴰ.head e) = Memᴰ.head e
mem_left r _ ys (Memᴰ.tail {x} {xs} m) = Memᴰ.tail (mem_left r xs ys m)

mem_right : (r : Request) (xs ys : List Request) → Memᴰ r ys → Memᴰ r (xs ++ ys)
mem_right r [] ys m = m
mem_right r (x ∷ xs) ys m = Memᴰ.tail (mem_right r xs ys m)

-- The time that so many turns take.
abbrev budget : ℕ → ℕ → ℕ
budget gap zero = 0
budget gap (suc d) = 20000 + gap + budget gap d

budget_step : (gap d e : ℕ) → e < d → 20000 + gap + budget gap e ≤ budget gap d
budget_step gap zero e h = absurd (omega arith)
budget_step gap (suc d) e h = elim (eq_or_less e d (omega (arith, h))) [
  | inl same ↦ rw same (omega arith)
  | inr less ↦ omega (arith, budget_step gap d e less)
]
  where
    eq_or_less : (e d : ℕ) → e ≤ d → (e ≡ d) ⊎ (e < d)
    eq_or_less e d h = ground (arith, h)

asked_for :
    (nets : List WifiNet) (xs : List Request) (i j : ℕ)
    → (xs ≡ request_of (get_or nets i no_net) ∷ [])
      ⊎ (xs ≡ disconnect_request ∷ request_of (get_or nets i no_net) ∷ [])
    → i ≡ j
    → Memᴰ (request_of (get_or nets j no_net)) xs
asked_for nets xs i j (inl e) same =
    subst (λ t. Memᴰ (request_of (get_or nets j no_net)) t) (sym e)
      (Memᴰ.head (ap (λ k. request_of (get_or nets k no_net)) (sym same)))
asked_for nets xs i j (inr e) same =
    subst (λ t. Memᴰ (request_of (get_or nets j no_net)) t) (sym e)
      (Memᴰ.tail (Memᴰ.head (ap (λ k. request_of (get_or nets k no_net)) (sym same))))

-- `e` is no earlier than the last poll, and than the end of the attempt in flight.
stalled_lem :
    (gap e t : ℕ) (nets : List WifiNet) (st : Wifi) (polls : List (ℕ × Bool)) (j : ℕ)
    → IsStored nets j
    → st.reload ≡ false
    → t ≤ e
    → st.attempt_ms + 20000 ≤ e
    → IsRegular gap t polls
    → e + budget gap (turns (st.next_idx % 4) j) < last_time t polls
    → Memᴰ (request_of (get_or nets j no_net)) (stalled nets st polls)
unfolding stalled
stalled_lem gap e t nets st [] j s r a b reg h = absurd (omega (arith, a, h))
stalled_lem gap e t nets st ((now, refused) ∷ more) j s r a b (up, near, reg) h =
    let went = supervise nets st false false now refused in
    let req = request_of (get_or nets j no_net) in
    let (i, f, l, d) = pick_lem nets (st.next_idx % 4) 4 j (omega arith) s (omega arith) in
    elim (poll-Picks nets st now refused i f r) [
      | inr (soon, same) ↦
          subst (λ w. Memᴰ req (w.1 ++ stalled nets w.0 more)) (sym same)
            (stalled_lem gap e now nets st more j s r (omega (arith, soon, b)) b reg h)
      | inl (mem, nxt, at, re) ↦ elim (Bool-cases (i == j)) [
        | inl same ↦
            mem_left req went.1 (stalled nets went.0 more)
              (asked_for nets went.1 i j mem (ground (arith, same)))
        | inr ne ↦
            let turn : turns (went.0.next_idx % 4) j < turns (st.next_idx % 4) j =
              subst (λ n. turns (n % 4) j < turns (st.next_idx % 4) j) (sym nxt)
                (turns_after (st.next_idx % 4) i j (omega arith) l s.0 (ground (arith, ne)) d) in
            let cost =
              budget_step gap (turns (st.next_idx % 4) j) (turns (went.0.next_idx % 4) j) turn in
            mem_right req went.1 (stalled nets went.0 more) (
              stalled_lem gap (e + gap + 20000) now nets went.0 more j s re (omega (arith, near, a))
                (omega (arith, at, near, a)) reg (omega (arith, cost, h)))
      ]
    ]

budget_three : (gap n : ℕ) → n < 4 → budget gap n ≤ 60000 + 3 * gap
budget_three gap zero h = omega arith
budget_three gap (suc zero) h = omega arith
budget_three gap (suc (suc zero)) h = omega arith
budget_three gap (suc (suc (suc zero))) h = omega arith
budget_three gap (suc (suc (suc (suc n)))) h = absurd (omega (arith, h))

-- While there is neither Ethernet nor a connection, every stored network is asked for, whichever it
-- is and whatever the network library answers, by any polls that come at most `gap` apart and go on
-- for 80 s and three gaps (89 s, if the handler runs every 3 s): an attempt is given up after 20 s,
-- and the next network has its turn. No reload is pending, and the last attempt is not ahead of the
-- start.
pub stalled_asks_each :
    (gap start : ℕ) (nets : List WifiNet) (st : Wifi) (polls : List (ℕ × Bool)) (j : ℕ)
    → IsStored nets j
    → st.reload ≡ false
    → st.attempt_ms ≤ start
    → IsRegular gap start polls
    → start + 80000 + 3 * gap < last_time start polls
    → Memᴰ (request_of (get_or nets j no_net)) (stalled nets st polls)
stalled_asks_each gap start nets st polls j s r early reg long =
    stalled_lem gap (start + 20000) start nets st polls j s r (omega arith) (omega (arith, early))
      reg (omega (arith, long, budget_three gap (turns (st.next_idx % 4) j) (omega arith)))
