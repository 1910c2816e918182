-- ===== src/Health/Edge.antt =====
-- The press and mismatch edge detector of health_logic.c.
use zephyr_applications.Common.{
  refl, ap₂, ap₂, arith, ◌≢◌, ◌≡◌, ℕ, Bool, true, false, ◌&&◌, not, ◌==◌, if◌then◌else◌, eq_bool,
  List, [], ◌∷◌,
}

-- `struct health_edge`; the two bits of `seen` are flags, an array of two is two fields.
pub record HealthEdge : Type 0 where
  pub seen_0 : Bool
  pub seen_1 : Bool
  pub primed : Bool
  pub stop_both : Bool
  pub mismatch : Bool
  pub tick_0 : ℕ
  pub tick_1 : ℕ
  pub verdict_0 : ℕ
  pub verdict_1 : ℕ

-- `struct health_edge_out`
pub record EdgeOut : Type 0 where
  pub press : Bool
  pub mismatch : Bool

abbrev no_edge : EdgeOut
no_edge = record { press = false; mismatch = false }

-- The part of `health_edge_step` behind the check that both channels reported the same tick.
abbrev evaluate : HealthEdge → ℕ → HealthEdge × EdgeOut
evaluate st stop_code =
    let s0 = st.verdict_0 == stop_code in
    let s1 = st.verdict_1 == stop_code in
    let stop_both = s0 && s1 in
    let mismatch = not (eq_bool s0 s1) in
    (
      record st { primed = true; stop_both = stop_both; mismatch = mismatch },
      if st.primed
          then record {
            press = stop_both && not st.stop_both;
            mismatch = mismatch && not st.mismatch;
          }
          else no_edge,
    )

abbrev align : HealthEdge → ℕ → HealthEdge × EdgeOut
align st stop_code =
    if not (st.seen_0 && st.seen_1 && (st.tick_0 == st.tick_1))
    then (st, no_edge)
    else evaluate st stop_code

-- `channel` is a C int that is not negative.
unfoldable pub edge_step : HealthEdge → ℕ → ℕ → ℕ → ℕ → HealthEdge × EdgeOut
edge_step st channel tick verdict stop_code =
    if channel == 0
    then align (record st { tick_0 = tick; verdict_0 = verdict; seen_0 = true }) stop_code
    else if channel == 1
    then align (record st { tick_1 = tick; verdict_1 = verdict; seen_1 = true }) stop_code
    else (st, no_edge)

-- A zeroed detector.
abbrev pub edge_init : HealthEdge
edge_init = record {
  seen_0 = false;
  seen_1 = false;
  primed = false;
  stop_both = false;
  mismatch = false;
  tick_0 = 0;
  tick_1 = 0;
  verdict_0 = 0;
  verdict_1 = 0;
}

-- The two calls of the tick handler in health.c, one for each channel.
unfoldable pub observe : HealthEdge → ℕ → ℕ → ℕ → ℕ → HealthEdge × EdgeOut
observe st tick v0 v1 stop_code = edge_step (edge_step st 0 tick v0 stop_code).0 1 tick v1 stop_code

-- The ticks that the observer sees: their numbers and the two verdicts.
abbrev pub Seen : Type 0
Seen = ℕ × ℕ × ℕ

unfoldable pub events : HealthEdge → ℕ → List Seen → List EdgeOut
events st stop_code [] = []
events st stop_code ((tick, v0, v1) ∷ ticks) =
    let (st', out) = observe st tick v0 v1 stop_code in out ∷ events st' stop_code ticks

-- The specification of a press: both channels stop; of a mismatch: exactly one does.
abbrev pub both : ℕ → ℕ → ℕ → Bool
both stop_code v0 v1 = (v0 == stop_code) && (v1 == stop_code)

abbrev pub one : ℕ → ℕ → ℕ → Bool
one stop_code v0 v1 = not (eq_bool (v0 == stop_code) (v1 == stop_code))

-- The rising edges of both, given the levels of the tick before.
abbrev pub rising : ℕ → Bool → Bool → List Seen → List EdgeOut
rising stop_code both_before one_before [] = []
rising stop_code both_before one_before ((tick, v0, v1) ∷ ticks) =
    (record {
      press = both stop_code v0 v1 && not both_before;
      mismatch = one stop_code v0 v1 && not one_before;
    })
    ∷ rising stop_code (both stop_code v0 v1) (one stop_code v0 v1) ticks

-- No tick has the number of the one before it.
abbrev pub Advancing : ℕ → List Seen → Type 0
Advancing last [] = Unit
Advancing last ((tick, v0, v1) ∷ ticks) = (tick ≢ last) × Advancing tick ticks

-- A detector that has evaluated tick `last`.
record Aligned (st : HealthEdge) (last : ℕ) (b o : Bool) : Type 0 where
  seen : (st.seen_0 ≡ true) × (st.seen_1 ≡ true) × (st.primed ≡ true)
  at_last : (st.tick_0 ≡ last) × (st.tick_1 ≡ last)
  levels : (st.stop_both ≡ b) × (st.mismatch ≡ o)

observe-Aligned :
    (st : HealthEdge) (last tick v0 v1 stop_code : ℕ) (b o : Bool)
    → tick ≢ last
    → Aligned st last b o
    → Aligned (observe st tick v0 v1 stop_code).0 tick (both stop_code v0 v1) (one stop_code v0 v1)
      × ((observe st tick v0 v1 stop_code).1 ≡ record {
        press = both stop_code v0 v1 && not b;
        mismatch = one stop_code v0 v1 && not o;
      })
unfolding observe edge_step
observe-Aligned st last tick v0 v1 stop_code b o ne h = ground arith

observe_first :
    (tick v0 v1 stop_code : ℕ)
    → Aligned
        (observe edge_init tick v0 v1 stop_code).0
        tick
        (both stop_code v0 v1)
        (one stop_code v0 v1)
      × ((observe edge_init tick v0 v1 stop_code).1 ≡ no_edge)
unfolding observe edge_step
observe_first tick v0 v1 stop_code = ground arith

events-Aligned :
    (st : HealthEdge) (last stop_code : ℕ) (b o : Bool) (ticks : List Seen)
    → Advancing last ticks
    → Aligned st last b o
    → events st stop_code ticks ≡ rising stop_code b o ticks
unfolding events
events-Aligned st last stop_code b o [] adv h = refl
events-Aligned st last stop_code b o ((tick, v0, v1) ∷ ticks) adv h =
    let next = observe-Aligned st last tick v0 v1 stop_code b o adv.0 h in
    ap₂ ◌∷◌ next.1 (
      events-Aligned (observe st tick v0 v1 stop_code).0 tick stop_code (both stop_code v0 v1)
        (one stop_code v0 v1) ticks adv.1 next.0)

-- Fed tick after tick, each with a number other than the last one's, a fresh detector counts nothing
-- on the first tick, whatever it shows, and from then on exactly the rising edges: a press where
-- both channels stop and did not on the tick before, a mismatch where exactly one stops and it was
-- not so on the tick before.
pub events-eq-rising :
    (stop_code tick v0 v1 : ℕ) (ticks : List Seen)
    → Advancing tick ticks
    → events edge_init stop_code ((tick, v0, v1) ∷ ticks)
      ≡ record { press = false; mismatch = false }
        ∷ rising stop_code (both stop_code v0 v1) (one stop_code v0 v1) ticks
unfolding events
events-eq-rising stop_code tick v0 v1 ticks adv =
    let first = observe_first tick v0 v1 stop_code in
    ap₂ ◌∷◌ first.1 (
      events-Aligned (observe edge_init tick v0 v1 stop_code).0 tick stop_code
        (both stop_code v0 v1) (one stop_code v0 v1) ticks adv first.0)
