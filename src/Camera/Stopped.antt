-- ===== src/Camera/Stopped.antt =====
-- A stopped loop.
use zephyr_applications.Common.{
  not, ◌&&◌, if◌then◌else◌, Option-cases, inl, inr, ◌≡◌, true, false, Bool, List, [], ◌∷◌, Option,
  none, some, All, arith,
}
use zephyr_applications.Camera.{
  not, test, info, snapshot, Loop, Answer, Kind, next_stop, turn, step, kind_of, count_fails,
  after_request, prusa_camera_next,
}

-- A turn that no kick cut short: whether a token is stored, what a request would return, and whether
-- a kick runs meanwhile.
abbrev pub Quiet : Type 0
Quiet = Bool × Answer × Bool

abbrev pub quiet_turns : Loop → List Quiet → List (Option Kind)
quiet_turns st [] = []
quiet_turns st ((has_token, answer, during) ∷ more) =
    let went = turn st false has_token answer during in went.1 ∷ quiet_turns went.0 more

stopped_turn :
    (st : Loop) (has_token : Bool) (answer : Answer) (during : Bool)
    → st.stopped ≡ true
    → st.test_requested ≡ false
    → (let went = turn st false has_token answer during in
        (went.1 ≡ none) × (went.0.stopped ≡ true) × (went.0.test_requested ≡ false))
unfolding turn step kind_of count_fails
stopped_turn st has_token answer during s t = ground (arith, s, t)

quiet_none :
    (st : Loop) (turns : List Quiet)
    → st.stopped ≡ true
    → st.test_requested ≡ false
    → All (λ k. k ≡ none) (quiet_turns st turns)
quiet_none st [] s t = tt
quiet_none st ((has_token, answer, during) ∷ more) s t =
    let (a, b, c) = stopped_turn st has_token answer during s t in
    (a, quiet_none (turn st false has_token answer during).0 more b c)

-- A request that is answered so stops the loop.
step_stops :
    (st : Loop) (answer : Answer) (during : Bool) (kind : Kind)
    → prusa_camera_next answer ≡ next_stop
    → (step st answer during).1 ≡ some kind
    → ((step st answer during).0.stopped ≡ true)
      × ((step st answer during).0.test_requested ≡ false)
unfolding step after_request count_fails
step_stops st answer during kind stop made = elim (Option-cases (kind_of st)) [
  | inl e ↦ ground (arith, e, made)
  | inr (test, e) ↦ ground (arith, e, stop)
  | inr (info, e) ↦ ground (arith, e, stop)
  | inr (snapshot, e) ↦ ground (arith, e, stop)
]

-- After an answer that says the request is wrong, the loop makes no request at all, however many
-- turns pass: none of them cut short by a kick, and no test asked for.
pub stop_is_silent :
    (st : Loop) (kicked : Bool) (answer : Answer) (during : Bool) (kind : Kind) (turns : List Quiet)
    → prusa_camera_next answer ≡ next_stop
    → (turn st kicked true answer during).1 ≡ some kind
    → All (λ k. k ≡ none) (quiet_turns (turn st kicked true answer during).0 turns)
unfolding turn
stop_is_silent st kicked answer during kind turns stop made =
    let woken = record st {
      stopped = if kicked && not st.test_requested then false else st.stopped;
    } in
    let (s, t) = step_stops woken answer during kind stop made in
    quiet_none (turn st kicked true answer during).0 turns s t
