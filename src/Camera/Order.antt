-- ===== src/Camera/Order.antt =====
-- The camera's description and its snapshots.
use zephyr_applications.Common.{
  refl, ◌⊎◌, Option-cases, inl, inr, if◌then◌else◌, ◌&&◌, arith, not, if◌then◌else◌, ◌≡◌, true,
  false, Bool, List, [], ◌∷◌, Option, none, some,
}
use zephyr_applications.Camera.{
  next_ok, count_fails, after_request, kind_of, loop_init, step, not, Loop, Answer, Kind, test,
  info, snapshot, turn, kick, connect_test, is_ok, prusa_camera_next,
}

-- What happens to the loop: a kick, a test that is asked for, a turn. No kick comes in while a turn's
-- request is in flight.
pub data Event : Type 0 where
  kicks : Event
  asks_test : Event
  turns : (kicked has_token : Bool) → Answer → Event

abbrev pub apply : Loop → Event → Loop
apply st kicks = kick st
apply st asks_test = connect_test st
apply st (turns kicked has_token answer) = (turn st kicked has_token answer false).0

-- The request of an event.
abbrev pub request : Loop → Event → Option Kind
request st (turns kicked has_token answer) = (turn st kicked has_token answer false).1
request st _ = none

-- Whether the service has taken a camera-info since the last kick.
abbrev pub taken : Option Kind → Answer → Bool → Bool
taken (some info) answer d = if is_ok (prusa_camera_next answer) then true else d
taken (some test) answer d = d
taken (some snapshot) answer d = d
taken none answer d = d

abbrev pub described : Loop → Bool → Event → Bool
described st d kicks = false
described st d asks_test = d
described st d (turns kicked has_token answer) =
    taken (request st (turns kicked has_token answer)) answer d

abbrev pub is_snapshot : Option Kind → Bool
is_snapshot (some snapshot) = true
is_snapshot (some test) = false
is_snapshot (some info) = false
is_snapshot none = false

-- Every snapshot of a run is sent while the service has the description.
abbrev pub InOrder : Loop → Bool → List Event → Type 0
InOrder st d [] = Unit
InOrder st d (e ∷ es) =
    ((is_snapshot (request st e) ≡ false) ⊎ (d ≡ true)) × InOrder (apply st e) (described st d e) es

snapshot_fresh : (st : Loop) → kind_of st ≡ some snapshot → st.info_stale ≡ false
unfolding kind_of
snapshot_fresh st e = ground (arith, e)

-- What one step asks, and what it leaves of the flag.
step_flag :
    (st : Loop) (answer : Answer) (d : Bool)
    → st.info_stale ≡ not d
    → ((is_snapshot (step st answer false).1 ≡ false) ⊎ (d ≡ true))
      × ((step st answer false).0.info_stale ≡ not (taken (step st answer false).1 answer d))
unfolding step after_request count_fails
step_flag st answer d h = elim (Option-cases (kind_of st)) [
  | inl e ↦ (inl (ground (arith, e)), ground (arith, e, h))
  | inr (test, e) ↦ (inl (ground (arith, e)), ground (arith, e, h))
  | inr (info, e) ↦ (inl (ground (arith, e)), ground (arith, e, h))
  | inr (snapshot, e) ↦ (inr (ground (arith, h, snapshot_fresh st e)), ground (arith, e, h))
]

turn_flag :
    (st : Loop) (kicked has_token : Bool) (answer : Answer) (d : Bool)
    → st.info_stale ≡ not d
    → (let went = turn st kicked has_token answer false in
        ((is_snapshot went.1 ≡ false) ⊎ (d ≡ true))
        × (went.0.info_stale ≡ not (taken went.1 answer d)))
unfolding turn
turn_flag st kicked true answer d h =
    step_flag
      (record st { stopped = if kicked && not st.test_requested then false else st.stopped }) answer
      d h
turn_flag st kicked false answer d h = (inl refl, h)

in_order : (st : Loop) (d : Bool) (es : List Event) → st.info_stale ≡ not d → InOrder st d es
in_order st d [] h = tt
in_order st d (kicks ∷ es) h = (inl refl, in_order (kick st) false es (ground arith))
in_order st d (asks_test ∷ es) h = (inl refl, in_order (connect_test st) d es h)
in_order st d (turns kicked has_token answer ∷ es) h =
    let (fresh, flag) = turn_flag st kicked has_token answer d h in
    (
      fresh,
      in_order (turn st kicked has_token answer false).0
          (taken (turn st kicked has_token answer false).1 answer d) es flag,
    )

-- No snapshot is sent before the service has the camera's description as it is: in every run of the
-- loop from its start, the service has taken a camera-info between the last kick and each snapshot.
-- No kick comes in while a request is in flight.
pub run-InOrder : (es : List Event) → InOrder loop_init false es
run-InOrder es = in_order loop_init false es (ground arith)

-- A kick that comes in while a camera-info is in flight is forgotten, if the service takes it.
kick_forgotten :
    (st : Loop) (answer : Answer)
    → kind_of st ≡ some info
    → prusa_camera_next answer ≡ next_ok
    → (step st answer true).0.info_stale ≡ false
unfolding step after_request count_fails
kick_forgotten st answer e ok = ground (arith, e, ok)
