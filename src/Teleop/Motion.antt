-- ===== src/Teleop/Motion.antt =====
-- When the joystick moves the robot, and when it owes a stop.
use zephyr_applications.Common.{
  ◌≡◌, refl, true, false, Option, none, some, List, [], ◌∷◌, All, arith, ◌⊎◌,
}
use zephyr_applications.Teleop.{
  Floats, Limits, Input, Twist, State, centred, teleop_step, teleop_reset, motion, zero_twist,
}

-- Motion is owed a stop only while armed and unblocked.
record IsSane (s : State) : Type 0 where
  armed_if_active : s.active ≡ true → s.armed ≡ true
  free_if_active : s.active ≡ true → s.blocked ≡ false

module _ {F : Type 0} (fl : Floats F) (lim : Limits F) where
  -- What one tick publishes, and what that needs: motion goes out only with enable on, not blocked,
  -- the stick off centre, and armed before the tick under the present mod; a stop goes out only when
  -- motion was the last thing published. `active` says afterwards which it was.
  pub step_cases :
      (s : State) (inp : Input)
      → let (s', out) = teleop_step fl s inp lim in
        ((out ≡ some (motion fl lim inp))
          × (s'.active ≡ true)
          × (inp.enable ≡ true)
          × (s.blocked ≡ false)
          × (s.armed ≡ true)
          × (s.mod_on ≡ inp.mod_on)
          × (centred inp ≡ false))
        ⊎ ((out ≡ some (zero_twist fl)) × (s.active ≡ true) × (s'.active ≡ false))
        ⊎ ((out ≡ none) × (s'.active ≡ s.active))
  unfolding teleop_step
  step_cases s inp = ground arith

  -- The state after a run of ticks, and what they publish.
  unfoldable pub run : State → List Input → State × List (Option (Twist F))
  run s [] = (s, [])
  run s (inp ∷ inps) =
      let (s', out) = teleop_step fl s inp lim in let (s'', outs) = run s' inps in (s'', out ∷ outs)

  step_blocked :
      (s : State) (inp : Input)
      → s.blocked ≡ true
      → inp.enable ≡ true
      → ((teleop_step fl s inp lim).0.blocked ≡ true) × ((teleop_step fl s inp lim).1 ≡ none)
  unfolding teleop_step
  step_blocked s inp b h = ground arith

  blocked_silent :
      (s : State) (inps : List Input)
      → s.blocked ≡ true
      → All (λ (inp : Input). inp.enable ≡ true) inps
      → All (λ out. out ≡ none) (run s inps).1 × ((run s inps).0.blocked ≡ true)
  unfolding run
  blocked_silent s [] b h = (tt, b)
  blocked_silent s (inp ∷ inps) b h =
      let (still, quiet) = step_blocked s inp b h.0 in
      let (rest, end) = blocked_silent (teleop_step fl s inp lim).0 inps still h.1 in
      ((quiet, rest), end)

  -- An enable switch that is on at power-up, or across a lost link, moves nothing: until enable is
  -- seen off once, no tick publishes anything, and the state stays blocked.
  pub latched_enable_silent :
      (inps : List Input)
      → All (λ (inp : Input). inp.enable ≡ true) inps
      → All (λ out. out ≡ none) (run teleop_reset inps).1
        × ((run teleop_reset inps).0.blocked ≡ true)
  unfolding teleop_reset
  latched_enable_silent inps h = blocked_silent _ inps refl h
