-- ===== src/Teleop.antt =====
-- The joystick's teleoperation state machine: applications/joystick_controller/src/teleop.{c,h}.
-- A `double` is a value of any type with the operations that `scale` uses; an `int16_t` is an
-- integer. A step returns the new state and the twist to publish, if any.
pub mod Motion
pub mod Calibration
use zephyr_applications.Common.{
  ℕ, Bool, true, false, ◌&&◌, ◌||◌, not, if◌then◌else◌, eq_bool, Option, none, some,
}
use zephyr_applications.Common.Int.{ℤ, pos, negsuc, ltb_ℤ, is_zero}

abbrev pub teleop_axis_max : ℕ
teleop_axis_max = 1000

-- The arithmetic of `double` that the module uses.
pub record Floats (F : Type 0) : Type 0 where
  pub zero : F
  pub of_int : ℤ → F
  pub mul : F → F → F
  pub div : F → F → F

-- `struct teleop_limits`
pub record Limits (F : Type 0) : Type 0 where
  pub max_linear : F
  pub max_angular : F

-- `struct teleop_input`
pub record Input : Type 0 where
  pub enable : Bool
  pub mod_on : Bool
  pub grasp : Bool
  pub x : ℤ
  pub y : ℤ
  pub rz : ℤ

-- `struct teleop_twist`
pub record Twist (F : Type 0) : Type 0 where
  pub linear_x : F
  pub linear_y : F
  pub linear_z : F
  pub angular_x : F
  pub angular_y : F
  pub angular_z : F

-- `struct teleop_state`
pub record State : Type 0 where
  pub active : Bool
  pub blocked : Bool
  pub armed : Bool
  pub mod_on : Bool
  pub grasp : Bool

abbrev pub clamp : ℤ → ℤ
clamp v =
    if ltb_ℤ v (negsuc 999)
    then negsuc 999
    else if ltb_ℤ (pos teleop_axis_max) v
    then pos teleop_axis_max
    else v

abbrev pub centred : Input → Bool
centred inp = is_zero inp.x && is_zero inp.y && is_zero inp.rz

unfoldable pub teleop_reset : State
teleop_reset = record {
  active = false;
  blocked = true;
  armed = false;
  mod_on = false;
  grasp = false;
}

-- Call after `teleop_step`; the level to publish, if any.
unfoldable pub teleop_grasp_step : State → Input → State × Option Bool
teleop_grasp_step s inp =
    if s.blocked || not inp.enable || eq_bool inp.grasp s.grasp
    then (s, none)
    else (record s { grasp = inp.grasp }, some inp.grasp)

module _ {F : Type 0} (fl : Floats F) where
  unfoldable pub scale : ℤ → F → F
  scale v max = fl.div (fl.mul (fl.of_int (clamp v)) max) (fl.of_int (pos teleop_axis_max))

  abbrev pub zero_twist : Twist F
  zero_twist = record {
    linear_x = fl.zero;
    linear_y = fl.zero;
    linear_z = fl.zero;
    angular_x = fl.zero;
    angular_y = fl.zero;
    angular_z = fl.zero;
  }

  unfoldable pub motion : Limits F → Input → Twist F
  unfolding scale
  motion lim inp =
      let zero = zero_twist in
      if inp.mod_on
      then record zero {
        linear_z = scale inp.y lim.max_linear;
        angular_y = scale inp.x lim.max_angular;
        angular_x = scale inp.rz lim.max_angular;
      }
      else record zero {
        linear_x = scale inp.y lim.max_linear;
        linear_y = scale inp.x lim.max_linear;
        angular_z = scale inp.rz lim.max_angular;
      }

  abbrev pub stop : State → State × Option (Twist F)
  stop s = if not s.active then (s, none) else (record s { active = false }, some zero_twist)

  -- The end of `teleop_step`, from the test of `armed` on.
  abbrev drive : Limits F → Input → State → State × Option (Twist F)
  drive lim inp s =
      if not s.armed
      then (record s { armed = centred inp }, none)
      else if centred inp
      then stop s
      else (record s { active = true }, some (motion lim inp))

  -- The branch for enable off or a changed mod: a stop that is owed goes out first.
  abbrev disarm : Limits F → Input → State → State × Option (Twist F)
  disarm lim inp s =
      if s.active then stop s else if not inp.enable then (s, none) else drive lim inp s

  unfoldable pub teleop_step : State → Input → Limits F → State × Option (Twist F)
  teleop_step s inp lim =
      if s.blocked
      then (record s { blocked = inp.enable }, none)
      else if not inp.enable || not (eq_bool inp.mod_on s.mod_on)
      then disarm lim inp (record s { armed = false; mod_on = inp.mod_on })
      else drive lim inp s
