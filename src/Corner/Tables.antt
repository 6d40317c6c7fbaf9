-- ===== src/Corner/Tables.antt =====
-- physical_system/corner_controller.py: the states, the timers and the object of a corner, and the
-- motors and sensors that its number gives it.
use circular_manu_system.Base.{List, Option, none, some, ℕ, ◌+◌}
use circular_manu_system.Base.Int.{ℤ}
use circular_manu_system.Base.Quad.{Corner, corner1, corner2, corner3, corner4, corner_number}
use circular_manu_system.Base.Text.{Text, codes}
use circular_manu_system.Events.{
  Barrier, c1_pos, c2_pos, c3_pos, c4_pos, corner1_ext, corner1_ret, corner2_ext, corner2_ret,
  corner3_ext, corner3_ret, corner4_ext, corner4_ret, m1_start, m2_start, s1_entry, s2_entry,
}
use circular_manu_system.Shop.{Timer}

pub data CornerState : Type 0 where
  idle final_approach ready_to_push extending pushing : CornerState
  waiting_for_confirmation retracting : CornerState

-- The methods that a corner hands to a timer.
pub data CornerCall : Type 0 where
  final_approach_complete try_push handshake_timeout : CornerCall

pub record CornerConfig : Type 0 where
  pub push_speed : ℤ
  pub final_delay : ℕ
  pub handshake_timeout : ℕ
  pub conveyor_speed : ℤ

pub record CornerController : Type 0 where
  pub corner : Corner
  pub config : CornerConfig
  pub state : CornerState
  pub approach_timer : Option ℕ
  pub handshake_timer : Option ℕ
  pub timers : List (Timer CornerCall)
  pub started : ℕ

-- `4 + corner_num`
abbrev pub motor_num : Corner → ℕ
motor_num c = 4 + corner_number c

-- `feed_motor_num`; corners 1 and 3 are fed by a main conveyor.
abbrev pub feed_motor_num : Corner → Option ℕ
feed_motor_num corner1 = some 1
feed_motor_num corner2 = none
feed_motor_num corner3 = some 2
feed_motor_num corner4 = none

abbrev pub confirmation_sensor : Corner → Barrier
confirmation_sensor corner1 = s1_entry
confirmation_sensor corner2 = m1_start
confirmation_sensor corner3 = s2_entry
confirmation_sensor corner4 = m2_start

-- `f'C{self.corner_num}_POS'` and the like.
abbrev pub pos_barrier : Corner → Barrier
pos_barrier corner1 = c1_pos
pos_barrier corner2 = c2_pos
pos_barrier corner3 = c3_pos
pos_barrier corner4 = c4_pos

abbrev pub ext_barrier : Corner → Barrier
ext_barrier corner1 = corner1_ext
ext_barrier corner2 = corner2_ext
ext_barrier corner3 = corner3_ext
ext_barrier corner4 = corner4_ext

abbrev pub ret_barrier : Corner → Barrier
ret_barrier corner1 = corner1_ret
ret_barrier corner2 = corner2_ret
ret_barrier corner3 = corner3_ret
ret_barrier corner4 = corner4_ret

unfoldable pub corner_id : Corner → Text
corner_id corner1 = codes "C1"
corner_id corner2 = codes "C2"
corner_id corner3 = codes "C3"
corner_id corner4 = codes "C4"

-- `state.value`
unfoldable pub state_value : CornerState → Text
state_value idle = codes "idle"
state_value final_approach = codes "final_approach"
state_value ready_to_push = codes "ready_to_push"
state_value extending = codes "extending"
state_value pushing = codes "pushing"
state_value waiting_for_confirmation = codes "waiting_for_confirmation"
state_value retracting = codes "retracting"
