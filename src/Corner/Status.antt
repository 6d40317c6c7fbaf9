-- ===== src/Corner/Status.antt =====
-- physical_system/corner_controller.py: get_status.
use circular_manu_system.Corner
use circular_manu_system.Base.Text.{Text}
use circular_manu_system.Corner.{CornerController, state_value}

pub record CornerStatus : Type 0 where
  pub corner_id : Text
  pub state : Text

unfoldable pub corner_status : CornerController → CornerStatus
corner_status c = record { corner_id = Corner.corner_id c.corner; state = state_value c.state }
