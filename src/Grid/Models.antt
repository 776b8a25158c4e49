-- ===== src/Grid/Models.antt =====
-- The grid types of backend/core/domain_types.py, and GridStatus of backend/engine/grid/state.py.
-- Order ids are only compared, so they are numbers. A grid has the number that the
-- store files it under, and always an account.
use utos.Prelude.{ℕ, Option, List}
use utos.Prelude.Text.{Text}
use utos.Prelude.Decimal.{Decimal}

-- `opened` is the source's OPEN.
pub data LevelStatus : Type 0 where
  waiting opened filled cancelled tp_hit : LevelStatus

pub data GridStatus : Type 0 where
  idle initialized active paused completed error : GridStatus

pub record GridLevel : Type 0 where
  pub level : ℕ
  pub buy_price : Decimal
  pub sell_price : Decimal
  pub quantity : Decimal
  pub buy_order_id : Option ℕ
  pub sell_order_id : Option ℕ
  pub status : LevelStatus

pub record GridState : Type 0 where
  pub status : GridStatus
  pub upper_price : Decimal
  pub lower_price : Decimal
  pub grid_count : ℕ
  pub grid_spacing : Decimal
  pub investment_per_grid : Decimal
  pub levels : List GridLevel
  pub total_cycles : ℕ
  pub total_profit : Decimal
  pub exchange_account_id : ℕ
  pub symbol : Text
  pub current_price : Option Decimal

pub data GridFailure : Type 0 where
  grid_not_found level_not_found bad_parameters not_active level_filled level_not_filled no_level
        no_price :
      GridFailure
  invalid_grid_transition : GridStatus → GridStatus → GridFailure
  invalid_level_transition : LevelStatus → LevelStatus → GridFailure
