-- ===== src/Trading/Process/Restore.antt =====
-- What a process that was saved is when it is restored.
use utos.Prelude.{◌≡◌, refl, Bool, true, false, Option, none, some, arith}
use utos.Prelude.Text.{Text}
use utos.Prelude.Decimal.{Decimal}
use utos.Trading.StateMachine.{TradingInstanceStatus}
use utos.Trading.Process.{
  ProcessMemory, to_dict, from_dict, status_value, status_of, TradingProcess, is_zero, Floats,
}

pub status_of-status_value : (s : TradingInstanceStatus) → status_of (status_value s) ≡ some s
unfolding status_of status_value utos.Prelude.Text.text_eq
status_of-status_value TradingInstanceStatus.created = refl
status_of-status_value TradingInstanceStatus.ready = refl
status_of-status_value TradingInstanceStatus.running = refl
status_of-status_value TradingInstanceStatus.paused = refl
status_of-status_value TradingInstanceStatus.stopping = refl
status_of-status_value TradingInstanceStatus.stopped = refl
status_of-status_value TradingInstanceStatus.error = refl
status_of-status_value TradingInstanceStatus.recovering = refl
status_of-status_value TradingInstanceStatus.recovered = refl

-- A decimal that was a float is that float: `str` prints a float so that it is read back as it was.
abbrev pub ReadsBack : Floats → Decimal → Type 0
ReadsBack floats d = floats.to_float (floats.of_float (floats.to_float d)) ≡ floats.to_float d

-- a decimal after its float
abbrev pub through : Floats → Decimal → Decimal
through floats d = floats.of_float (floats.to_float d)

-- A process after it was saved and restored: the same without its subscription, with its decimals
-- by way of their floats, and a current price that is none or not zero.
pub record Restored (floats : Floats) (p q : TradingProcess) : Type 0 where
  pub restored_price : Option Decimal
  pub same : q ≡ record p {
    subscription_id = none;
    memory = record p.memory {
      current_price = restored_price;
      unrealized_pnl = through floats p.memory.unrealized_pnl;
      total_profit = through floats p.memory.total_profit;
      total_fees = through floats p.memory.total_fees;
    };
  }
  pub priced :
      (d : Decimal)
      → p.memory.current_price ≡ some d
      → is_zero d ≡ false
      → restored_price ≡ some (through floats d)
  pub unpriced :
      ((d : Decimal) → p.memory.current_price ≡ some d → is_zero d ≡ true) → restored_price ≡ none

-- A current price of zero is lost: it is restored as none, whatever the floats are.
pub from_dict-zero :
    (floats : Floats) (m : ProcessMemory) (d : Decimal)
    → m.current_price ≡ some d
    → is_zero d ≡ true
    → (from_dict floats (to_dict floats m)).current_price ≡ none
unfolding from_dict to_dict
from_dict-zero floats m d priced empty = rw (priced, empty)
