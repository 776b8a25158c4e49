-- ===== src/Trading/Services.antt =====
-- What the process manager stands on: the rows of its repositories (backend/models), the registry
-- of backend/exchanges/factory.py, and, behind interfaces, Redis, the adapters, the market hub,
-- Fernet and the store of breaker thresholds, which act on a state `E` of their own.
use utos.Prelude.{ℕ, Bool, false, ◌||◌, Option, List, [], ◌∷◌, Result, Exec, if◌then◌else◌}
use utos.Prelude.Text.{Text, lower, text_eq}
use utos.Prelude.Decimal.{Decimal}
use utos.Prelude.Dict.{Dict, number_key}
use utos.Grid.Engine.{GridEngine, EngineFault}
use utos.Grid.Breaker.{BreakerResumeMode}
use utos.Grid.Calculator.{AveragingStep}
use utos.Execution.Executor.{RetryPolicy}
use utos.ProfitLock.Policy.{Division}
use utos.Trading.StateMachine.{TradingInstanceStatus, TransitionFault}
use utos.Trading.Process.{MemoryDict, TradingProcess, Snapshot, Floats}

-- what `recover` and `_recover_instance` write to the column error_message
pub data ErrorMessage : Type 0 where
  split_brain health_check_failed symbol_gone raised : ErrorMessage

pub record TradingInstance : Type 0 where
  pub user_id : ℕ
  pub exchange_account_id : ℕ
  pub strategy_id : ℕ
  pub grid_profile_id : ℕ
  pub symbol : Text
  pub status : TradingInstanceStatus
  pub continuation_rate : Option Decimal
  pub breaker_enabled : Bool
  pub worker_id : Option ℕ
  pub memory_snapshot : Option MemoryDict
  pub memory_version : ℕ
  pub error_message : Option ErrorMessage
  pub started_at : Option ℕ
  pub stopped_at : Option ℕ
  pub deleted_at : Option ℕ

pub record ExchangeAccount : Type 0 where
  pub user_id : ℕ
  pub exchange_name : Text
  pub api_key_encrypted : Text
  pub api_secret_encrypted : Text
  pub is_testnet : Bool
  pub is_active : Bool

pub record Strategy : Type 0 where
  pub is_active : Bool

pub record GridProfile : Type 0 where
  pub user_id : ℕ
  pub investment_per_grid : Decimal

pub data ProcessFault : Type 0 where
  instance_not_found account_not_found strategy_error not_owner account_inactive : ProcessFault
  no_adapter profile_not_found active_exists duplicate_running locked : ProcessFault
  decrypt_failed authentication_failed symbol_not_supported lock_type_error : ProcessFault
  transition_fault : TransitionFault → ProcessFault
  grid_fault : EngineFault → ProcessFault
  outside_fault : ℕ → ProcessFault

-- the last document that the key `process:{id}:state` got: of a process, or that of `stop`
pub data StateDocument : Type 0 where
  of_process : Snapshot → StateDocument
  of_stop : ℕ → ℕ → ℕ → StateDocument

-- the answer to a get of a lock, which the client has decoded or not
pub data LockAnswer : Type 0 where
  decoded bytes : ℕ × ℕ → LockAnswer

-- redis.asyncio, for the two keys of an instance. A lock value is a worker's id with an instant.
pub record RedisClient (E : Type 0) : Type 0 where
  pub get_state : ℕ → E → Result ℕ (Option StateDocument) × E
  pub set_state : ℕ → StateDocument → E → Result ℕ (Unit {0}) × E
  pub get_lock : ℕ → E → Result ℕ (Option LockAnswer) × E
  pub set_lock_nx : ℕ → ℕ × ℕ → ℕ → E → Result ℕ Bool × E
  pub set_lock_xx : ℕ → ℕ × ℕ → ℕ → E → Result ℕ Bool × E
  pub delete_lock : ℕ → E → Result ℕ (Unit {0}) × E

-- exchanges/adapter.py: the methods of an adapter that the manager calls
pub record ExchangeAdapter (E : Type 0) : Type 0 where
  pub initialize : Text → Bool → E → Result ℕ (Unit {0}) × E
  pub authenticate : Text → Text × Text → E → Result ℕ Bool × E
  pub supported_symbols : Text → E → Result ℕ (List Text) × E
  pub health_check : Text → E → Result ℕ Bool × E
  pub disconnect : Text → E → Result ℕ (Unit {0}) × E

-- the methods of the market hub that the manager calls
pub record MarketFeed (E : Type 0) : Type 0 where
  pub get_price : Text → Text → E → Result ℕ Decimal × E
  pub subscribe : Text → Text → Text → ℕ → E → Result ℕ ℕ × E
  pub unsubscribe : ℕ → E → Result ℕ (Unit {0}) × E

-- the answer of `get_breaker_config`
pub record BreakerConfig : Type 0 where
  pub critical_threshold : Decimal
  pub min_continuation_rate : Decimal
  pub resume_mode : BreakerResumeMode
  pub recovery_pct : Option Decimal
  pub widen_multiplier : Option Decimal

pub record Services (E : Type 0) : Type 0 where
  pub redis : RedisClient E
  pub adapter : ExchangeAdapter E
  pub feed : MarketFeed E
  pub decrypt : Text → Option Text
  pub breaker_config : Text → Decimal → Text → E → Result ℕ BreakerConfig × E
  pub floats : Floats
  pub divide : Division
  pub retry : RetryPolicy

-- What one Python process, a worker, sees: its registry, its engines and whether it has a Redis client
-- are its own, the rest is common to all. `rows` are the trading instances by id. `redis_ready` says whether there is a Redis client,
-- `grid_engine` and `hub_ready` whether main.py has made the two engines.
pub record System (E : Type 0) : Type 0 where
  pub rows : Dict ℕ TradingInstance
  pub accounts : Dict ℕ ExchangeAccount
  pub strategies : Dict ℕ Strategy
  pub profiles : Dict ℕ GridProfile
  pub averaging : Dict ℕ (List AveragingStep)
  pub adapters : List Text
  pub registry : Dict ℕ TradingProcess
  pub grid_engine : Option GridEngine
  pub hub_ready : Bool
  pub redis_ready : Bool
  pub outside : E

abbrev pub Action : Type 0 → Type 0 → Type 0
Action E A = Exec (System E) ProcessFault A

abbrev pub text_member : Text → List Text → Bool
text_member t [] = false
text_member t (u ∷ us) = text_eq u t || text_member t us

-- ExchangeFactory.is_registered, over the names that are registered in lower case
unfoldable pub is_registered : Text → List Text → Bool
unfolding lower
is_registered exchange_name adapters = text_member (lower exchange_name) adapters

-- ExchangeFactory.register
unfoldable pub register_adapter : Text → List Text → List Text
unfolding lower
register_adapter exchange_name adapters =
    if text_member (lower exchange_name) adapters then adapters else lower exchange_name ∷ adapters
