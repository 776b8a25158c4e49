-- ===== src/Trading/Manager/Tests.antt =====
-- The theorems on the process manager, with a Redis of locks alone and an exchange that accepts all.
use utos.Prelude.{
  if◌then◌else◌, ◌==◌, ◌/◌, ◌*◌, ◌^◌, ℕ, ◌≡◌, ◌≢◌, refl, Bool, true, false, Option, none, some,
  List, [], ◌∷◌, Result, ok, err,
}
use utos.Prelude.Text.{codes}
use utos.Prelude.Decimal.{whole}
use utos.Prelude.Dict.{
  Dict, lookup, insert, erase, number_key, lookup-insert_self, lookup-erase_self,
}
use utos.Execution.Models.{OrderSide, OrderType, Status}
use utos.Prelude.Int.{pos, pos_part}
use utos.Grid.Models.{GridStatus, GridState}
use utos.Grid.Engine.{GridEngine, pause_grid}
use utos.Trading.StateMachine.{TradingInstanceStatus}
use utos.Trading.Process.{TradingProcess, Floats}
use utos.Trading.Services.{
  Services, RedisClient, System, ProcessFault, TradingInstance, ErrorMessage,
}
use utos.Trading.Manager.{fresh_memory}
use utos.Trading.Manager.Lifecycle.{start, resume, pause}
use utos.Trading.Manager.Recover.{recover, recover_one}
use utos.Trading.Manager.Calls.{
  Request, Call, Workers, own_part, Lives, run_requests, run_call, requests-Lives, foreign_refused,
}
use utos.Trading.Manager.Recovered.{recover_finishes, interrupted_fails, is_live}
use utos.Trading.Manager.Settled.{is_settled}
use utos.Trading.Manager.Locks.{LockLaws, start_excluded, resume_takes}
use utos.Trading.Manager.Parked.{pause_then_resume, paused_engine}

abbrev LockTable : Type 0
LockTable = Dict ℕ (ℕ × ℕ)

abbrev set_free : Option (ℕ × ℕ) → ℕ → ℕ × ℕ → LockTable → Result ℕ Bool × LockTable
set_free none id v e = (ok true, insert id v e)
set_free (some w) id v e = (ok false, e)

abbrev redis : RedisClient LockTable
redis = record {
  get_state = λ id e. (ok none, e);
  set_state = λ id d e. (ok tt, e);
  get_lock = λ id e. (err 1, e);
  set_lock_nx = λ id v ttl e. set_free (lookup id e) id v e;
  set_lock_xx = λ id v ttl e. (ok true, e);
  delete_lock = λ id e. (ok tt, erase id e);
}

redis_laws : LockLaws redis
redis_laws = record {
  holder = λ e id. lookup id e;
  nx_held = λ id v w ttl e held. rw held;
  nx_free = λ id v ttl e free. (rw free, rw free (lookup-insert_self id v e));
  deleted = λ id e. lookup-erase_self id e;
  state_kept = λ id d e j. refl;
}

abbrev services : Services LockTable
services = record {
  redis = redis;
  adapter = record {
    initialize = λ name testnet e. (ok tt, e);
    authenticate = λ name keys e. (ok true, e);
    supported_symbols = λ name e. (ok (codes "BTCUSDT" ∷ []), e);
    health_check = λ name e. (ok true, e);
    disconnect = λ name e. (ok tt, e);
  };
  feed = record {
    get_price = λ exchange symbol e. (ok (whole 100), e);
    subscribe = λ exchange symbol channel callback e. (ok 9, e);
    unsubscribe = λ sub_id e. (ok tt, e);
  };
  decrypt = λ t. some t;
  breaker_config = λ symbol rate exchange e. (err 1, e);
  floats = record { to_float = λ d. 0; of_float = λ f. whole 0 };
  divide = λ a b. a;
  retry = record { max_retries = 1; base_delay = 1; max_delay = 1; backoff_multiplier = 1 };
}

abbrev row_in : TradingInstanceStatus → TradingInstance
row_in status = record {
  user_id = 5;
  exchange_account_id = 2;
  strategy_id = 3;
  grid_profile_id = 4;
  symbol = codes "BTCUSDT";
  status = status;
  continuation_rate = none;
  breaker_enabled = true;
  worker_id = none;
  memory_snapshot = none;
  memory_version = 0;
  error_message = none;
  started_at = none;
  stopped_at = none;
  deleted_at = none;
}

abbrev process : TradingProcess
process = record {
  instance_id = 1;
  user_id = 5;
  exchange_account_id = 2;
  strategy_id = 3;
  symbol = codes "BTCUSDT";
  exchange_name = codes "binance";
  status = TradingInstanceStatus.running;
  adapter = codes "binance";
  memory = fresh_memory 1 TradingInstanceStatus.running 0;
  worker_id = 7;
  lock_value = (7, 0);
  subscription_id = some 9;
}

abbrev grid : GridState
grid = record {
  status = GridStatus.active;
  upper_price = whole 130;
  lower_price = whole 100;
  grid_count = 0;
  grid_spacing = whole 10;
  investment_per_grid = whole 100;
  levels = [];
  total_cycles = 0;
  total_profit = whole 0;
  exchange_account_id = 2;
  symbol = codes "BTCUSDT";
  current_price = none;
}

abbrev engine : GridEngine
engine = record {
  grids = (1, grid) ∷ [];
  trailing = [];
  has_profit_lock = false;
  locks = record { states = []; metrics = [] };
  exec = record {
    tracker = record {
      objects = λ ref. record {
        request_id = 0;
        exchange_account_id = 0;
        result = record {
          order_id = 0;
          exchange_order_id = 0;
          symbol = [];
          side = OrderSide.buy;
          order_type = OrderType.limit;
          quantity = whole 0;
          price = none;
          filled_quantity = whole 0;
          average_fill_price = none;
          status = [];
          created_at = 0;
          updated_at = 0;
        };
        status = Status.pending;
        created_at = 0;
        updated_at = 0;
        retry_count = 0;
      };
      next = 0;
      orders = [];
      request_index = [];
    };
    adapters = [];
    log = [];
    clock = 0;
  };
  breakers = [];
}

-- A system with one process, which runs, is registered and is held by worker 7.
abbrev system_with : TradingInstanceStatus → System LockTable
system_with status = record {
  rows = (1, row_in status) ∷ [];
  accounts =
      (
        2,
        record {
          user_id = 5;
          exchange_name = codes "binance";
          api_key_encrypted = codes "k";
          api_secret_encrypted = codes "s";
          is_testnet = true;
          is_active = true;
        },
      )
      ∷ [];
  strategies = [];
  profiles = [];
  averaging = [];
  adapters = codes "binance" ∷ [];
  registry = (1, process) ∷ [];
  grid_engine = some engine;
  hub_ready = true;
  redis_ready = true;
  outside = (1, (7, 0)) ∷ [];
}

start_excluded_example :
    start services 8 1 (λ n. (n, n)) 1 5 (system_with TradingInstanceStatus.ready)
    ≡ (err ProcessFault.locked, system_with TradingInstanceStatus.ready)
unfolding lookup utos.Trading.StateMachine.validate_process_transition
    utos.Trading.Manager.has_running_twin utos.Trading.Manager.is_running_twin redis_laws
start_excluded_example =
    start_excluded services redis_laws 8 1 (λ n. (n, n)) 1 5 (row_in TradingInstanceStatus.ready)
      (7, 0) (system_with TradingInstanceStatus.ready) refl refl refl refl refl refl

resume_takes_example :
    (s' : System LockTable) × (resume services 8 1 1 5 (system_with TradingInstanceStatus.paused)
      ≡ (ok tt, s'))
    × (lookup 1 s'.outside ≡ some (8, 1))
    × ((row' : TradingInstance) × (lookup 1 s'.rows ≡ some row')
        × (row'.status ≡ TradingInstanceStatus.running))
unfolding lookup utos.Trading.StateMachine.validate_process_transition redis_laws
resume_takes_example =
    resume_takes services redis_laws 8 1 1 5 (row_in TradingInstanceStatus.paused) process
      (system_with TradingInstanceStatus.paused) refl refl refl refl refl

pause_then_resume_example :
    let s' =
      (resume services 8 2 1 5
        (pause services 7 1 1 5 (system_with TradingInstanceStatus.running)).1).1 in
    (s'.grid_engine ≡ paused_engine 1 (some engine))
    × ((p : TradingProcess) → lookup 1 s'.registry ≡ some p → p.subscription_id ≡ none)
unfolding pause utos.Trading.Manager.instance_for lookup
    utos.Trading.StateMachine.validate_process_transition utos.Trading.Manager.Lifecycle.process_of
    utos.Trading.Manager.Wire.unwire_grid_and_market pause_grid utos.Grid.Engine.cancel_each
    utos.Grid.Planner.plan_cancel_all utos.Grid.Engine.in_store utos.Grid.State.transition_grid
    utos.Grid.State.validate_grid_transition utos.Trading.Manager.Lifecycle.move_process
    utos.Trading.Manager.persist_instance utos.Trading.Store.release_lock
pause_then_resume_example =
    pause_then_resume services 7 1 1 5 8 2 (system_with TradingInstanceStatus.running) refl

recover_finishes_example :
    (TradingInstanceStatus.error ≢ TradingInstanceStatus.recovering)
    × (is_live TradingInstanceStatus.recovering ≡ true
        → is_settled TradingInstanceStatus.error ≡ true)
unfolding lookup recover utos.Trading.Manager.Recover.recover_status
    utos.Trading.Manager.Recover.recover_each recover_one utos.Trading.Manager.validate_transition
    utos.Trading.StateMachine.validate_process_transition utos.Trading.Manager.persist_instance
    insert
recover_finishes_example =
    recover_finishes services 8 1 (system_with TradingInstanceStatus.recovering) 1
      (row_in TradingInstanceStatus.recovering)
      (record (row_in TradingInstanceStatus.recovering) {
        status = TradingInstanceStatus.error;
        error_message = some ErrorMessage.raised;
      })
      refl refl

interrupted_fails_example :
    recover_one services 8 1 1 (system_with TradingInstanceStatus.recovering) ≡ (
      false,
      record (system_with TradingInstanceStatus.recovering) {
        rows =
            (
              1,
              record (row_in TradingInstanceStatus.recovering) {
                status = TradingInstanceStatus.error;
                error_message = some ErrorMessage.raised;
              },
            )
            ∷ [];
      },
    )
unfolding lookup insert
interrupted_fails_example =
    interrupted_fails services 8 1 1 (row_in TradingInstanceStatus.recovering)
      (system_with TradingInstanceStatus.recovering) refl refl

abbrev requests : List Request
requests =
    record { call = Call.pause_call; worker_id = 7; now = 1; id = 1; user_id = 5 }
    ∷ record { call = Call.resume_call; worker_id = 8; now = 2; id = 1; user_id = 5 }
    ∷ record { call = Call.stop_call; worker_id = 8; now = 3; id = 1; user_id = 5 }
    ∷ []

-- only worker 7 has the process in its registry
abbrev workers : Workers LockTable
workers =
    let s = system_with TradingInstanceStatus.running in
    record {
      common = s;
      memories = λ w. if w == 7 then own_part s else record (own_part s) { registry = [] };
    }

requests-Lives_example :
    Lives services 1
      (row_in TradingInstanceStatus.running)
      (run_requests services requests workers).common
unfolding lookup
requests-Lives_example =
    requests-Lives services requests 1 (row_in TradingInstanceStatus.running) workers refl

foreign_refused_example :
    run_call services Call.stop_call 7 1 1 6 (system_with TradingInstanceStatus.running)
    ≡ (err ProcessFault.not_owner, system_with TradingInstanceStatus.running)
unfolding lookup
foreign_refused_example =
    foreign_refused services Call.stop_call 7 1 1 6 (row_in TradingInstanceStatus.running)
      (system_with TradingInstanceStatus.running) refl refl

-- floats of whole numbers, which `str` prints with a zero after the point
abbrev whole_floats : Floats
whole_floats = record {
  to_float = λ d. pos_part d.coefficient / (10 ^ d.places);
  of_float = λ f. record { coefficient = pos (f * 10); places = 1 };
}

abbrev priced_process : TradingProcess
priced_process = record process {
  memory = record process.memory { current_price = some (whole 105); total_profit = whole 3 };
}
