-- ===== src/Trading/Manager/Build.antt =====
-- process_manager.py: the checks on an account and the process that is built from a row.
use utos.Prelude.{ℕ, Option, none, some, List, [], ◌∷◌, pure, gets, or_raise, ◌>>=◌, ◌>>◌}
use utos.Prelude.Text.{Text, upper}
use utos.Prelude.Dict.{lookup, number_key}
use utos.Trading.Process.{ProcessMemory, MemoryDict, TradingProcess, from_dict}
use utos.Trading.Services.{
  Services, Action, ProcessFault, TradingInstance, ExchangeAccount, is_registered, text_member,
}
use utos.Trading.Store.{call}
use utos.Trading.Manager.{require, fresh_memory}

-- account_repo.get_by_id and the raise on None
unfoldable pub get_account : {E : Type 0} → ℕ → Action E ExchangeAccount
get_account id = do
  found ← gets (λ s. lookup id s.accounts)
  or_raise found ProcessFault.account_not_found

abbrev pub upper_all : List Text → List Text
upper_all [] = []
upper_all (t ∷ ts) = upper t ∷ upper_all ts

module _ {E : Type 0} (sv : Services E) where
  -- `_validate_account`, whose result is the adapter with the name of the exchange
  unfoldable pub validate_account : ExchangeAccount → Action E Text
  unfolding is_registered
  validate_account account = do
    require account.is_active ProcessFault.account_inactive
    known ← gets (λ s. is_registered account.exchange_name s.adapters)
    require known ProcessFault.no_adapter
    pure account.exchange_name

  -- `_validate_symbol`
  unfoldable pub validate_symbol : Text → Text → Action E (Unit {0})
  unfolding call upper
  validate_symbol adapter symbol = do
    symbols ← call (sv.adapter.supported_symbols adapter)
    require (text_member (upper symbol) (upper_all symbols)) ProcessFault.symbol_not_supported

  -- `_authenticate_adapter`
  unfoldable pub authenticate_adapter : Text → ExchangeAccount → Action E (Unit {0})
  unfolding call
  authenticate_adapter adapter account = do
    api_key ← or_raise (sv.decrypt account.api_key_encrypted) ProcessFault.decrypt_failed
    api_secret ← or_raise (sv.decrypt account.api_secret_encrypted) ProcessFault.decrypt_failed
    call (sv.adapter.initialize adapter account.is_testnet)
    accepted ← call (sv.adapter.authenticate adapter (api_key, api_secret))
    require accepted ProcessFault.authentication_failed

  abbrev pub memory_of : ℕ → TradingInstance → ℕ → Option MemoryDict → ProcessMemory
  memory_of id row now none = fresh_memory id row.status now
  memory_of id row now (some d) = from_dict sv.floats d

  abbrev pub built : ℕ → TradingInstance → ℕ → ℕ → Text → TradingProcess
  built id row worker_id now adapter = record {
    instance_id = id;
    user_id = row.user_id;
    exchange_account_id = row.exchange_account_id;
    strategy_id = row.strategy_id;
    symbol = row.symbol;
    exchange_name = adapter;
    status = row.status;
    adapter = adapter;
    memory = memory_of id row now row.memory_snapshot;
    worker_id = worker_id;
    lock_value = (worker_id, now);
    subscription_id = none;
  }

  -- `_build_process_from_instance`
  unfoldable pub build_process : ℕ → TradingInstance → ℕ → ℕ → Action E TradingProcess
  unfolding get_account validate_account authenticate_adapter
  build_process id row worker_id now = do
    account ← get_account row.exchange_account_id
    adapter ← validate_account account
    authenticate_adapter adapter account
    pure (built id row worker_id now adapter)
