-- ===== src/Trading/Manager/Quiet.antt =====
-- The steps of process_manager.py that write to no row.
use utos.Prelude.{
  ℕ, ◌≡◌, refl, ◌∙◌, Bool, true, false, Option, none, some, List, Result, ok, err, pure, gets, lift,
  or_raise, catch, ◌>>=◌, if_both,
}
use utos.Prelude.Text.{Text}
use utos.Prelude.Decimal.{Decimal}
use utos.Prelude.Dict.{number_key}
use utos.Grid.Engine
use utos.Grid.Engine.{GridEngine, Ids}
use utos.Grid.Calculator.{AveragingStep}
use utos.Trading.Process.{TradingProcess}
use utos.Trading.Services.{
  Services, System, Action, ProcessFault, TradingInstance, ExchangeAccount, GridProfile,
  StateDocument,
}
use utos.Trading.Store.{attempt, call, with_client, acquire_lock, release_lock, set_state}
use utos.Trading.Manager.{require, check_duplicate_running, get_process, register, unregister}
use utos.Trading.Manager.Build.{
  get_account, validate_account, validate_symbol, authenticate_adapter, build_process,
}
use utos.Trading.Manager.Wire.{
  in_grid, run_grid, write_process, setup_breaker, breaker_for, wire_steps, wire_with, wire_if,
  wire_grid_and_market, leave_feed, pause_if, unwire_grid_and_market,
}

-- the step writes to no row
pub record Quiet {E A : Type 0} (m : Action E A) : Type 0 where
  pub at : (s : System E) → (m s).1.rows ≡ s.rows

module _ {E : Type 0} where
  pub Quiet-pure : {A : Type 0} (a : A) → Quiet {E = E} (pure a)
  Quiet-pure a = record { at = λ s. refl }

  pub Quiet-gets : {A : Type 0} (f : System E → A) → Quiet (gets f)
  Quiet-gets f = record { at = λ s. refl }

  pub Quiet-lift : {A : Type 0} (r : Result ProcessFault A) → Quiet {E = E} (lift r)
  Quiet-lift r = record { at = λ s. refl }

  pub Quiet-or_raise : {A : Type 0} (o : Option A) (x : ProcessFault) → Quiet {E = E} (or_raise o x)
  Quiet-or_raise none x = record { at = λ s. refl }
  Quiet-or_raise (some a) x = record { at = λ s. refl }

  pub Quiet-require : (b : Bool) (x : ProcessFault) → Quiet {E = E} (require b x)
  Quiet-require true x = record { at = λ s. refl }
  Quiet-require false x = record { at = λ s. refl }

  pub Quiet-attempt : {A : Type 0} (f : E → Result ℕ A × E) → Quiet (attempt f)
  unfolding attempt
  Quiet-attempt f = record { at = λ s. refl }

  pub Quiet-call : {A : Type 0} (f : E → Result ℕ A × E) → Quiet (call f)
  unfolding call
  Quiet-call f = record { at = λ s. refl }

  rest-Quiet :
      {A B : Type 0} (x : Result ProcessFault A × System E) (f : A → Action E B) (s : System E)
      → ((a : A) → Quiet (f a))
      → (((λ _. x) >>= f) s).1.rows ≡ x.1.rows
  rest-Quiet (ok a, t) f s k = (k a).at t
  rest-Quiet (err e, t) f s k = refl

  pub Quiet-bind :
      {A B : Type 0} (m : Action E A) (f : A → Action E B)
      → Quiet m
      → ((a : A) → Quiet (f a))
      → Quiet (m >>= f)
  Quiet-bind m f q k = record { at = λ s. rest-Quiet (m s) f s k ∙ q.at s }

  handled-Quiet :
      {A : Type 0} (x : Result ProcessFault A × System E) (h : ProcessFault → Action E A)
      (s : System E)
      → ((e : ProcessFault) → Quiet (h e))
      → (catch (λ _. x) h s).1.rows ≡ x.1.rows
  handled-Quiet (ok a, t) h s k = refl
  handled-Quiet (err e, t) h s k = (k e).at t

  pub Quiet-catch :
      {A : Type 0} (m : Action E A) (h : ProcessFault → Action E A)
      → Quiet m
      → ((e : ProcessFault) → Quiet (h e))
      → Quiet (catch m h)
  Quiet-catch m h q k = record { at = λ s. handled-Quiet (m s) h s k ∙ q.at s }

  client-Quiet :
      {A : Type 0} (a : A) (m : Action E A) (s : System E)
      → Quiet m
      → (with_client a m s).1.rows ≡ s.rows
  client-Quiet {A} a m s q =
      if_both (λ (x : Result ProcessFault A × System E). x.1.rows ≡ s.rows) s.redis_ready (m s)
        (ok a, s) (q.at s) refl

  pub Quiet-with_client : {A : Type 0} (a : A) (m : Action E A) → Quiet m → Quiet (with_client a m)
  Quiet-with_client a m q = record { at = λ s. client-Quiet a m s q }

  pub Quiet-register : (p : TradingProcess) → Quiet {E = E} (register p)
  unfolding register
  Quiet-register p = record { at = λ s. refl }

  pub Quiet-unregister : (id : ℕ) → Quiet {E = E} (unregister id)
  unfolding unregister
  Quiet-unregister id = record { at = λ s. refl }

  pub Quiet-write_process :
      (id : ℕ) (f : TradingProcess → TradingProcess) → Quiet {E = E} (write_process id f)
  unfolding write_process
  Quiet-write_process id f = record { at = λ s. refl }

  pub Quiet-get_process : (id : ℕ) → Quiet {E = E} (get_process id)
  unfolding get_process
  Quiet-get_process id = record { at = λ s. refl }

  run-Quiet :
      {A : Type 0} (engine : Option GridEngine) (m : Engine.Action A) (s : System E)
      → (run_grid engine m s).1.rows ≡ s.rows
  run-Quiet none m s = refl
  run-Quiet (some engine) m s = refl

  pub Quiet-in_grid : {A : Type 0} (m : Engine.Action A) → Quiet {E = E} (in_grid m)
  unfolding in_grid
  Quiet-in_grid m = record { at = λ s. run-Quiet s.grid_engine m s }

pub ruleset step_rules = (
  Quiet-pure, Quiet-gets, Quiet-lift, Quiet-or_raise, Quiet-require, Quiet-attempt, Quiet-call,
  Quiet-bind, Quiet-catch, Quiet-with_client, Quiet-register, Quiet-unregister, Quiet-write_process,
  Quiet-get_process, Quiet-in_grid,
)

module _ {E : Type 0} where
  pub Quiet-get_account : (id : ℕ) → Quiet {E = E} (get_account id)
  unfolding get_account
  Quiet-get_account id = search step_rules

  pub Quiet-check_duplicate_running :
      (id : ℕ) (row : TradingInstance) → Quiet {E = E} (check_duplicate_running id row)
  unfolding check_duplicate_running
  Quiet-check_duplicate_running id row = search step_rules

module _ {E : Type 0} (sv : Services E) where
  pub Quiet-set_state : (id : ℕ) (d : StateDocument) → Quiet (set_state sv id d)
  unfolding set_state
  Quiet-set_state id d = search step_rules

  pub Quiet-acquire_lock : (id worker now : ℕ) → Quiet (acquire_lock sv id worker now)
  unfolding acquire_lock
  Quiet-acquire_lock id worker now = search step_rules

  pub Quiet-release_lock : (id : ℕ) → Quiet (release_lock sv id)
  unfolding release_lock
  Quiet-release_lock id = search step_rules

  pub Quiet-validate_account : (account : ExchangeAccount) → Quiet (validate_account sv account)
  unfolding validate_account
  Quiet-validate_account account = search step_rules

  pub Quiet-authenticate_adapter :
      (adapter : Text) (account : ExchangeAccount) → Quiet (authenticate_adapter sv adapter account)
  unfolding authenticate_adapter
  Quiet-authenticate_adapter adapter account = search step_rules

  pub Quiet-validate_symbol : (adapter symbol : Text) → Quiet (validate_symbol sv adapter symbol)
  unfolding validate_symbol
  Quiet-validate_symbol adapter symbol = search step_rules

  pub Quiet-build_process :
      (id : ℕ) (row : TradingInstance) (worker now : ℕ) → Quiet (build_process sv id row worker now)
  unfolding build_process
  Quiet-build_process id row worker now =
      search (step_rules, Quiet-get_account, Quiet-validate_account, Quiet-authenticate_adapter)

  Quiet-setup_breaker :
      (id : ℕ) (symbol : Text) (rate : Decimal) (exchange : Text) (price : Decimal)
      → Quiet (setup_breaker sv id symbol rate exchange price)
  unfolding setup_breaker
  Quiet-setup_breaker id symbol rate exchange price = search step_rules

  Quiet-breaker_for :
      (id : ℕ) (row : TradingInstance) (exchange : Text) (price : Decimal) (b : Bool)
      (rate : Option Decimal)
      → Quiet (breaker_for sv id row exchange price b rate)
  Quiet-breaker_for id row exchange price true (some rate) =
      Quiet-setup_breaker id row.symbol rate exchange price
  Quiet-breaker_for id row exchange price true none = Quiet-pure tt
  Quiet-breaker_for id row exchange price false rate = Quiet-pure tt

  Quiet-wire_steps :
      (ids : Ids) (id : ℕ) (row : TradingInstance) (exchange : Text) (investment : Decimal)
      (steps : List AveragingStep)
      → Quiet (wire_steps sv ids id row exchange investment steps)
  unfolding wire_steps
  Quiet-wire_steps ids id row exchange investment steps =
      search (step_rules, Quiet-breaker_for) depth 14

  Quiet-wire_with :
      (ids : Ids) (id : ℕ) (row : TradingInstance) (exchange : Text) (profile : Option GridProfile)
      → Quiet (wire_with sv ids id row exchange profile)
  Quiet-wire_with ids id row exchange none = Quiet-pure tt
  Quiet-wire_with ids id row exchange (some profile) = search (step_rules, Quiet-wire_steps)

  Quiet-wire_if :
      (b : Bool) (ids : Ids) (id : ℕ) (row : TradingInstance) (exchange : Text)
      → Quiet (wire_if sv b ids id row exchange)
  Quiet-wire_if false ids id row exchange = Quiet-pure tt
  Quiet-wire_if true ids id row exchange = search (step_rules, Quiet-wire_with)

  pub Quiet-wire_grid_and_market :
      (ids : Ids) (id : ℕ) (row : TradingInstance) (exchange : Text)
      → Quiet (wire_grid_and_market sv ids id row exchange)
  unfolding wire_grid_and_market
  Quiet-wire_grid_and_market ids id row exchange = search (step_rules, Quiet-wire_if)

  Quiet-leave_feed : (sub_id : Option ℕ) (b : Bool) → Quiet (leave_feed sv sub_id b)
  Quiet-leave_feed none b = Quiet-pure tt
  Quiet-leave_feed (some sub_id) false = Quiet-pure tt
  Quiet-leave_feed (some sub_id) true = search step_rules

  Quiet-pause_if : (b : Bool) (id : ℕ) → Quiet (pause_if sv b id)
  Quiet-pause_if false id = Quiet-pure tt
  Quiet-pause_if true id = search step_rules

  pub Quiet-unwire_grid_and_market :
      (id : ℕ) (sub_id : Option ℕ) → Quiet (unwire_grid_and_market sv id sub_id)
  unfolding unwire_grid_and_market
  Quiet-unwire_grid_and_market id sub_id = search (step_rules, Quiet-leave_feed, Quiet-pause_if)
