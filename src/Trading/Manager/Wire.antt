-- ===== src/Trading/Manager/Wire.antt =====
-- process_manager.py: `_wire_grid_and_market` and `_unwire_grid_and_market`. The grid engine is the
-- modelled one. The callback of a subscription is known by the id of its instance.
use utos.Prelude.{
  ℕ, Bool, true, false, ◌&&◌, Option, none, some, is_some, List, [], ◌∷◌, Result, ok, err, pure,
  gets, modify, catch, ◌>>=◌, ◌>>◌, length,
}
use utos.Prelude.Text.{Text, codes}
use utos.Prelude.Decimal.{Decimal, whole}
use utos.Prelude.Dict.{Dict, lookup, insert, number_key}
use utos.Grid.Calculator.{AveragingStep}
use utos.Grid.Engine
use utos.Grid.Engine.{GridEngine, EngineFault, Ids, activate_grid, pause_grid}
use utos.Grid.Engine.Setup.{initialize_grid, configure_circuit_breaker}
use utos.Trading.Process.{TradingProcess}
use utos.Trading.Services.{Services, System, Action, ProcessFault, TradingInstance, GridProfile}
use utos.Trading.Store.{attempt, call}
use utos.Trading.Averaging.{get_default_averaging_template}

abbrev pub grid_result : {A : Type 0} → Result EngineFault A → Result ProcessFault A
grid_result (ok a) = ok a
grid_result (err x) = err (ProcessFault.grid_fault x)

abbrev pub run_grid :
    {E A : Type 0}
    → Option GridEngine
    → Engine.Action A
    → System E
    → Result ProcessFault A × System E
run_grid none m s = (err (ProcessFault.outside_fault 0), s)
run_grid (some engine) m s =
    let (r, engine') = m engine in (grid_result r, record s { grid_engine = some engine' })

-- a call of the grid engine, which raises an AttributeError where there is none
unfoldable pub in_grid : {E A : Type 0} → Engine.Action A → Action E A
in_grid m s = run_grid s.grid_engine m s

abbrev pub subscribed : Option ℕ → TradingProcess → TradingProcess
subscribed sub_id p = record p { subscription_id = sub_id }

abbrev pub process_changed :
    Option TradingProcess
    → ℕ
    → (TradingProcess → TradingProcess)
    → Dict ℕ TradingProcess
    → Dict ℕ TradingProcess
process_changed none id f registry = registry
process_changed (some p) id f registry = insert id (f p) registry

-- a write to an attribute of a registered process
unfoldable pub write_process :
    {E : Type 0} → ℕ → (TradingProcess → TradingProcess) → Action E (Unit {0})
write_process id f =
    modify (λ s. record s { registry = process_changed (lookup id s.registry) id f s.registry })

-- the averaging rows of an instance, ordered by step, or the template where there are none
abbrev pub averaging_steps : Option (List AveragingStep) → List AveragingStep
averaging_steps none = get_default_averaging_template
averaging_steps (some []) = get_default_averaging_template
averaging_steps (some (step ∷ steps)) = step ∷ steps

module _ {E : Type 0} (sv : Services E) where
  -- BreakerScreeningStore.setup_breaker_for_instance
  unfoldable pub setup_breaker : ℕ → Text → Decimal → Text → Decimal → Action E (Unit {0})
  unfolding call in_grid
  setup_breaker id symbol min_continuation_rate exchange day_open_price = do
    cfg ← call (sv.breaker_config symbol min_continuation_rate exchange)
    in_grid (
        modify (
          configure_circuit_breaker id cfg.critical_threshold cfg.min_continuation_rate
            cfg.resume_mode cfg.recovery_pct cfg.widen_multiplier (some day_open_price)))

  abbrev pub breaker_for :
      ℕ → TradingInstance → Text → Decimal → Bool → Option Decimal → Action E (Unit {0})
  breaker_for id row exchange price true (some rate) =
      setup_breaker id row.symbol rate exchange price
  breaker_for id row exchange price true none = pure tt
  breaker_for id row exchange price false rate = pure tt

  -- the body of the `try` of `_wire_grid_and_market`
  unfoldable pub wire_steps :
      Ids → ℕ → TradingInstance → Text → Decimal → List AveragingStep → Action E (Unit {0})
  unfolding call in_grid write_process
  wire_steps ids id row exchange investment steps = do
    price ← call (sv.feed.get_price exchange row.symbol)
    in_grid (
        initialize_grid sv.divide id row.exchange_account_id row.symbol price (whole 0)
          (length steps) investment (some steps))
    in_grid (activate_grid sv.retry ids id price)
    breaker_for id row exchange price row.breaker_enabled row.continuation_rate
    sub_id ← call (sv.feed.subscribe exchange row.symbol (codes "ticker") id)
    write_process id (subscribed (some sub_id))

  abbrev pub wire_with : Ids → ℕ → TradingInstance → Text → Option GridProfile → Action E (Unit {0})
  wire_with ids id row exchange none = pure tt
  wire_with ids id row exchange (some profile) = do
    steps ← gets (λ s. averaging_steps (lookup id s.averaging))
    catch (wire_steps ids id row exchange profile.investment_per_grid steps) (λ e. pure tt)

  abbrev pub wire_if : Bool → Ids → ℕ → TradingInstance → Text → Action E (Unit {0})
  wire_if false ids id row exchange = pure tt
  wire_if true ids id row exchange = do
    profile ← gets (λ s. lookup row.grid_profile_id s.profiles)
    wire_with ids id row exchange profile

  -- `_wire_grid_and_market`, of a process that is registered
  unfoldable pub wire_grid_and_market : Ids → ℕ → TradingInstance → Text → Action E (Unit {0})
  unfolding wire_steps
  wire_grid_and_market ids id row exchange = do
    ready ← gets (λ s. is_some s.grid_engine && s.hub_ready)
    wire_if ready ids id row exchange

  abbrev pub leave_feed : Option ℕ → Bool → Action E (Unit {0})
  leave_feed none ready = pure tt
  leave_feed (some sub_id) false = pure tt
  leave_feed (some sub_id) true = do attempt (sv.feed.unsubscribe sub_id); pure tt

  abbrev pub pause_if : Bool → ℕ → Action E (Unit {0})
  pause_if false id = pure tt
  pause_if true id = catch (in_grid (pause_grid id)) (λ e. pure tt)

  -- `_unwire_grid_and_market`, of a process that is registered
  unfoldable pub unwire_grid_and_market : ℕ → Option ℕ → Action E (Unit {0})
  unfolding attempt in_grid write_process
  unwire_grid_and_market id subscription_id = do
    ready ← gets (λ s. s.hub_ready)
    leave_feed subscription_id ready
    write_process id (subscribed none)
    has_grid ← gets (λ s. is_some s.grid_engine)
    pause_if has_grid id
