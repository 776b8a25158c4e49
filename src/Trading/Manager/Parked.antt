-- ===== src/Trading/Manager/Parked.antt =====
-- What pause and resume do to the grid and to the subscription of a process.
use utos.Prelude.{
  ℕ, ◌==◌, ==_iff, ◌≡◌, refl, sym, ◌∙◌, ap, subst, Bool, true, false, Option, none, some, is_some,
  Result, ok, err, pure, gets, catch, ◌>>=◌, ◌>>◌, Bool-cases, inl, inr, if_true, if_false,
}
use utos.Prelude.Dict.{Dict, lookup, insert, number_key, lookup-insert}
use utos.Grid.Engine.{GridEngine, pause_grid}
use utos.Trading.StateMachine.{TradingInstanceStatus}
use utos.Trading.Process.{TradingProcess, set_status}
use utos.Trading.Services.{Services, System, ProcessFault, TradingInstance}
use utos.Trading.Store.{acquire_lock, release_lock, set_state}
use utos.Trading.Manager.{
  instance_for, get_instance, validate_ownership, validate_transition, register, get_process,
}
use utos.Trading.Manager.Build.{
  build_process, built, get_account, validate_account, authenticate_adapter,
}
use utos.Trading.Manager.Wire.{
  in_grid, run_grid, grid_result, write_process, process_changed, leave_feed, pause_if,
  unwire_grid_and_market, subscribed,
}
use utos.Trading.Manager.Lifecycle.{
  pause, resume, process_of, found_or_built, move_process, persist_state,
}
use utos.Trading.Manager.Keeping.{
  Statement, Keeps, Leads, Bare, keep_rules, Keeps-pure, Keeps-bind, Keeps-Bare, Leads-bind,
  Leads-then, Leads-seq, Bare-pure, Bare-bind,
}

-- The grid engine is `g`, and nothing is said of the registry.
abbrev engine_is : Option GridEngine → Statement
engine_is g g' registry = g' ≡ g

-- The grid engine is `g`, and the process, where it is registered, has no subscription.
abbrev parked : ℕ → Option GridEngine → Statement
parked id g g' registry =
    (g' ≡ g) × ((p : TradingProcess) → lookup id registry ≡ some p → p.subscription_id ≡ none)

abbrev pub paused_engine : ℕ → Option GridEngine → Option GridEngine
paused_engine id none = none
paused_engine id (some engine) = some (pause_grid id engine).1

parked-insert :
    (id j : ℕ) (g g' : Option GridEngine) (p : TradingProcess) (registry : Dict ℕ TradingProcess)
    → p.subscription_id ≡ none
    → parked id g g' registry
    → parked id g g' (insert j p registry)
parked-insert id j g g' p registry bare h = (
  h.0,
  λ q there. elim (Bool-cases (j == id)) [
    | inl same ↦
        let here : some p ≡ some q =
          sym (lookup-insert j id p registry ∙ if_true _ _ _ same) ∙ there in
        let first : p ≡ q = cc in
        subst (λ (r : TradingProcess). r.subscription_id ≡ none) first bare
    | inr other ↦ h.1 q (sym (lookup-insert j id p registry ∙ if_false _ _ _ other) ∙ there)
  ],
)

changed-parked :
    (id : ℕ) (g g' : Option GridEngine) (f : TradingProcess → TradingProcess)
    (found : Option TradingProcess) (registry : Dict ℕ TradingProcess)
    → lookup id registry ≡ found
    → ((p : TradingProcess) → (f p).subscription_id ≡ p.subscription_id)
    → parked id g g' registry
    → parked id g g' (process_changed found id f registry)
changed-parked id g g' f none registry e same h = h
changed-parked id g g' f (some p) registry e same h =
    parked-insert id id g g' (f p) registry (same p ∙ h.1 p e) h

unsubscribed-parked :
    (id : ℕ) (g g' : Option GridEngine) (found : Option TradingProcess)
    (registry : Dict ℕ TradingProcess)
    → lookup id registry ≡ found
    → g' ≡ g
    → parked id g g' (process_changed found id (subscribed none) registry)
unsubscribed-parked id g g' none registry e h = (h, λ p there. cc)
unsubscribed-parked id g g' (some p) registry e h = (
  h,
  λ q there.
      let here : some (subscribed none p) ≡ some q =
        sym
          (lookup-insert id id (subscribed none p) registry ∙ if_true _ _ _ ((==_iff id id).1 refl))
        ∙ there in
      let first : subscribed none p ≡ q = cc in
      subst (λ (r : TradingProcess). r.subscription_id ≡ none) first refl,
)

module _ {E : Type 0} (sv : Services E) (worker_id now : ℕ) where
  Keeps-instance_for :
      (P : Statement) (id user_id : ℕ) (t : TradingInstanceStatus)
      → Keeps {E = E} P (instance_for id user_id t)
  unfolding instance_for get_instance validate_ownership validate_transition
  Keeps-instance_for P id user_id t = search keep_rules depth 12

  Keeps-build_process :
      (P : Statement) (id : ℕ) (row : TradingInstance)
      → Keeps P (build_process sv id row worker_id now)
  unfolding build_process get_account validate_account authenticate_adapter
  Keeps-build_process P id row = search keep_rules depth 14

  Keeps-release_lock : (P : Statement) (id : ℕ) → Keeps P (release_lock sv id)
  unfolding release_lock
  Keeps-release_lock P id = search keep_rules

  Keeps-acquire_lock : (P : Statement) (id : ℕ) → Keeps P (acquire_lock sv id worker_id now)
  unfolding acquire_lock
  Keeps-acquire_lock P id = search keep_rules

  Keeps-persist_state :
      (P : Statement) (p : TradingProcess) → Keeps P (persist_state sv worker_id now p)
  unfolding persist_state set_state
  Keeps-persist_state P p = search keep_rules

module _ {E : Type 0} where
  Keeps-register-parked :
      (id : ℕ) (g : Option GridEngine) (p : TradingProcess)
      → p.subscription_id ≡ none
      → Keeps {E = E} (parked id g) (register p)
  unfolding register
  Keeps-register-parked id g p bare = record {
    at = λ s h. parked-insert id p.instance_id g s.grid_engine p s.registry bare h;
  }

  Keeps-register_engine :
      (g : Option GridEngine) (p : TradingProcess) → Keeps {E = E} (engine_is g) (register p)
  unfolding register
  Keeps-register_engine g p = record { at = λ s h. h }

  Keeps-write-parked :
      (id : ℕ) (g : Option GridEngine) (status : TradingInstanceStatus) (now : ℕ)
      → Keeps {E = E} (parked id g) (write_process id (set_status status now))
  unfolding write_process set_status
  Keeps-write-parked id g status now = record {
    at = λ s h.
        changed-parked id g s.grid_engine (set_status status now) (lookup id s.registry) s.registry
          refl (λ p. refl) h;
  }

module _ {E : Type 0} (sv : Services E) (worker_id now : ℕ) where
  Bare-build_process :
      (id : ℕ) (row : TradingInstance) → Bare (build_process sv id row worker_id now)
  unfolding build_process
  Bare-build_process id row =
      Bare-bind (get_account row.exchange_account_id)
        (λ account. validate_account sv account >>= λ adapter.
          authenticate_adapter sv adapter account >> pure (built sv id row worker_id now adapter))
        λ account.
          Bare-bind (validate_account sv account)
            (λ adapter.
              authenticate_adapter sv adapter account
              >> pure (built sv id row worker_id now adapter))
            λ adapter.
              Bare-bind (authenticate_adapter sv adapter account)
                (λ _. pure (built sv id row worker_id now adapter))
                (λ _. Bare-pure (built sv id row worker_id now adapter) refl)

  Keeps-found-parked :
      (id i : ℕ) (g : Option GridEngine) (row : TradingInstance) (found : Option TradingProcess)
      → Keeps (parked i g) (found_or_built sv worker_id now id row found)
  Keeps-found-parked id i g row (some p) = Keeps-pure (parked i g) p
  Keeps-found-parked id i g row none =
      Keeps-Bare (parked i g) (build_process sv id row worker_id now) (λ p. register p >> pure p)
        (Keeps-build_process sv worker_id now (parked i g) id row) (Bare-build_process id row)
        (λ p bare.
          Keeps-bind (parked i g) (register p) (λ _. pure p) (Keeps-register-parked i g p bare)
            (λ _. Keeps-pure (parked i g) p))

  Keeps-process_of-parked :
      (id i : ℕ) (g : Option GridEngine) (row : TradingInstance)
      → Keeps (parked i g) (process_of sv worker_id now id row)
  unfolding process_of get_process
  Keeps-process_of-parked id i g row = search (keep_rules, Keeps-found-parked)

  Keeps-found_engine :
      (id : ℕ) (g : Option GridEngine) (row : TradingInstance) (found : Option TradingProcess)
      → Keeps (engine_is g) (found_or_built sv worker_id now id row found)
  Keeps-found_engine id g row none = search (keep_rules, Keeps-build_process, Keeps-register_engine)
  Keeps-found_engine id g row (some p) = Keeps-pure (engine_is g) p

  Keeps-process_of_engine :
      (id : ℕ) (g : Option GridEngine) (row : TradingInstance)
      → Keeps (engine_is g) (process_of sv worker_id now id row)
  unfolding process_of get_process
  Keeps-process_of_engine id g row = search (keep_rules, Keeps-found_engine)

  Keeps-move_process :
      (id : ℕ) (g : Option GridEngine) (status : TradingInstanceStatus) (p : TradingProcess)
      → Keeps (parked id g) (move_process sv worker_id now status id p)
  unfolding move_process
  Keeps-move_process id g status p =
      search (keep_rules, Keeps-persist_state, Keeps-write-parked) depth 12

  Keeps-resume :
      (id user_id : ℕ) (g : Option GridEngine)
      → Keeps (parked id g) (resume sv worker_id now id user_id)
  unfolding resume
  Keeps-resume id user_id g =
      search
        (
          keep_rules, Keeps-instance_for, Keeps-release_lock, Keeps-acquire_lock,
          Keeps-process_of-parked, Keeps-move_process,
        )
        depth 14

  Keeps-leave_feed :
      (P : Statement) (sub_id : Option ℕ) (b : Bool) → Keeps P (leave_feed sv sub_id b)
  Keeps-leave_feed P none b = Keeps-pure P tt
  Keeps-leave_feed P (some sub_id) false = Keeps-pure P tt
  Keeps-leave_feed P (some sub_id) true = search keep_rules

  -- the subscription goes, and the engine stays
  Leads-write :
      (id : ℕ) (g : Option GridEngine)
      → Leads {E = E} (engine_is g) (parked id g) (write_process id (subscribed none))
  unfolding write_process
  Leads-write id g = record {
    at = λ s a h e. unsubscribed-parked id g s.grid_engine (lookup id s.registry) s.registry refl h;
  }

  caught :
      (r : Result ProcessFault (Unit {0})) (s t : System E)
      → (catch (λ _. (r, t)) (λ e. pure tt) s).1 ≡ t
  caught (ok u) s t = refl
  caught (err x) s t = refl

  pause_engine :
      (id : ℕ) (g : Option GridEngine) (engine : Option GridEngine) (s : System E)
      → s.grid_engine ≡ engine
      → parked id g s.grid_engine s.registry
      → parked id
          (paused_engine id g)
          (pause_if sv (is_some engine) id s).1.grid_engine
          (pause_if sv (is_some engine) id s).1.registry
  unfolding in_grid
  pause_engine id g none s e h = (e ∙ ap (paused_engine id) (sym e ∙ h.0), h.1)
  pause_engine id g (some engine) s e h =
      let after : System E = record s { grid_engine = some (pause_grid id engine).1 } in
      let step : in_grid (pause_grid id) s ≡ (grid_result (pause_grid id engine).0, after) =
        ap (λ o. run_grid o (pause_grid id) s) e in
      subst (λ (t : System E). parked id (paused_engine id g) t.grid_engine t.registry)
        (sym (
          ap (λ x. (catch (λ _. x) (λ e. pure tt) s).1) step
          ∙ caught (grid_result (pause_grid id engine).0) s after))
        (ap (paused_engine id) (sym e ∙ h.0), h.1)

  Leads-pause_if :
      (id : ℕ) (g : Option GridEngine)
      → Leads
          (parked id g)
          (parked id (paused_engine id g))
          (λ s. pause_if sv (is_some s.grid_engine) id s)
  Leads-pause_if id g = record { at = λ s a h e. pause_engine id g s.grid_engine s refl h }

  tail-Leads :
      (id : ℕ) (g : Option GridEngine)
      → Leads (engine_is g) (parked id (paused_engine id g)) (
          write_process id (subscribed none)
          >> (gets (λ s. is_some s.grid_engine) >>= λ has_grid. pause_if sv has_grid id))
  tail-Leads id g =
      Leads-seq (engine_is g) (parked id g) (parked id (paused_engine id g))
        (write_process id (subscribed none))
        (λ _. gets (λ s. is_some s.grid_engine) >>= λ has_grid. pause_if sv has_grid id)
        (Leads-write id g) (λ _. Leads-pause_if id g)

  Leads-unwire :
      (id : ℕ) (g : Option GridEngine) (sub_id : Option ℕ)
      → Leads (engine_is g) (parked id (paused_engine id g)) (unwire_grid_and_market sv id sub_id)
  unfolding unwire_grid_and_market
  Leads-unwire id g sub_id = search (keep_rules, Leads-bind, Keeps-leave_feed, tail-Leads)

  Leads-instance_pause :
      (id user_id : ℕ) (g : Option GridEngine)
      → Leads (engine_is g) (parked id (paused_engine id g)) (pause sv worker_id now id user_id)
  unfolding pause
  Leads-instance_pause id user_id g =
      search
        (
          keep_rules, Leads-bind, Leads-then, Leads-unwire, Keeps-instance_for,
          Keeps-process_of_engine, Keeps-move_process, Keeps-release_lock,
        )
        depth 14

-- After a pause that returned and a resume, whatever it gives, the grid engine is the one in
-- which the grid was paused, and the process has no subscription to prices.
pub pause_then_resume :
    {E : Type 0} (sv : Services E) (worker_id now id user_id worker_id' now' : ℕ) (s : System E)
    → (pause sv worker_id now id user_id s).0 ≡ ok tt
    → let s' = (resume sv worker_id' now' id user_id (pause sv worker_id now id user_id s).1).1 in
      (s'.grid_engine ≡ paused_engine id s.grid_engine)
      × ((p : TradingProcess) → lookup id s'.registry ≡ some p → p.subscription_id ≡ none)
pause_then_resume sv worker_id now id user_id worker_id' now' s done =
    (Keeps-resume sv worker_id' now' id user_id (paused_engine id s.grid_engine)).at
      (pause sv worker_id now id user_id s).1
      ((Leads-instance_pause sv worker_id now id user_id s.grid_engine).at s tt refl done)
