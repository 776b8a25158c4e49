-- ===== src/Trading/Manager/Rescue.antt =====
-- One step of `recover`: what becomes of the status of the process that it looks at.
use utos.Prelude.{ℕ, ◌≡◌, refl, ◌∙◌, Bool, true, false, Option, none, some, Result, ok, err, arith}
use utos.Prelude.Dict.{number_key}
use utos.Trading.StateMachine.{TradingInstanceStatus}
use utos.Trading.Process.{TradingProcess}
use utos.Trading.Services.{
  Services, System, ProcessFault, TradingInstance, ErrorMessage, LockAnswer,
}
use utos.Trading.Manager.{validate_transition}
use utos.Trading.Manager.Lifecycle.{persist_state}
use utos.Trading.Manager.Recover.{
  fail_with, held_by_other, final_status, is_split, symbol_answer, settle, if_supported, if_healthy,
  if_single, recover_instance,
}
use utos.Trading.Manager.Build.{validate_symbol}
use utos.Trading.Manager.Quiet.{
  Quiet, step_rules, Quiet-set_state, Quiet-acquire_lock, Quiet-build_process,
  Quiet-validate_symbol, Quiet-pure,
}
use utos.Trading.Manager.Settled.{
  is_settled, Recovers, Recovers-bind, Recovers-then, Recovers-persist, Recovers-persist_then,
}

final_settled : (p : TradingInstanceStatus) → is_settled (final_status p) ≡ true
final_settled p = ground arith

module _ {E : Type 0} (sv : Services E) (worker_id : ℕ) (now : ℕ) where
  Quiet-held_by_other : (found : Option LockAnswer) → Quiet {E = E} (held_by_other worker_id found)
  Quiet-held_by_other none = record { at = λ s. refl }
  Quiet-held_by_other (some (LockAnswer.decoded v)) = record { at = λ s. refl }
  Quiet-held_by_other (some (LockAnswer.bytes v)) = record { at = λ s. refl }

  Quiet-is_split : (id : ℕ) (granted : Bool) → Quiet (is_split sv worker_id now id granted)
  unfolding is_split
  Quiet-is_split id true = Quiet-pure false
  Quiet-is_split id false = search (step_rules, Quiet-held_by_other)

  Quiet-persist_state : (p : TradingProcess) → Quiet (persist_state sv worker_id now p)
  unfolding persist_state
  Quiet-persist_state p = search (step_rules, Quiet-set_state)

  Quiet-validate_transition :
      (p q : TradingInstanceStatus) → Quiet {E = E} (validate_transition p q)
  unfolding validate_transition
  Quiet-validate_transition p q = search step_rules

  answer-Quiet :
      (x : Result ProcessFault (Unit {0}) × System E)
      → (symbol_answer sv worker_id now x).1.rows ≡ x.1.rows
  answer-Quiet (ok u, s) = refl
  answer-Quiet (err ProcessFault.symbol_not_supported, s) = refl
  answer-Quiet (err fault, s) = ground arith

  ruleset recover_rules = (
    step_rules, Quiet-acquire_lock, Quiet-build_process, Quiet-is_split, Quiet-persist_state,
    Quiet-validate_transition, Recovers-bind, Recovers-then, Recovers-persist,
    Recovers-persist_then, final_settled,
  )

  pub fail_with-Recovers :
      (id : ℕ) (row : TradingInstance) (message : ErrorMessage)
      → Recovers {E = E} id row (fail_with id message)
  unfolding fail_with
  fail_with-Recovers id row message = search recover_rules

  settle-Recovers :
      (id : ℕ) (row : TradingInstance) (previous : TradingInstanceStatus) (p : TradingProcess)
      → Recovers id row (settle sv worker_id now id previous p)
  unfolding settle
  settle-Recovers id row previous p = search recover_rules depth 12

  if_supported-Recovers :
      (b : Bool) (id : ℕ) (row : TradingInstance) (p : TradingProcess)
      → Recovers id row (if_supported sv worker_id now b id row p)
  if_supported-Recovers false id row p = fail_with-Recovers id row _
  if_supported-Recovers true id row p = settle-Recovers id row row.status p

  if_healthy-Recovers :
      (b : Bool) (id : ℕ) (row : TradingInstance) (p : TradingProcess)
      → Recovers id row (if_healthy sv worker_id now b id row p)
  if_healthy-Recovers false id row p = fail_with-Recovers id row _
  if_healthy-Recovers true id row p =
      Recovers-bind id row
        (λ s. symbol_answer sv worker_id now (validate_symbol sv p.adapter row.symbol s))
        (λ b. if_supported sv worker_id now b id row p)
        (record {
          at = λ s.
              answer-Quiet (validate_symbol sv p.adapter row.symbol s)
              ∙ (Quiet-validate_symbol sv p.adapter row.symbol).at s;
        })
        (λ b. if_supported-Recovers b id row p)

  if_single-Recovers :
      (b : Bool) (id : ℕ) (row : TradingInstance)
      → Recovers id row (if_single sv worker_id now b id row)
  if_single-Recovers true id row = fail_with-Recovers id row _
  if_single-Recovers false id row = search (recover_rules, if_healthy-Recovers)

  pub recover_instance-Recovers :
      (id : ℕ) (row : TradingInstance) → Recovers id row (recover_instance sv worker_id now id row)
  unfolding recover_instance
  recover_instance-Recovers id row = search (recover_rules, if_single-Recovers)
