-- ===== src/Recovery/Coordinator/Outcome.antt =====
-- The status that recover_instance of the coordinator leaves.
use utos.Prelude.{ℕ, ◌+◌, ◌≡◌, refl, ap, Bool, true, false, some, ◌++◌, ◌∙◌, sym, subst}
use utos.Prelude.Text.{Text}
use utos.Prelude.Dict.{Dict, insert, lookup, text_key, lookup-insert_self}
use utos.Recovery.Coordinator.{
  InstanceContext, RecoveryState, RecoveryStatus, connection_partial, process_failed, Sources,
  RecoveryCoordinator, RecoveryReport, issue_unless, state_for, first, completed_one, failed_one,
  recover_registered, recover_known, recover_instance, get_recovery_status, or_idle,
}

state_for_lem :
    (a b : Bool)
    → state_for (issue_unless a connection_partial ++ issue_unless b process_failed)
      ≡ RecoveryState.completed
state_for_lem true true = refl
state_for_lem true false = refl
state_for_lem false true = refl
state_for_lem false false = refl

status_found :
    (id : Text) (status : RecoveryStatus) (statuses : Dict Text RecoveryStatus)
    (c : RecoveryCoordinator)
    → c.statuses ≡ insert id status statuses
    → get_recovery_status id c ≡ status
unfolding get_recovery_status
status_found id status statuses c e =
    ap (λ o. or_idle o) (ap (lookup id) e ∙ lookup-insert_self id status statuses)

-- What a recovery makes of the status and the counters
pub record Completes (id : Text) (c c' : RecoveryCoordinator) (report : RecoveryReport)
    : Type 0 where
  pub completed : (get_recovery_status id c').state ≡ RecoveryState.completed
  pub told : (get_recovery_status id c').last_error ≡ first report.errors
  pub one_more : c'.recoveries_completed ≡ c.recoveries_completed + 1
  pub none_failed : c'.recoveries_failed ≡ c.recoveries_failed

recover_registered-Completes :
    (src : Sources) (started now : ℕ) (id : Text) (context : InstanceContext)
    (c : RecoveryCoordinator)
    → let r = recover_registered src started now id context c in Completes id c r.1 r.0
unfolding recover_registered
recover_registered-Completes src started now id context c =
    let r = recover_registered src started now id context c in
    let found = status_found id _ c.statuses r.1 refl in
    let lem = state_for_lem r.0.connection_ok r.0.state_ok in
    record {
      completed = ap (λ s. s.state) found ∙ lem;
      told = ap (λ s. s.last_error) found;
      one_more = ap (λ s. completed_one s c.recoveries_completed) lem;
      none_failed = ap (λ s. failed_one s c.recoveries_failed) lem;
    }

-- Whatever the sources answer, a recovery of a registered instance ends with its status completed
-- and is counted as completed, never as failed: there are at most two errors, and only more than
-- two are a failure. The status tells the first error of the report.
pub recover_instance-Completes :
    (src : Sources) (started now : ℕ) (id : Text) (context : InstanceContext)
    (c : RecoveryCoordinator)
    → lookup id c.instances ≡ some context
    → let r = recover_instance src started now id c in
      (report : RecoveryReport) × (r.0 ≡ some report) × Completes id c r.1 report
unfolding recover_instance
recover_instance-Completes src started now id context c e =
    let r = recover_registered src started now id context c in
    let same : recover_instance src started now id c ≡ (some r.0, r.1) =
      ap (λ o. recover_known src started now id o c) e in
    (
      r.0,
      ap (λ x. x.0) same,
      subst (λ x. Completes id c x r.0) (sym (ap (λ x. x.1) same))
          (recover_registered-Completes src started now id context c),
    )
