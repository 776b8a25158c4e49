-- ===== src/Trading/Manager/Locks.antt =====
-- The lock of a process in Redis, between workers.
use utos.Prelude.{
  ℕ, ◌==◌, ◌≡◌, refl, ◌∙◌, ap, Bool, true, false, Option, none, some, Result, ok, err, if_true,
  ◌>>=◌, ◌>>◌, bind_ok, pure,
}
use utos.Prelude.Dict.{lookup, number_key, lookup-insert_self}
use utos.Grid.Engine.{Ids}
use utos.Trading.StateMachine.{TradingInstanceStatus, validate_process_transition}
use utos.Trading.Process.{TradingProcess, set_status, snapshot, to_dict}
use utos.Trading.Services.{
  Services, RedisClient, System, Action, ProcessFault, TradingInstance, StateDocument,
}
use utos.Trading.Store.{
  attempt, acquire_lock, release_lock, answer_or, lock_ttl, set_state, succeeded,
}
use utos.Trading.Manager.{
  instance_for, check_duplicate_running, has_running_twin, require, Changes, no_changes,
  row_changed, with_changes, persist_instance, get_process,
}
use utos.Trading.Manager.Lifecycle.{start, resume, process_of, move_process, persist_state}
use utos.Trading.Manager.Wire.{write_process, process_changed}
use utos.Trading.Manager.Progress.{instance_for-passed}
use utos.Trading.Manager.Yields.{Yields, yield_rules}

-- What Redis documents of SET NX, DEL and SET on other keys, for a client that reaches it: `holder`
-- is the value of the key of the lock.
pub record LockLaws {E : Type 0} (redis : RedisClient E) : Type 0 where
  pub holder : E → ℕ → Option (ℕ × ℕ)
  pub nx_held :
      (id : ℕ) (v w : ℕ × ℕ) (ttl : ℕ) (e : E)
      → holder e id ≡ some w
      → redis.set_lock_nx id v ttl e ≡ (ok false, e)
  pub nx_free :
      (id : ℕ) (v : ℕ × ℕ) (ttl : ℕ) (e : E)
      → holder e id ≡ none
      → ((redis.set_lock_nx id v ttl e).0 ≡ ok true)
        × (holder (redis.set_lock_nx id v ttl e).1 id ≡ some v)
  pub deleted : (id : ℕ) (e : E) → holder (redis.delete_lock id e).1 id ≡ none
  pub state_kept :
      (id : ℕ) (d : StateDocument) (e : E) (j : ℕ)
      → holder (redis.set_state id d e).1 j ≡ holder e j

module _ {E : Type 0} (sv : Services E) (laws : LockLaws sv.redis) (worker_id now : ℕ) where
  acquire_held :
      (id : ℕ) (w : ℕ × ℕ) (s : System E)
      → s.redis_ready ≡ true
      → laws.holder s.outside id ≡ some w
      → Yields (acquire_lock sv id worker_id now) s (ok false, s)
  unfolding acquire_lock attempt
  acquire_held id w s ready held = record {
    at =
        if_true _ _ _ ready
        ∙ ap (λ (r : Result ℕ Bool × E). (ok (answer_or true r.0), record s { outside = r.1 }))
            (laws.nx_held id (worker_id, now) w lock_ttl s.outside held);
  }

  no_twin :
      (id : ℕ) (row : TradingInstance) (s : System E)
      → has_running_twin id row s.rows ≡ false
      → Yields (check_duplicate_running id row) s (ok tt, s)
  unfolding check_duplicate_running
  no_twin id row s alone = record { at = rw alone }

  -- While any worker holds the lock of a process, start raises: nothing is registered, placed or
  -- written, and the lock stays with its holder.
  pub start_excluded :
      (ids : Ids) (id user_id : ℕ) (row : TradingInstance) (w : ℕ × ℕ) (s : System E)
      → lookup id s.rows ≡ some row
      → (row.user_id == user_id) ≡ true
      → validate_process_transition row.status TradingInstanceStatus.running ≡ ok tt
      → has_running_twin id row s.rows ≡ false
      → s.redis_ready ≡ true
      → laws.holder s.outside id ≡ some w
      → start sv worker_id now ids id user_id s ≡ (err ProcessFault.locked, s)
  unfolding start
  start_excluded ids id user_id row w s found own valid alone ready held =
      let known : Yields (instance_for id user_id TradingInstanceStatus.running) s (ok row, s) =
        record { at = instance_for-passed id user_id _ s row found own valid } in
      let single = no_twin id row s alone in
      let refused = acquire_held id w s ready held in
      let run : Yields (start sv worker_id now ids id user_id) s (err ProcessFault.locked, s) =
        search (yield_rules, known, single, refused) in
      run.at

  -- what the steps of `resume` leave
  abbrev freed : ℕ → System E → System E
  freed id s = record s { outside = (sv.redis.delete_lock id s.outside).1 }

  abbrev taken : ℕ → System E → System E
  taken id s = record s {
    outside = (sv.redis.set_lock_nx id (worker_id, now) lock_ttl s.outside).1;
  }

  abbrev written : ℕ → (TradingProcess → TradingProcess) → System E → System E
  written id f s = record s { registry = process_changed (lookup id s.registry) id f s.registry }

  abbrev stored : ℕ → Changes → System E → System E
  stored id c s = record s { rows = row_changed (lookup id s.rows) id c s.rows }

  abbrev documented : TradingProcess → System E → System E
  documented p s = record s {
    outside =
        (sv.redis.set_state p.instance_id (StateDocument.of_process (snapshot sv.floats p))
          s.outside).1;
  }

  release_frees :
      (id : ℕ) (s : System E)
      → s.redis_ready ≡ true
      → Yields (release_lock sv id) s (ok true, freed id s)
  unfolding release_lock attempt
  release_frees id s ready = record { at = if_true _ _ _ ready }

  acquire_free :
      (id : ℕ) (s : System E)
      → s.redis_ready ≡ true
      → laws.holder s.outside id ≡ none
      → Yields (acquire_lock sv id worker_id now) s (ok true, taken id s)
  unfolding acquire_lock attempt
  acquire_free id s ready free = record {
    at =
        if_true _ _ _ ready
        ∙ ap
            (λ (r : Result ℕ Bool).
              let x : Result ProcessFault Bool × System E = (ok (answer_or true r), taken id s) in
              x)
            (laws.nx_free id (worker_id, now) lock_ttl s.outside free).0;
  }

  registered :
      (id : ℕ) (row : TradingInstance) (p : TradingProcess) (s : System E)
      → lookup id s.registry ≡ some p
      → Yields (process_of sv worker_id now id row) s (ok p, s)
  unfolding process_of get_process
  registered id row p s there = record { at = rw there }

  writes :
      (id : ℕ) (f : TradingProcess → TradingProcess) (s : System E)
      → Yields (write_process id f) s (ok tt, written id f s)
  unfolding write_process
  writes id f s = record { at = refl }

  stores :
      (id : ℕ) (c : Changes) (s : System E)
      → Yields (persist_instance id c) s (ok tt, stored id c s)
  unfolding persist_instance
  stores id c s = record { at = refl }

  documents :
      (p : TradingProcess) (s : System E)
      → s.redis_ready ≡ true
      → Yields (persist_state sv worker_id now p) s (
        ok (
            succeeded
              (sv.redis.set_state p.instance_id
                (StateDocument.of_process (snapshot sv.floats p))
                s.outside).0),
        documented p s,
      )
  unfolding persist_state set_state attempt
  documents p s ready = record { at = if_true _ _ _ ready }

  abbrev change_to : TradingInstanceStatus → TradingProcess → Changes
  change_to status p = record no_changes {
    status = some status;
    memory_snapshot = some (to_dict sv.floats (set_status status now p).memory);
  }

  abbrev moved : TradingInstanceStatus → ℕ → TradingProcess → System E → System E
  moved status id p s =
      documented (set_status status now p)
        (stored id (change_to status p) (written id (set_status status now) s))

  moves :
      (status : TradingInstanceStatus) (id : ℕ) (p : TradingProcess) (s : System E)
      → s.redis_ready ≡ true
      → Yields (move_process sv worker_id now status id p) s (ok tt, moved status id p s)
  unfolding move_process write_process persist_instance
  moves status id p s ready =
      let s3 = stored id (change_to status p) (written id (set_status status now) s) in
      record {
        at =
            bind_ok (persist_state sv worker_id now (set_status status now p)) (λ _. pure tt) s3
              (documented (set_status status now p) s3) _
              ((documents (set_status status now p) s3 ready).at);
      }

  stored_row :
      (id : ℕ) (c : Changes) (row : TradingInstance) (s : System E)
      → lookup id s.rows ≡ some row
      → lookup id (stored id c s).rows ≡ some (with_changes c row)
  stored_row id c row s found =
      ap (λ (o : Option TradingInstance). lookup id (row_changed o id c s.rows)) found
      ∙ lookup-insert_self id (with_changes c row) s.rows

  -- A process whose worker has it registered is resumed whoever holds its lock: resume frees the
  -- lock first, and ends with the lock in the hand of its own worker and the row running.
  pub resume_takes :
      (id user_id : ℕ) (row : TradingInstance) (p : TradingProcess) (s : System E)
      → lookup id s.rows ≡ some row
      → (row.user_id == user_id) ≡ true
      → validate_process_transition row.status TradingInstanceStatus.running ≡ ok tt
      → lookup id s.registry ≡ some p
      → s.redis_ready ≡ true
      → (s' : System E) × (resume sv worker_id now id user_id s ≡ (ok tt, s'))
        × (laws.holder s'.outside id ≡ some (worker_id, now))
        × ((row' : TradingInstance) × (lookup id s'.rows ≡ some row')
            × (row'.status ≡ TradingInstanceStatus.running))
  unfolding resume with_changes set_status
  resume_takes id user_id row p s found own valid there ready =
      let known : Yields (instance_for id user_id TradingInstanceStatus.running) s (ok row, s) =
        record { at = instance_for-passed id user_id _ s row found own valid } in
      let free = laws.deleted id s.outside in
      let s2 = taken id (freed id s) in
      let first = release_frees id s ready in
      let second = acquire_free id (freed id s) ready free in
      let third = registered id row p s2 there in
      let fourth = moves TradingInstanceStatus.running id p s2 ready in
      let act : TradingInstance → Action E (Unit {0}) = λ r.
        process_of sv worker_id now id r >>= λ q.
        move_process sv worker_id now TradingInstanceStatus.running id q in
      let go : TradingInstance → Bool → Action E (Unit {0}) =
        λ r granted. require granted ProcessFault.locked >> act r in
      let lock : TradingInstance → Action E (Unit {0}) =
        λ r. acquire_lock sv id worker_id now >>= go r in
      let run =
        bind_ok (instance_for id user_id TradingInstanceStatus.running)
          (λ r. release_lock sv id >> lock r) s s row known.at
        ∙ bind_ok (release_lock sv id) (λ _. lock row) s (freed id s) true first.at
        ∙ bind_ok (acquire_lock sv id worker_id now) (go row) (freed id s) s2 true second.at
        ∙ bind_ok (process_of sv worker_id now id row)
            (λ q. move_process sv worker_id now TradingInstanceStatus.running id q) s2 s2 p third.at
        ∙ fourth.at in
      (
        moved TradingInstanceStatus.running id p s2,
        run,
        laws.state_kept p.instance_id
              (StateDocument.of_process
                (snapshot sv.floats (set_status TradingInstanceStatus.running now p)))
              s2.outside id
            ∙ (laws.nx_free id (worker_id, now) lock_ttl (freed id s).outside free).1,
        (
          with_changes (change_to TradingInstanceStatus.running p) row,
          stored_row id (change_to TradingInstanceStatus.running p) row
              (written id (set_status TradingInstanceStatus.running now) s2) found,
          refl,
        ),
      )
