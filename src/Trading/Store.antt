-- ===== src/Trading/Store.antt =====
-- backend/engine/trading/process_manager.py: `_ProcessStateStore`, the locks and states in Redis. An
-- exception of the client is caught in each method; without a client each lock is granted.
use utos.Prelude.{
  ℕ, ◌==◌, Bool, true, false, Option, none, some, Result, ok, err, pure, ◌>>=◌, ◌>>◌, if◌then◌else◌,
}
use utos.Trading.Services.{Services, Action, ProcessFault, StateDocument, LockAnswer}

-- a call to the outside whose exception is caught
unfoldable pub attempt : {E A : Type 0} → (E → Result ℕ A × E) → Action E (Result ℕ A)
attempt f s = let (r, o) = f s.outside in (ok r, record s { outside = o })

abbrev raised_as : {A : Type 0} → Result ℕ A → Result ProcessFault A
raised_as (ok a) = ok a
raised_as (err x) = err (ProcessFault.outside_fault x)

-- a call to the outside whose exception is not caught
unfoldable pub call : {E A : Type 0} → (E → Result ℕ A × E) → Action E A
call f s = let (r, o) = f s.outside in (raised_as r, record s { outside = o })

abbrev pub answer_or : {A : Type 0} → A → Result ℕ A → A
answer_or otherwise (ok a) = a
answer_or otherwise (err x) = otherwise

abbrev pub succeeded : {A : Type 0} → Result ℕ A → Bool
succeeded (ok a) = true
succeeded (err x) = false

abbrev pub lock_ttl : ℕ
lock_ttl = 60

-- what `refresh_lock` does with the value that it got, and `true` where it raises
abbrev pub own_lock : ℕ → ℕ × ℕ → Bool
own_lock worker_id (w, at) = w == worker_id

-- with the client of `_ensure_redis`, or `otherwise` without one
abbrev pub with_client : {E A : Type 0} → A → Action E A → Action E A
with_client otherwise m s = if s.redis_ready then m s else (ok otherwise, s)

module _ {E : Type 0} (sv : Services E) where
  unfoldable pub get_state : ℕ → Action E (Option StateDocument)
  unfolding attempt
  get_state id =
      with_client none do raw ← attempt (sv.redis.get_state id); pure (answer_or none raw)

  unfoldable pub set_state : ℕ → StateDocument → Action E Bool
  unfolding attempt
  set_state id document =
      with_client false do done ← attempt (sv.redis.set_state id document); pure (succeeded done)

  unfoldable pub acquire_lock : ℕ → ℕ → ℕ → Action E Bool
  unfolding attempt
  acquire_lock id worker_id now = with_client true do
    acquired ← attempt (sv.redis.set_lock_nx id (worker_id, now) lock_ttl)
    pure (answer_or true acquired)

  unfoldable pub release_lock : ℕ → Action E Bool
  unfolding attempt
  release_lock id = with_client true do attempt (sv.redis.delete_lock id); pure true

  unfoldable pub keep_lock : Bool → ℕ → ℕ × ℕ → Action E Bool
  unfolding attempt
  keep_lock true id value = do attempt (sv.redis.set_lock_xx id value lock_ttl); pure true
  keep_lock false id value = pure false

  -- the value that was got; `startswith` of a text raises for bytes
  abbrev pub refresh_with : ℕ → ℕ → ℕ → Result ℕ (Option LockAnswer) → Action E Bool
  refresh_with id worker_id now (err x) = pure true
  refresh_with id worker_id now (ok none) = acquire_lock id worker_id now
  refresh_with id worker_id now (ok (some (LockAnswer.bytes value))) = pure true
  refresh_with id worker_id now (ok (some (LockAnswer.decoded value))) =
      keep_lock (own_lock worker_id value) id value

  unfoldable pub refresh_lock : ℕ → ℕ → ℕ → Action E Bool
  unfolding attempt acquire_lock keep_lock
  refresh_lock id worker_id now =
      with_client true
        do value ← attempt (sv.redis.get_lock id); refresh_with id worker_id now value
