-- ===== src/Scheduler/Dlq.antt =====
-- backend/engine/scheduler/dlq.py
pub mod Account
use utos.Prelude.{
  ℕ, suc, ◌+◌, ◌==◌, Bool, true, false, Option, none, some, List, [], ◌∷◌, Result, ok, err,
  if◌then◌else◌, length, filter,
}
use utos.Prelude.Dict.{Dict, number_key, lookup, insert, erase, values}

pub record DeadLetterEntry : Type 0 where
  pub id : ℕ
  pub event_type : ℕ
  pub content : ℕ
  pub metadata : ℕ
  pub reason : ℕ
  pub created_at : ℕ
  pub replay_count : ℕ

-- The handler says whether the replay succeeded, or raises.
abbrev pub ReplayHandler : Type 0
ReplayHandler = DeadLetterEntry → Result ℕ Bool

pub record DeadLetterQueue : Type 0 where
  pub entries : Dict ℕ DeadLetterEntry
  pub replay_handler : Option ReplayHandler
  pub entries_added : ℕ
  pub entries_replayed : ℕ
  pub entries_replay_succeeded : ℕ
  pub entries_replay_failed : ℕ
  pub entries_cleared : ℕ

-- `entry_id` is the new uuid, `now` the time.
unfoldable pub add : ℕ → ℕ → ℕ → ℕ → ℕ → ℕ → DeadLetterQueue → DeadLetterQueue
add entry_id now event_type content reason metadata q = record q {
  entries =
      insert entry_id
        (record {
          id = entry_id;
          event_type = event_type;
          content = content;
          metadata = metadata;
          reason = reason;
          created_at = now;
          replay_count = 0;
        })
        q.entries;
  entries_added = q.entries_added + 1;
}

unfoldable pub get_by_event_type : ℕ → DeadLetterQueue → List DeadLetterEntry
get_by_event_type event_type q = filter (λ e. e.event_type == event_type) (values q.entries)

unfoldable pub get_by_id : ℕ → DeadLetterQueue → Option DeadLetterEntry
get_by_id entry_id q = lookup entry_id q.entries

-- the entry and the counter that every replay changes
abbrev pub counted : DeadLetterEntry → DeadLetterEntry
counted entry = record entry { replay_count = entry.replay_count + 1 }

abbrev count_replay : ℕ → DeadLetterEntry → DeadLetterQueue → DeadLetterQueue
count_replay entry_id entry q = record q {
  entries = insert entry_id (counted entry) q.entries;
  entries_replayed = q.entries_replayed + 1;
}

replay_answered : Result ℕ Bool → ℕ → DeadLetterQueue → Bool × DeadLetterQueue
replay_answered (ok true) entry_id q = (
  true,
  record q {
    entries = erase entry_id q.entries;
    entries_replay_succeeded = q.entries_replay_succeeded + 1;
  },
)
replay_answered (ok false) entry_id q =
    (false, record q { entries_replay_failed = q.entries_replay_failed + 1 })
replay_answered (err _) entry_id q =
    (false, record q { entries_replay_failed = q.entries_replay_failed + 1 })

replay_handled :
    Option ReplayHandler → DeadLetterEntry → ℕ → DeadLetterQueue → Bool × DeadLetterQueue
unfolding replay_answered
replay_handled none entry entry_id q = (false, q)
replay_handled (some handler) entry entry_id q = replay_answered (handler entry) entry_id q

replay_found : Option DeadLetterEntry → ℕ → DeadLetterQueue → Bool × DeadLetterQueue
unfolding replay_handled
replay_found none entry_id q = (false, q)
replay_found (some entry) entry_id q =
    replay_handled q.replay_handler (counted entry) entry_id (count_replay entry_id entry q)

unfoldable pub replay : ℕ → DeadLetterQueue → Bool × DeadLetterQueue
unfolding replay_found
replay entry_id q = replay_found (lookup entry_id q.entries) entry_id q

unfoldable pub clear : DeadLetterQueue → DeadLetterQueue
clear q = record q { entries = []; entries_cleared = q.entries_cleared + length q.entries }
