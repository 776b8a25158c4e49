-- ===== src/Scheduler/Dlq/Account.antt =====
-- Every dead letter is accounted for, whatever the replay handler does.
use mathlib.Core.Path.{subst}
use utos.Prelude.{
  ℕ, ◌+◌, ◌≡◌, ◌≢◌, ◌⊎◌, refl, ap, or_else, Bool, true, false, Option, none, some, Result, ok, err,
  arith, length, inl, inr,
}
use utos.Prelude.Dict.{
  number_key, lookup, Distinct, insert-Distinct, erase-Distinct, length-insert_new,
  length-insert_old, length-erase_old, lookup-insert_self, lookup-erase_self,
}
use utos.Scheduler.Dlq.{
  DeadLetterEntry, DeadLetterQueue, ReplayHandler, add, replay, replay_found, replay_handled,
  replay_answered, clear, get_by_id, counted, count_replay,
}

-- What was added is still there, was replayed with success or was cleared.
pub record IsAccounted (q : DeadLetterQueue) : Type 0 where
  pub distinct : Distinct q.entries
  pub added : q.entries_added ≡ length q.entries + q.entries_replay_succeeded + q.entries_cleared

-- Adding an entry under a new id keeps the account.
pub add-IsAccounted :
    (id now t c r m : ℕ) (q : DeadLetterQueue)
    → IsAccounted q
    → lookup id q.entries ≡ none
    → IsAccounted (add id now t c r m q)
unfolding add
add-IsAccounted id now t c r m q h new = record {
  distinct = insert-Distinct id _ q.entries h.distinct;
  added = omega (arith, h.added, length-insert_new id _ q.entries new);
}

answered-IsAccounted :
    (answer : Result ℕ Bool) (id : ℕ) (entry : DeadLetterEntry) (q : DeadLetterQueue)
    → IsAccounted q
    → lookup id q.entries ≡ some entry
    → IsAccounted (replay_answered answer id q).1
unfolding replay_answered
answered-IsAccounted (ok true) id entry q h e = record {
  distinct = erase-Distinct id q.entries h.distinct;
  added = omega (arith, h.added, length-erase_old id entry q.entries h.distinct e);
}
answered-IsAccounted (ok false) id entry q h e = record { distinct = h.distinct; added = h.added }
answered-IsAccounted (err x) id entry q h e = record { distinct = h.distinct; added = h.added }

handled-IsAccounted :
    (handler : Option ReplayHandler) (entry : DeadLetterEntry) (id : ℕ) (q : DeadLetterQueue)
    → IsAccounted q
    → lookup id q.entries ≡ some entry
    → IsAccounted (replay_handled handler entry id q).1
unfolding replay_handled
handled-IsAccounted none entry id q h e = h
handled-IsAccounted (some f) entry id q h e = answered-IsAccounted (f entry) id entry q h e

found-IsAccounted :
    (found : Option DeadLetterEntry) (id : ℕ) (q : DeadLetterQueue)
    → IsAccounted q
    → lookup id q.entries ≡ found
    → IsAccounted (replay_found found id q).1
unfolding replay_found
found-IsAccounted none id q h e = h
found-IsAccounted (some entry) id q h e =
    handled-IsAccounted q.replay_handler (counted entry) id (count_replay id entry q)
      (record {
        distinct = insert-Distinct id (counted entry) q.entries h.distinct;
        added = omega (arith, h.added, length-insert_old id (counted entry) entry q.entries e);
      })
      (lookup-insert_self id (counted entry) q.entries)

-- A replay keeps the account, with or without a handler, and whether it succeeds, fails or raises.
pub replay-IsAccounted :
    (id : ℕ) (q : DeadLetterQueue) → IsAccounted q → IsAccounted (replay id q).1
unfolding replay
replay-IsAccounted id q h = found-IsAccounted (lookup id q.entries) id q h refl

-- Clearing keeps the account.
pub clear-IsAccounted : (q : DeadLetterQueue) → IsAccounted q → IsAccounted (clear q)
unfolding clear
clear-IsAccounted q h = record { distinct = tt; added = omega (arith, h.added) }

-- how a replay ends, by the answer of the handler
abbrev pub Ends : Result ℕ Bool → ℕ → DeadLetterEntry → Bool × DeadLetterQueue → Type 0
Ends answer id entry (done, q) =
    ((done ≡ true) × (answer ≡ ok true) × (get_by_id id q ≡ none))
    ⊎ ((done ≡ false) × (answer ≢ ok true) × (get_by_id id q ≡ some entry))

answered-Ends :
    (answer : Result ℕ Bool) (id : ℕ) (entry : DeadLetterEntry) (q : DeadLetterQueue)
    → lookup id q.entries ≡ some entry
    → Ends answer id entry (replay_answered answer id q)
unfolding replay_answered get_by_id
answered-Ends (ok true) id entry q e = inl (refl, refl, lookup-erase_self id q.entries)
answered-Ends (ok false) id entry q e = inr (refl, λ p. cc, e)
answered-Ends (err x) id entry q e = inr (refl, λ p. cc, e)

some_inj : {f g : ReplayHandler} → some f ≡ some g → f ≡ g
some_inj {f = f} p = ap (λ (o : Option ReplayHandler). or_else o f) p

handled-Ends :
    (found : Option ReplayHandler) (handler : ReplayHandler) (id : ℕ) (entry : DeadLetterEntry)
    (q : DeadLetterQueue)
    → found ≡ some handler
    → lookup id q.entries ≡ some entry
    → Ends (handler entry) id entry (replay_handled found entry id q)
unfolding replay_handled
handled-Ends none handler id entry q p e = absurd (ground arith)
handled-Ends (some f) handler id entry q p e =
    subst (λ g. Ends (g entry) id entry (replay_answered (f entry) id q)) (some_inj p)
      (answered-Ends (f entry) id entry q e)

-- A replay returns true exactly when the handler accepts the entry with its raised count, and then
-- the entry is gone; otherwise it returns false and the entry stays, with the raised count.
pub replay_lem :
    (id : ℕ) (entry : DeadLetterEntry) (handler : ReplayHandler) (q : DeadLetterQueue)
    → q.replay_handler ≡ some handler
    → lookup id q.entries ≡ some entry
    → Ends (handler (counted entry)) id (counted entry) (replay id q)
unfolding replay
replay_lem id entry handler q h e =
    rw (e, replay_found)
      (handled-Ends q.replay_handler handler id (counted entry) (count_replay id entry q) h
        (lookup-insert_self id (counted entry) q.entries))
