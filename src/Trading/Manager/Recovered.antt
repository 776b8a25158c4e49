-- ===== src/Trading/Manager/Recovered.antt =====
-- What `recover` leaves.
use utos.Prelude.{
  ℕ, ◌==◌, ◌≡◌, refl, sym, ◌∙◌, subst, ap, Bool, true, false, ◌||◌, Option, none, some, List, [],
  ◌∷◌, Result, ok, err, Bool-cases, inl, inr, if_true, if_false, if◌then◌else◌, ◌≢◌, ==_iff, arith,
}
use utos.Prelude.Dict.{Dict, lookup, insert, number_key}
use utos.Trading.StateMachine.{
  TradingInstanceStatus, validate_process_transition, same_status, already_in_state,
}
use utos.Trading.Services.{Services, System, ProcessFault, TradingInstance, ErrorMessage}
use utos.Trading.Manager.{with_changes, persist_instance, validate_transition}
use utos.Trading.Manager.Recover.{
  ids_in_status, fail_with, recover_instance, outcome_of, recover_row, recover_one, recover_each,
  recover_status, recover,
}
use utos.Trading.Manager.Settled.{is_settled, Ends}
use utos.Trading.Manager.Rescue.{fail_with-Recovers, recover_instance-Recovers}

abbrev listed : ℕ → List ℕ → Bool
listed j [] = false
listed j (i ∷ is) = i == j || listed j is

head_listed :
    (b : Bool) (i j : ℕ) (is : List ℕ)
    → b ≡ true
    → (i == j) ≡ true
    → listed j (if b then i ∷ is else is) ≡ true
head_listed true i j is h same = rw same
head_listed false i j is h same = cc

tail_listed :
    (b : Bool) (i j : ℕ) (is : List ℕ)
    → listed j is ≡ true
    → listed j (if b then i ∷ is else is) ≡ true
tail_listed true i j is h = ground arith
tail_listed false i j is h = h

in_status-listed :
    (status : TradingInstanceStatus) (j : ℕ) (row : TradingInstance) (rows : Dict ℕ TradingInstance)
    → lookup j rows ≡ some row
    → same_status row.status status ≡ true
    → listed j (ids_in_status status rows) ≡ true
unfolding ids_in_status lookup
in_status-listed status j row [] found h = cc
in_status-listed status j row ((i, other) ∷ rows) found h = elim (Bool-cases (i == j)) [
  | inl same ↦
      let here : some other ≡ some row = sym (if_true _ _ _ same) ∙ found in
      let first : other ≡ row = cc in
      head_listed (same_status other.status status) i j (ids_in_status status rows)
        (subst (λ (r : TradingInstance). same_status r.status status ≡ true) (sym first) h) same
  | inr further ↦
      tail_listed (same_status other.status status) i j (ids_in_status status rows)
        (in_status-listed status j row rows (sym (if_false _ _ _ further) ∙ found) h)
]

abbrev pub is_recovering : TradingInstanceStatus → Bool
is_recovering p = same_status p TradingInstanceStatus.recovering

abbrev not_recovering : TradingInstanceStatus → Bool
not_recovering p = if is_recovering p then false else true

settled_free : (p : TradingInstanceStatus) → is_settled p ≡ true → not_recovering p ≡ true
settled_free p h = ground arith

still_recovering :
    (p : TradingInstanceStatus) → not_recovering p ≡ true → p ≢ TradingInstanceStatus.recovering
still_recovering p h e = ground arith

abbrev pub is_live : TradingInstanceStatus → Bool
is_live p = is_settled p || is_recovering p

settled_live : (p : TradingInstanceStatus) → is_settled p ≡ true → is_live p ≡ true
settled_live p h = ground arith

live_free :
    (p : TradingInstanceStatus) → is_live p ≡ true → not_recovering p ≡ true → is_settled p ≡ true
live_free p h k = ground arith

of_found :
    {o : Option TradingInstance} {old row : TradingInstance}
    → o ≡ some old
    → o ≡ some row
    → is_live old.status ≡ true
    → is_live row.status ≡ true
of_found {old} {row} p q h =
    let same : old ≡ row = cc in subst (λ (r : TradingInstance). is_live r.status ≡ true) same h

module _ {E : Type 0} (sv : Services E) (worker_id : ℕ) (now : ℕ) where
  -- what one round of the loop does to the rows
  record Rescues (id : ℕ) (rows rows' : Dict ℕ TradingInstance) : Type 0 where
    others : (j : ℕ) → (id == j) ≡ false → lookup j rows' ≡ lookup j rows
    settled : (row' : TradingInstance) → lookup id rows' ≡ some row' → is_settled row'.status ≡ true

  outcome-Rescues :
      (id : ℕ) (rows : Dict ℕ TradingInstance) (x : Result ProcessFault (Unit {0}) × System E)
      → Ends id rows x
      → Rescues id rows (outcome_of sv worker_id now id x).1.rows
  unfolding fail_with persist_instance
  outcome-Rescues id rows (ok u, t) e = record {
    others = e.others;
    settled = λ row' there. e.settled u row' refl there;
  }
  outcome-Rescues id rows (err x, t) e =
      let failed =
        (fail_with-Recovers sv worker_id now id e.known.0 ErrorMessage.raised).at t e.known.1 in
      record {
        others = λ j other. failed.others j other ∙ e.others j other;
        settled = λ row' there. failed.settled tt row' refl there;
      }

  row-Rescues :
      (id : ℕ) (found : Option TradingInstance) (s : System E)
      → lookup id s.rows ≡ found
      → Rescues id s.rows (recover_row sv worker_id now id found s).1.rows
  row-Rescues id none s e = record { others = λ j other. refl; settled = λ row' there. cc }
  row-Rescues id (some row) s e =
      outcome-Rescues id s.rows (recover_instance sv worker_id now id row s)
        ((recover_instance-Recovers sv worker_id now id row).at s e)

  one-Rescues :
      (id : ℕ) (s : System E) → Rescues id s.rows (recover_one sv worker_id now id s).1.rows
  unfolding recover_one
  one-Rescues id s = row-Rescues id (lookup id s.rows) s refl

  abbrev Among : (TradingInstanceStatus → Bool) → ℕ → System E → Type 0
  Among good j s = (row : TradingInstance) → lookup j s.rows ≡ some row → good row.status ≡ true

  one_kept :
      (good : TradingInstanceStatus → Bool)
      → ((p : TradingInstanceStatus) → is_settled p ≡ true → good p ≡ true)
      → (id j : ℕ) (s : System E) → Among good j s
      → Among good j (recover_one sv worker_id now id s).1
  one_kept good weaker id j s h = elim (Bool-cases (id == j)) [
    | inl same ↦
        subst (λ i. Among good i (recover_one sv worker_id now id s).1) ((==_iff id j).0 same)
          (λ row there. weaker row.status ((one-Rescues id s).settled row there))
    | inr other ↦ λ row there. h row (sym ((one-Rescues id s).others j other) ∙ there)
  ]

  each_kept :
      (good : TradingInstanceStatus → Bool)
      → ((p : TradingInstanceStatus) → is_settled p ≡ true → good p ≡ true)
      → (ids : List ℕ) (j : ℕ) (s : System E) → Among good j s
      → Among good j (recover_each sv worker_id now ids s).1
  unfolding recover_each
  each_kept good weaker [] j s h = h
  each_kept good weaker (id ∷ ids) j s h =
      each_kept good weaker ids j (recover_one sv worker_id now id s).1
        (one_kept good weaker id j s h)

  -- who is in the list is settled after the loop
  each_settles :
      (ids : List ℕ) (j : ℕ) (s : System E)
      → listed j ids ≡ true
      → Among is_settled j (recover_each sv worker_id now ids s).1
  unfolding recover_each
  each_settles [] j s h = cc
  each_settles (id ∷ ids) j s h = elim (Bool-cases (id == j)) [
    | inl same ↦
        each_kept is_settled (λ p q. q) ids j (recover_one sv worker_id now id s).1
          (subst (λ i. Among is_settled i (recover_one sv worker_id now id s).1)
            ((==_iff id j).0 same) (one-Rescues id s).settled)
    | inr other ↦ each_settles ids j (recover_one sv worker_id now id s).1 (ground arith)
  ]

  unlisted_free :
      (j : ℕ) (s : System E)
      → listed j (ids_in_status TradingInstanceStatus.recovering s.rows) ≡ false
      → Among not_recovering j s
  unlisted_free j s h row found = elim (Bool-cases (is_recovering row.status)) [
    | inl still ↦
        let there = in_status-listed TradingInstanceStatus.recovering j row s.rows found still in cc
    | inr other ↦ if_false _ _ _ other
  ]

  last_loop :
      (j : ℕ) (s : System E)
      → Among not_recovering j
          (recover_status sv worker_id now TradingInstanceStatus.recovering s).1
  unfolding recover_status
  last_loop j s =
      let ids = ids_in_status TradingInstanceStatus.recovering s.rows in
      elim (Bool-cases (listed j ids)) [
        | inl there ↦ λ row found. settled_free row.status (each_settles ids j s there row found)
        | inr absent ↦ each_kept not_recovering settled_free ids j s (unlisted_free j s absent)
      ]

  live_settles :
      (j : ℕ) (s : System E)
      → Among is_live j s
      → Among is_settled j (recover_status sv worker_id now TradingInstanceStatus.recovering s).1
  unfolding recover_status
  live_settles j s live =
      let ids = ids_in_status TradingInstanceStatus.recovering s.rows in
      elim (Bool-cases (listed j ids)) [
        | inl there ↦ each_settles ids j s there
        | inr absent ↦
            each_kept is_settled (λ p q. q) ids j s
              λ row found.
                live_free row.status (live row found) (unlisted_free j s absent row found)
      ]

  status_kept :
      (status : TradingInstanceStatus) (j : ℕ) (s : System E)
      → Among is_live j s
      → Among is_live j (recover_status sv worker_id now status s).1
  unfolding recover_status
  status_kept status j s live =
      each_kept is_live settled_live (ids_in_status status s.rows) j s live

  -- After the recovery at the start of the application no process is recovering, and each that was
  -- running, paused, in error or recovering before is running, paused or in error, whatever Redis,
  -- the exchanges and the decryption answer.
  pub recover_finishes :
      (s : System E) (j : ℕ) (old row : TradingInstance)
      → lookup j s.rows ≡ some old
      → lookup j (recover sv worker_id now s).1.rows ≡ some row
      → (row.status ≢ TradingInstanceStatus.recovering)
        × (is_live old.status ≡ true → is_settled row.status ≡ true)
  unfolding recover
  recover_finishes s j old row before found =
      let s' = (recover_status sv worker_id now TradingInstanceStatus.running s).1 in
      let s'' = (recover_status sv worker_id now TradingInstanceStatus.paused s').1 in
      (
        still_recovering row.status (last_loop j s'' row found),
        λ live.
            live_settles j s''
              (status_kept TradingInstanceStatus.paused j s'
                (status_kept TradingInstanceStatus.running j s (λ r e. of_found before e live)))
              row found,
      )

  -- `_recover_instance` refuses a process that was left recovering.
  interrupted_raises :
      (id : ℕ) (row : TradingInstance) (s : System E)
      → row.status ≡ TradingInstanceStatus.recovering
      → recover_instance sv worker_id now id row s ≡ (
        err (ProcessFault.transition_fault (already_in_state TradingInstanceStatus.recovering)),
        s,
      )
  unfolding recover_instance validate_transition validate_process_transition
  interrupted_raises id row s e = rw e

  -- A process that was left recovering is not recovered but put in error: it is not among the
  -- returned ones, neither its lock nor its exchange is asked, and only its row changes.
  pub interrupted_fails :
      (id : ℕ) (row : TradingInstance) (s : System E)
      → lookup id s.rows ≡ some row
      → row.status ≡ TradingInstanceStatus.recovering
      → recover_one sv worker_id now id s ≡ (
        false,
        record s {
          rows =
              insert id
                (record row {
                  status = TradingInstanceStatus.error;
                  error_message = some ErrorMessage.raised;
                })
                s.rows;
        },
      )
  unfolding recover_one fail_with persist_instance with_changes
  interrupted_fails id row s found e =
      ap (λ o. recover_row sv worker_id now id o s) found
      ∙ ap (outcome_of sv worker_id now id) (interrupted_raises id row s e)
      ∙ (rw found)
