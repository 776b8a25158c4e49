-- ===== src/Trading/Manager/Progress.antt =====
-- What a call for one process does to the rows: it writes to no other row, and moves its status
-- along the table of transitions.
use utos.Prelude.{
  ℕ, ◌==◌, ◌≡◌, refl, sym, ◌∙◌, subst, ap, true, false, none, some, Result, ok, err, pure, ◌>>=◌,
  ◌>>◌, Bool-cases, Option-cases, Result-cases, inl, inr, ◌⊎◌, if_false, bind_ok, bind_err,
}
use utos.Prelude.Dict.{Dict, lookup, insert, number_key, lookup-insert, lookup-insert_self}
use utos.Trading.StateMachine.{TradingInstanceStatus, TransitionFault, validate_process_transition}
use utos.Trading.StateMachine.Lifecycle.{Lifecycle, here, next}
use utos.Trading.Services.{System, Action, ProcessFault, TradingInstance}
use utos.Trading.Manager.{
  Changes, given, with_changes, row_changed, persist_instance, instance_for, get_instance,
  validate_ownership, validate_transition,
}
use utos.Trading.Manager.Quiet.{Quiet}

pub record Advances (id : ℕ) (rows rows' : Dict ℕ TradingInstance) : Type 0 where
  pub others : (j : ℕ) → (id == j) ≡ false → lookup j rows' ≡ lookup j rows
  pub along :
      (row : TradingInstance)
      → lookup id rows ≡ some row
      → (row' : TradingInstance) × (lookup id rows' ≡ some row') × Lifecycle row.status row'.status

pub Lifecycle-append :
    {p q r : TradingInstanceStatus} → Lifecycle p q → Lifecycle q r → Lifecycle p r
Lifecycle-append past here = past
Lifecycle-append past (next u later e) = next u (Lifecycle-append past later) e

pub Advances-refl :
    (id : ℕ) (rows rows' : Dict ℕ TradingInstance) → rows' ≡ rows → Advances id rows rows'
Advances-refl id rows rows' same = record {
  others = λ j other. ap (lookup j) same;
  along = λ row found. (row, ap (lookup id) same ∙ found, here);
}

Advances-trans :
    (id : ℕ) (r s t : Dict ℕ TradingInstance) → Advances id r s → Advances id s t → Advances id r t
Advances-trans id r s t p q = record {
  others = λ j other. q.others j other ∙ p.others j other;
  along = λ row found.
      let (row', found', first) = p.along row found in
      let (row'', found'', second) = q.along row' found' in
      (row'', found'', Lifecycle-append first second);
}

-- from a system with the row
pub record Moves {E A : Type 0} (id : ℕ) (row : TradingInstance) (m : Action E A) : Type 0 where
  pub at : (s : System E) → lookup id s.rows ≡ some row → Advances id s.rows (m s).1.rows

-- from any system
pub record Advancing {E A : Type 0} (id : ℕ) (m : Action E A) : Type 0 where
  pub at : (s : System E) → Advances id s.rows (m s).1.rows

persisted :
    (id : ℕ) (c : Changes) (row : TradingInstance) (rows : Dict ℕ TradingInstance)
    → lookup id rows ≡ some row
    → row_changed (lookup id rows) id c rows ≡ insert id (with_changes c row) rows
persisted id c row rows found = rw found

carried :
    (row old : TradingInstance) (t : TradingInstanceStatus)
    → some row ≡ some old
    → Lifecycle row.status t
    → Lifecycle old.status t
carried row old t e step =
    let same : row ≡ old = cc in subst (λ (r : TradingInstance). Lifecycle r.status t) same step

persisted-Advances :
    (id : ℕ) (c : Changes) (row : TradingInstance) (rows : Dict ℕ TradingInstance)
    → lookup id rows ≡ some row
    → Lifecycle row.status (given c.status row.status)
    → Advances id rows (insert id (with_changes c row) rows)
unfolding with_changes
persisted-Advances id c row rows found step = record {
  others = λ j other. lookup-insert id j _ rows ∙ if_false _ _ _ other;
  along = λ old e. (
    with_changes c row,
    lookup-insert_self id _ rows,
    carried row old (given c.status row.status) (sym found ∙ e) step,
  );
}

module _ {E : Type 0} where
  pub Moves-Quiet :
      {A : Type 0} (id : ℕ) (row : TradingInstance) (m : Action E A) → Quiet m → Moves id row m
  Moves-Quiet id row m q = record { at = λ s found. Advances-refl id s.rows _ (q.at s) }

  rest-Moves :
      {A B : Type 0} (id : ℕ) (row : TradingInstance) (x : Result ProcessFault A × System E)
      (f : A → Action E B) (s : System E)
      → ((a : A) → Moves id row (f a))
      → lookup id x.1.rows ≡ some row
      → Advances id x.1.rows (((λ _. x) >>= f) s).1.rows
  rest-Moves id row (ok a, t) f s k found = (k a).at t found
  rest-Moves id row (err e, t) f s k found = Advances-refl id t.rows t.rows refl

  -- a step that writes to no row, and what follows it
  pub Moves-bind :
      {A B : Type 0} (id : ℕ) (row : TradingInstance) (m : Action E A) (f : A → Action E B)
      → Quiet m
      → ((a : A) → Moves id row (f a))
      → Moves id row (m >>= f)
  Moves-bind id row m f q k = record {
    at = λ s found.
        Advances-trans id s.rows (m s).1.rows _ (Advances-refl id s.rows _ (q.at s))
          (rest-Moves id row (m s) f s k (ap (lookup id) (q.at s) ∙ found));
  }

  later-Quiet :
      {A B : Type 0} (x : Result ProcessFault A × System E) (f : A → Action E B) (s : System E)
      → ((a : A) → Quiet (f a))
      → (((λ _. x) >>= f) s).1.rows ≡ x.1.rows
  later-Quiet (ok a, t) f s k = (k a).at t
  later-Quiet (err e, t) f s k = refl

  -- a step that moves the process, and what follows it without a write to a row
  pub Moves-then :
      {A B : Type 0} (id : ℕ) (row : TradingInstance) (m : Action E A) (f : A → Action E B)
      → Moves id row m
      → ((a : A) → Quiet (f a))
      → Moves id row (m >>= f)
  Moves-then id row m f q k = record {
    at = λ s found.
        Advances-trans id s.rows (m s).1.rows _ (q.at s found)
          (Advances-refl id (m s).1.rows _ (later-Quiet (m s) f s k));
  }

  pub Moves-persist :
      (id : ℕ) (row : TradingInstance) (c : Changes)
      → Lifecycle row.status (given c.status row.status)
      → Moves {E = E} id row (persist_instance id c)
  unfolding persist_instance
  Moves-persist id row c step = record {
    at = λ s found.
        subst (Advances id s.rows) (sym (persisted id c row s.rows found))
          (persisted-Advances id c row s.rows found step);
  }

  -- a write to the row, and what follows it
  pub Moves-persist_then :
      {B : Type 0} (id : ℕ) (row : TradingInstance) (c : Changes) (f : Unit {0} → Action E B)
      → Lifecycle row.status (given c.status row.status)
      → Moves id (with_changes c row) (f tt)
      → Moves id row (persist_instance id c >>= f)
  unfolding persist_instance
  Moves-persist_then id row c f step k = record {
    at = λ s found.
        let new = sym (persisted id c row s.rows found) in
        Advances-trans id s.rows (row_changed (lookup id s.rows) id c s.rows) _
          (subst (Advances id s.rows) new (persisted-Advances id c row s.rows found step))
          (k.at (record s { rows = row_changed (lookup id s.rows) id c s.rows })
            (subst (λ rows. lookup id rows ≡ some (with_changes c row)) new
              (lookup-insert_self id _ s.rows)));
  }

  pub get_instance_lem :
      (id : ℕ) (row : TradingInstance) (s : System E)
      → lookup id s.rows ≡ some row
      → get_instance id s ≡ (ok row, s)
  unfolding get_instance
  get_instance_lem id row s found = rw found

  get_instance-none :
      (id : ℕ) (s : System E)
      → lookup id s.rows ≡ none
      → get_instance id s ≡ (err ProcessFault.instance_not_found, s)
  unfolding get_instance
  get_instance-none id s unknown = rw unknown

  abbrev guards : ℕ → TradingInstanceStatus → TradingInstance → Action E TradingInstance
  guards user_id target row = do
    validate_ownership row user_id
    validate_transition row.status target
    pure row

  guards_foreign :
      (user_id : ℕ) (target : TradingInstanceStatus) (row : TradingInstance) (s : System E)
      → (row.user_id == user_id) ≡ false
      → guards user_id target row s ≡ (err ProcessFault.not_owner, s)
  unfolding validate_ownership
  guards_foreign user_id target row s foreign = rw foreign

  guards_invalid :
      (user_id : ℕ) (target : TradingInstanceStatus) (row : TradingInstance) (s : System E)
      (x : TransitionFault)
      → (row.user_id == user_id) ≡ true
      → validate_process_transition row.status target ≡ err x
      → guards user_id target row s ≡ (err (ProcessFault.transition_fault x), s)
  unfolding validate_ownership validate_transition
  guards_invalid user_id target row s x own refused = rw (own, refused)

  guards_passed :
      (user_id : ℕ) (target : TradingInstanceStatus) (row : TradingInstance) (s : System E)
      → (row.user_id == user_id) ≡ true
      → validate_process_transition row.status target ≡ ok tt
      → guards user_id target row s ≡ (ok row, s)
  unfolding validate_ownership validate_transition
  guards_passed user_id target row s own valid = rw (own, valid)

  -- A known row goes through the guards.
  instance_for-guards :
      (id user_id : ℕ) (target : TradingInstanceStatus) (s : System E) (row : TradingInstance)
      (x : Result ProcessFault TradingInstance × System E)
      → lookup id s.rows ≡ some row
      → guards user_id target row s ≡ x
      → instance_for id user_id target s ≡ x
  unfolding instance_for
  instance_for-guards id user_id target s row x found passed =
      bind_ok (get_instance id) (guards user_id target) s s row (get_instance_lem id row s found)
      ∙ passed

  instance_for-none :
      (id user_id : ℕ) (target : TradingInstanceStatus) (s : System E)
      → lookup id s.rows ≡ none
      → instance_for id user_id target s ≡ (err ProcessFault.instance_not_found, s)
  unfolding instance_for
  instance_for-none id user_id target s unknown =
      bind_err (get_instance id) (guards user_id target) s s ProcessFault.instance_not_found
        (get_instance-none id s unknown)

  pub instance_for-foreign :
      (id user_id : ℕ) (target : TradingInstanceStatus) (s : System E) (row : TradingInstance)
      → lookup id s.rows ≡ some row
      → (row.user_id == user_id) ≡ false
      → instance_for id user_id target s ≡ (err ProcessFault.not_owner, s)
  instance_for-foreign id user_id target s row found foreign =
      instance_for-guards id user_id target s row _ found
        (guards_foreign user_id target row s foreign)

  pub instance_for-passed :
      (id user_id : ℕ) (target : TradingInstanceStatus) (s : System E) (row : TradingInstance)
      → lookup id s.rows ≡ some row
      → (row.user_id == user_id) ≡ true
      → validate_process_transition row.status target ≡ ok tt
      → instance_for id user_id target s ≡ (ok row, s)
  instance_for-passed id user_id target s row found own valid =
      instance_for-guards id user_id target s row _ found
        (guards_passed user_id target row s own valid)

  -- The row is given to what follows, or the method raises and the system is as it was.
  pub instance_for-cases :
      (id user_id : ℕ) (target : TradingInstanceStatus) (s : System E)
      → ((row : TradingInstance) × (instance_for id user_id target s ≡ (ok row, s))
          × (lookup id s.rows ≡ some row)
          × ((row.user_id == user_id) ≡ true)
          × (validate_process_transition row.status target ≡ ok tt))
        ⊎ ((x : ProcessFault) × (instance_for id user_id target s ≡ (err x, s)))
  instance_for-cases id user_id target s = elim (Option-cases (lookup id s.rows)) [
    | inl unknown ↦
        inr (ProcessFault.instance_not_found, instance_for-none id user_id target s unknown)
    | inr (row, found) ↦ elim (Bool-cases (row.user_id == user_id)) [
      | inr foreign ↦
          inr (ProcessFault.not_owner, instance_for-foreign id user_id target s row found foreign)
      | inl own ↦ elim (Result-cases (validate_process_transition row.status target)) [
        | inl (u, valid) ↦
            inl
              (row, instance_for-passed id user_id target s row found own valid, found, own, valid)
        | inr (x, refused) ↦ inr (
          ProcessFault.transition_fault x,
          instance_for-guards id user_id target s row _ found
              (guards_invalid user_id target row s x own refused),
        )
      ]
    ]
  ]

  pub Advancing-instance_for :
      {B : Type 0} (id user_id : ℕ) (target : TradingInstanceStatus)
      (f : TradingInstance → Action E B)
      → ((row : TradingInstance)
          → validate_process_transition row.status target ≡ ok tt
          → Moves id row (f row))
      → Advancing id (instance_for id user_id target >>= f)
  Advancing-instance_for id user_id target f k = record {
    at = λ s. elim (instance_for-cases id user_id target s) [
      | inl (row, run, found, own, valid) ↦
          subst (λ (x : Result ProcessFault _ × System E). Advances id s.rows x.1.rows)
            (sym (bind_ok (instance_for id user_id target) f s s row run))
            ((k row valid).at s found)
      | inr (x, run) ↦ Advances-refl id s.rows _ (
          ap (λ (x : Result ProcessFault _ × System E). x.1.rows)
            (bind_err (instance_for id user_id target) f s s x run))
    ];
  }
