-- ===== src/Trading/Manager/Settled.antt =====
-- What the recovery of one process does to the rows, put together from its steps.
use utos.Prelude.{
  ℕ, ◌==◌, ◌≡◌, refl, sym, ◌∙◌, subst, ap, Bool, true, false, some, Result, ok, err, ◌>>=◌,
  if_false,
}
use utos.Prelude.Dict.{Dict, lookup, insert, number_key, lookup-insert, lookup-insert_self}
use utos.Trading.StateMachine.{TradingInstanceStatus}
use utos.Trading.Services.{System, Action, ProcessFault, TradingInstance}
use utos.Trading.Manager.{Changes, given, with_changes, row_changed, persist_instance}
use utos.Trading.Manager.Quiet.{Quiet}

-- the statuses in which `recover` leaves a process
abbrev pub is_settled : TradingInstanceStatus → Bool
is_settled TradingInstanceStatus.running = true
is_settled TradingInstanceStatus.paused = true
is_settled TradingInstanceStatus.error = true
is_settled _ = false

-- The method writes to no row but that of the process, which is there, and is settled where the
-- method does not raise.
pub record Ends {E A : Type 0} (id : ℕ) (rows : Dict ℕ TradingInstance)
    (x : Result ProcessFault A × System E) : Type 0 where
  pub others : (j : ℕ) → (id == j) ≡ false → lookup j x.1.rows ≡ lookup j rows
  pub known : (row' : TradingInstance) × (lookup id x.1.rows ≡ some row')
  pub settled :
      (a : A) (row' : TradingInstance)
      → x.0 ≡ ok a
      → lookup id x.1.rows ≡ some row'
      → is_settled row'.status ≡ true

pub record Recovers {E A : Type 0} (id : ℕ) (row : TradingInstance) (m : Action E A) : Type 0 where
  pub at : (s : System E) → lookup id s.rows ≡ some row → Ends id s.rows (m s)

module _ {E A : Type 0} (id : ℕ) where
  Ends-from :
      (rows rows' : Dict ℕ TradingInstance) (x : Result ProcessFault A × System E)
      → ((j : ℕ) → (id == j) ≡ false → lookup j rows' ≡ lookup j rows)
      → Ends id rows' x
      → Ends id rows x
  Ends-from rows rows' x same e = record {
    others = λ j other. e.others j other ∙ same j other;
    known = e.known;
    settled = e.settled;
  }

module _ {E A B : Type 0} (id : ℕ) where
  rest-Ends :
      (row : TradingInstance) (x : Result ProcessFault A × System E) (f : A → Action E B)
      (s : System E)
      → ((a : A) → Recovers id row (f a))
      → lookup id x.1.rows ≡ some row
      → Ends id x.1.rows (((λ _. x) >>= f) s)
  rest-Ends row (ok a, t) f s k found = (k a).at t found
  rest-Ends row (err e, t) f s k found = record {
    others = λ j other. refl;
    known = (row, found);
    settled = λ a row' p q. cc;
  }

  pub Recovers-bind :
      (row : TradingInstance) (m : Action E A) (f : A → Action E B)
      → Quiet m
      → ((a : A) → Recovers id row (f a))
      → Recovers id row (m >>= f)
  Recovers-bind row m f q k = record {
    at = λ s found.
        subst (λ rows. Ends id rows ((m >>= f) s)) (q.at s)
          (rest-Ends row (m s) f s k (ap (lookup id) (q.at s) ∙ found));
  }

  then-Ends :
      (rows : Dict ℕ TradingInstance) (x : Result ProcessFault A × System E) (f : A → Action E B)
      (s : System E)
      → Ends id rows x
      → ((a : A) → Quiet (f a))
      → Ends id rows (((λ _. x) >>= f) s)
  then-Ends rows (err e, t) f s h k = record {
    others = h.others;
    known = h.known;
    settled = λ a row' p q. cc;
  }
  then-Ends rows (ok a, t) f s h k = record {
    others = λ j other. ap (lookup j) ((k a).at t) ∙ h.others j other;
    known = (h.known.0, ap (lookup id) ((k a).at t) ∙ h.known.1);
    settled = λ b row' p q. h.settled a row' refl (sym (ap (lookup id) ((k a).at t)) ∙ q);
  }

  pub Recovers-then :
      (row : TradingInstance) (m : Action E A) (f : A → Action E B)
      → Recovers id row m
      → ((a : A) → Quiet (f a))
      → Recovers id row (m >>= f)
  Recovers-then row m f r k = record { at = λ s found. then-Ends s.rows (m s) f s (r.at s found) k }

status_of_changed :
    (c : Changes) (row row' : TradingInstance)
    → some (with_changes c row) ≡ some row'
    → is_settled (given c.status row.status) ≡ true
    → is_settled row'.status ≡ true
unfolding with_changes
status_of_changed c row row' e h =
    let same : with_changes c row ≡ row' = cc in
    subst (λ (r : TradingInstance). is_settled r.status ≡ true) same h

pub persisted :
    (id : ℕ) (c : Changes) (row : TradingInstance) (rows : Dict ℕ TradingInstance)
    → lookup id rows ≡ some row
    → insert id (with_changes c row) rows ≡ row_changed (lookup id rows) id c rows
persisted id c row rows found = rw found

module _ {E : Type 0} (id : ℕ) (row : TradingInstance) (c : Changes) where
  pub Recovers-persist :
      is_settled (given c.status row.status) ≡ true
      → Recovers {E = E} id row (persist_instance id c)
  unfolding persist_instance
  Recovers-persist h = record {
    at = λ s found.
        let new = persisted id c row s.rows found in
        let there : lookup id (row_changed (lookup id s.rows) id c s.rows)
            ≡ some (with_changes c row) =
          ap (lookup id) (sym new) ∙ lookup-insert_self id (with_changes c row) s.rows in
        record {
          others = λ j other.
              ap (lookup j) (sym new) ∙ lookup-insert id j _ s.rows ∙ if_false _ _ _ other;
          known = (with_changes c row, there);
          settled = λ a row' e p. status_of_changed c row row' (sym there ∙ p) h;
        };
  }

  pub Recovers-persist_then :
      {B : Type 0} (f : Unit {0} → Action E B)
      → Recovers id (with_changes c row) (f tt)
      → Recovers id row (persist_instance id c >>= f)
  unfolding persist_instance
  Recovers-persist_then f k = record {
    at = λ s found.
        let new = persisted id c row s.rows found in
        Ends-from id s.rows (row_changed (lookup id s.rows) id c s.rows) _
          (λ j other. ap (lookup j) (sym new) ∙ lookup-insert id j _ s.rows ∙ if_false _ _ _ other)
          (k.at (record s { rows = row_changed (lookup id s.rows) id c s.rows })
            (ap (lookup id) (sym new) ∙ lookup-insert_self id (with_changes c row) s.rows));
  }
