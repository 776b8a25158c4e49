-- ===== src/Trading/Manager/Keeping.antt =====
-- Statements on the grid engine and the registry of processes, through the steps of a method.
use utos.Prelude.{
  ℕ, ◌≡◌, refl, subst, Bool, true, false, Option, none, some, Result, ok, err, pure, gets, lift,
  or_raise, ◌>>=◌, if_both,
}
use utos.Prelude.Dict.{Dict, number_key}
use utos.Grid.Engine.{GridEngine}
use utos.Trading.Process.{TradingProcess}
use utos.Trading.Services.{System, Action, ProcessFault}
use utos.Trading.Store.{attempt, call, with_client}
use utos.Trading.Manager.{require, persist_instance, Changes}

-- a statement on the grid engine and the registry
abbrev pub Statement : Type 1
Statement = Option GridEngine → Dict ℕ TradingProcess → Type 0

pub record Keeps {E A : Type 0} (P : Statement) (m : Action E A) : Type 0 where
  pub at : (s : System E) → P s.grid_engine s.registry → P (m s).1.grid_engine (m s).1.registry

-- from `P` the method leads to `R` where it does not raise
pub record Leads {E A : Type 0} (P R : Statement) (m : Action E A) : Type 0 where
  pub at :
      (s : System E) (a : A)
      → P s.grid_engine s.registry
      → (m s).0 ≡ ok a
      → R (m s).1.grid_engine (m s).1.registry

module _ {E : Type 0} (P : Statement) where
  pub Keeps-pure : {A : Type 0} (a : A) → Keeps {E = E} P (pure a)
  Keeps-pure a = record { at = λ s h. h }

  pub Keeps-gets : {A : Type 0} (f : System E → A) → Keeps P (gets f)
  Keeps-gets f = record { at = λ s h. h }

  pub Keeps-lift : {A : Type 0} (r : Result ProcessFault A) → Keeps {E = E} P (lift r)
  Keeps-lift r = record { at = λ s h. h }

  pub Keeps-or_raise :
      {A : Type 0} (o : Option A) (x : ProcessFault) → Keeps {E = E} P (or_raise o x)
  Keeps-or_raise none x = record { at = λ s h. h }
  Keeps-or_raise (some a) x = record { at = λ s h. h }

  pub Keeps-require : (b : Bool) (x : ProcessFault) → Keeps {E = E} P (require b x)
  Keeps-require true x = record { at = λ s h. h }
  Keeps-require false x = record { at = λ s h. h }

  pub Keeps-attempt : {A : Type 0} (f : E → Result ℕ A × E) → Keeps P (attempt f)
  unfolding attempt
  Keeps-attempt f = record { at = λ s h. h }

  pub Keeps-call : {A : Type 0} (f : E → Result ℕ A × E) → Keeps P (call f)
  unfolding call
  Keeps-call f = record { at = λ s h. h }

  pub Keeps-persist : (id : ℕ) (c : Changes) → Keeps {E = E} P (persist_instance id c)
  unfolding persist_instance
  Keeps-persist id c = record { at = λ s h. h }

  abbrev Kept : {A : Type 0} → Result ProcessFault A × System E → Type 0
  Kept x = P x.1.grid_engine x.1.registry

  rest-Keeps :
      {A B : Type 0} (x : Result ProcessFault A × System E) (f : A → Action E B) (s : System E)
      → ((a : A) → Keeps P (f a))
      → Kept x
      → Kept (((λ _. x) >>= f) s)
  rest-Keeps (ok a, t) f s k h = (k a).at t h
  rest-Keeps (err e, t) f s k h = h

  pub Keeps-bind :
      {A B : Type 0} (m : Action E A) (f : A → Action E B)
      → Keeps P m
      → ((a : A) → Keeps P (f a))
      → Keeps P (m >>= f)
  Keeps-bind m f q k = record { at = λ s h. rest-Keeps (m s) f s k (q.at s h) }

  pub Keeps-with_client :
      {A : Type 0} (a : A) (m : Action E A) → Keeps P m → Keeps P (with_client a m)
  Keeps-with_client a m q = record {
    at = λ s h. if_both Kept s.redis_ready (m s) (ok a, s) (q.at s h) h;
  }

pub ruleset keep_rules = (
  Keeps-pure, Keeps-gets, Keeps-lift, Keeps-or_raise, Keeps-require, Keeps-attempt, Keeps-call,
  Keeps-persist, Keeps-bind, Keeps-with_client,
)

module _ {E A B : Type 0} (P R : Statement) (m : Action E A) (f : A → Action E B) where
  rest-Leads :
      (x : Result ProcessFault A × System E) (s : System E) (b : B)
      → ((a : A) → Leads P R (f a))
      → P x.1.grid_engine x.1.registry
      → (((λ _. x) >>= f) s).0 ≡ ok b
      → R (((λ _. x) >>= f) s).1.grid_engine (((λ _. x) >>= f) s).1.registry
  rest-Leads (ok a, t) s b k h e = (k a).at t b h e
  rest-Leads (err x, t) s b k h e = cc

  pub Leads-bind : Keeps P m → ((a : A) → Leads P R (f a)) → Leads P R (m >>= f)
  Leads-bind q k = record { at = λ s b h e. rest-Leads (m s) s b k (q.at s h) e }

  then-Leads :
      (x : Result ProcessFault A × System E) (s : System E) (b : B)
      → ((a : A) → x.0 ≡ ok a → R x.1.grid_engine x.1.registry)
      → ((a : A) → Keeps R (f a))
      → (((λ _. x) >>= f) s).0 ≡ ok b
      → R (((λ _. x) >>= f) s).1.grid_engine (((λ _. x) >>= f) s).1.registry
  then-Leads (ok a, t) s b h k e = (k a).at t (h a refl)
  then-Leads (err x, t) s b h k e = cc

  pub Leads-then : Leads P R m → ((a : A) → Keeps R (f a)) → Leads P R (m >>= f)
  Leads-then q k = record { at = λ s b h e. then-Leads (m s) s b (λ a. q.at s a h) k e }

module _ {E A B : Type 0} (P Q R : Statement) (m : Action E A) (f : A → Action E B) where
  seq-Leads :
      (x : Result ProcessFault A × System E) (s : System E) (b : B)
      → ((a : A) → x.0 ≡ ok a → Q x.1.grid_engine x.1.registry)
      → ((a : A) → Leads Q R (f a))
      → (((λ _. x) >>= f) s).0 ≡ ok b
      → R (((λ _. x) >>= f) s).1.grid_engine (((λ _. x) >>= f) s).1.registry
  seq-Leads (ok a, t) s b h k e = (k a).at t b (h a refl) e
  seq-Leads (err x, t) s b h k e = cc

  pub Leads-seq : Leads P Q m → ((a : A) → Leads Q R (f a)) → Leads P R (m >>= f)
  Leads-seq q k = record { at = λ s b h e. seq-Leads (m s) s b (λ a. q.at s a h) k e }

-- the result has no subscription
pub record Bare {E : Type 0} (m : Action E TradingProcess) : Type 0 where
  pub at : (s : System E) (p : TradingProcess) → (m s).0 ≡ ok p → p.subscription_id ≡ none

module _ {E : Type 0} where
  pub Bare-pure : (p : TradingProcess) → p.subscription_id ≡ none → Bare {E = E} (pure p)
  Bare-pure p h = record {
    at = λ s q e.
        let same : p ≡ q = cc in subst (λ (r : TradingProcess). r.subscription_id ≡ none) same h;
  }

  rest-Bare :
      {A : Type 0} (x : Result ProcessFault A × System E) (f : A → Action E TradingProcess)
      (s : System E) (p : TradingProcess)
      → ((a : A) → Bare (f a))
      → (((λ _. x) >>= f) s).0 ≡ ok p
      → p.subscription_id ≡ none
  rest-Bare (ok a, t) f s p k e = (k a).at t p e
  rest-Bare (err x, t) f s p k e = cc

  pub Bare-bind :
      {A : Type 0} (m : Action E A) (f : A → Action E TradingProcess)
      → ((a : A) → Bare (f a))
      → Bare (m >>= f)
  Bare-bind m f k = record { at = λ s p e. rest-Bare (m s) f s p k e }

  Bare-Keeps :
      {B : Type 0} (P : Statement) (x : Result ProcessFault TradingProcess × System E)
      (f : TradingProcess → Action E B) (s : System E)
      → ((p : TradingProcess) → x.0 ≡ ok p → p.subscription_id ≡ none)
      → ((p : TradingProcess) → p.subscription_id ≡ none → Keeps P (f p))
      → P x.1.grid_engine x.1.registry
      → P (((λ _. x) >>= f) s).1.grid_engine (((λ _. x) >>= f) s).1.registry
  Bare-Keeps P (ok p, t) f s b k h = (k p (b p refl)).at t h
  Bare-Keeps P (err x, t) f s b k h = h

  pub Keeps-Bare :
      {B : Type 0} (P : Statement) (m : Action E TradingProcess) (f : TradingProcess → Action E B)
      → Keeps P m
      → Bare m
      → ((p : TradingProcess) → p.subscription_id ≡ none → Keeps P (f p))
      → Keeps P (m >>= f)
  Keeps-Bare P m f q b k = record { at = λ s h. Bare-Keeps P (m s) f s (b.at s) k (q.at s h) }
