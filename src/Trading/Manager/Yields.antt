-- ===== src/Trading/Manager/Yields.antt =====
-- What a method gives from one state, step by step.
use utos.Prelude.{
  ◌≡◌, refl, ◌∙◌, true, false, Result, ok, err, pure, gets, ◌>>=◌, bind_ok, bind_err,
}
use utos.Trading.Services.{System, Action, ProcessFault}
use utos.Trading.Manager.{require}

-- from `s` the method gives `x`
pub record Yields {E A : Type 0} (m : Action E A) (s : System E)
    (x : Result ProcessFault A × System E) : Type 0 where
  pub at : m s ≡ x

module _ {E : Type 0} where
  pub Yields-bind :
      {A B : Type 0} (m : Action E A) (f : A → Action E B) (s t : System E) (a : A)
      (x : Result ProcessFault B × System E)
      → Yields m s (ok a, t)
      → Yields (f a) t x
      → Yields (m >>= f) s x
  Yields-bind m f s t a x p q = record { at = bind_ok m f s t a p.at ∙ q.at }

  pub Yields-raise :
      {A B : Type 0} (m : Action E A) (f : A → Action E B) (s t : System E) (e : ProcessFault)
      → Yields m s (err e, t)
      → Yields (m >>= f) s (err e, t)
  Yields-raise m f s t e p = record { at = bind_err m f s t e p.at }

  pub Yields-pure : {A : Type 0} (a : A) (s : System E) → Yields (pure a) s (ok a, s)
  Yields-pure a s = record { at = refl }

  pub Yields-gets : {A : Type 0} (f : System E → A) (s : System E) → Yields (gets f) s (ok (f s), s)
  Yields-gets f s = record { at = refl }

  pub Yields-require : (e : ProcessFault) (s : System E) → Yields (require true e) s (ok tt, s)
  Yields-require e s = record { at = refl }

  pub Yields-refuse : (e : ProcessFault) (s : System E) → Yields (require false e) s (err e, s)
  Yields-refuse e s = record { at = refl }

pub ruleset yield_rules =
    (Yields-bind, Yields-raise, Yields-pure, Yields-gets, Yields-require, Yields-refuse)
