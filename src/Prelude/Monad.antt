-- ===== src/Prelude/Monad.antt =====
-- Python methods that change an object and may raise: what was written before a raise stays
-- written, so the state comes back beside the exception too.

use mathlib.Core.Path.{◌≡◌, refl, ap}
use mathlib.Core.Logic.{◌⊎◌, inl, inr}
use mathlib.Core.Option.{Option, none, some}

pub data Result {ℓ} (E A : Type ℓ) : Type ℓ where
  ok : A → Result E A
  err : E → Result E A

abbrev pub Exec : Type 0 → Type 0 → Type 0 → Type 0
Exec S E A = S → Result E A × S

module _ {S E A : Type 0} where
  abbrev pub pure : A → Exec S E A
  pure a s = (ok a, s)

  abbrev pub raise : E → Exec S E A
  raise e s = (err e, s)

  abbrev pub gets : (S → A) → Exec S E A
  gets f s = (ok (f s), s)

  abbrev pub lift : Result E A → Exec S E A
  lift r s = (r, s)

  abbrev pub or_raise : Option A → E → Exec S E A
  or_raise none e s = (err e, s)
  or_raise (some a) e s = (ok a, s)

  -- try: m except Exception as e: handler(e)
  abbrev pub catch : Exec S E A → (E → Exec S E A) → Exec S E A
  catch m handler s = let (r, s') = m s in elim r [ ok a ↦ (ok a, s') | err e ↦ handler e s' ]

module _ {S E : Type 0} where
  abbrev pub modify : (S → S) → Exec S E (Unit {0})
  modify f s = (ok tt, f s)

module _ {S E A B : Type 0} where
  infixl 5 ◌>>=◌ ◌>>◌
  abbrev pub ◌>>=◌ : Exec S E A → (A → Exec S E B) → Exec S E B
  ◌>>=◌ m f s = let (r, s') = m s in elim r [ ok a ↦ f a s' | err e ↦ (err e, s') ]

  abbrev pub ◌>>◌ : Exec S E A → Exec S E B → Exec S E B
  m >> n = m >>= λ _. n

pub Result-cases {ℓ} :
    {E A : Type ℓ} (r : Result E A) → ((a : A) × (r ≡ ok a)) ⊎ ((e : E) × (r ≡ err e))
Result-cases (ok a) = inl (a, refl)
Result-cases (err e) = inr (e, refl)

-- How a sequence goes on after a step that is known.
module _ {S E A B : Type 0} (m : Exec S E A) (f : A → Exec S E B) (s t : S) where
  pub bind_ok : (a : A) → m s ≡ (ok a, t) → (m >>= f) s ≡ f a t
  bind_ok a p = ap (λ (x : Result E A × S). ((λ _. x) >>= f) s) p

  pub bind_err : (e : E) → m s ≡ (err e, t) → (m >>= f) s ≡ (err e, t)
  bind_err e p = ap (λ (x : Result E A × S). ((λ _. x) >>= f) s) p

-- What a step keeps, and what follows it keeps, the sequence keeps.
pub bind_keeps :
    {S E A B : Type 0} (Q : S → Type 0) (x : Result E A × S) (f : A → Exec S E B) (s : S)
    → Q x.1
    → ((a : A) → x.0 ≡ ok a → Q (f a x.1).1)
    → Q (((λ _. x) >>= f) s).1
bind_keeps Q (ok a, t) f s h k = k a refl
bind_keeps Q (err e, t) f s h k = h
