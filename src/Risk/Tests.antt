-- ===== src/Risk/Tests.antt =====
-- A run of the portfolio at concrete fills.
use utos.Prelude.{◌≡◌, refl, Bool, true, false, some, [], ◌∷◌, ok}
use utos.Prelude.Text.{codes}
use utos.Prelude.Decimal.{whole, add_dec}
use utos.Prelude.Dict.{lookup, text_key}
use utos.ProfitLock.Policy.{Division}
use utos.Risk.Portfolio.{Position, Portfolio, opened, long, short, profit, update_position}
use utos.Risk.Portfolio.Fills.{UsedUp, last_fill_closes}

-- a division that the fills below do not use
abbrev kept : Division
kept a b = a

abbrev sold_short : Position
sold_short = opened (codes "k") (codes "a") (codes "x") (codes "ETHUSDT") short (whole 10) (whole 2)

abbrev holding : Portfolio
holding = record {
  positions =
      (
        codes "j",
        opened (codes "j") (codes "a") (codes "x") (codes "ETHUSDT") long (whole 9) (whole 1),
      )
      ∷ (codes "k", sold_short)
      ∷ [];
  closed_positions = [];
}

last_fill_closes_example :
    let r = update_position kept 7 (codes "k") (whole 8) (whole 2) true holding in
    (after : Position) × (r.0 ≡ ok after)
    × (after.realized_pnl ≡ add_dec (whole 0) (profit short (whole 10) (whole 8) (whole 2)))
    × UsedUp kept (codes "k") after holding r.1
unfolding lookup utos.Prelude.Text.text_eq
last_fill_closes_example =
    last_fill_closes kept 7 (codes "k") (whole 8) true sold_short holding refl refl refl
