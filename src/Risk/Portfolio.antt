-- ===== src/Risk/Portfolio.antt =====
-- backend/engine/risk/portfolio.py. Positions are filed under the text of their instance. The
-- division of decimals is an argument; the side of a fill is a buy or a sell.
pub mod Fills
use utos.Prelude.{
  ℕ, ◌+◌, ◌==◌, Bool, true, false, not, ◌&&◌, Option, none, some, List, [], ◌∷◌, ◌++◌, Result, ok,
  err, Exec, pure, raise, gets, modify, or_raise, ◌>>=◌, ◌>>◌, if◌then◌else◌, filter, length,
  is_some,
}
use utos.Prelude.Text.{Text, text_eq, codes}
use utos.Prelude.Int.{pos_part, neg_part}
use utos.Prelude.Decimal.{Decimal, whole, lt_dec, add_dec, sub_dec, mul_dec}
use utos.Prelude.Dict.{Dict, lookup, insert, erase, values, text_key}
use utos.ProfitLock.Policy.{Division}

pub data PositionDirection : Type 0 where
  long short : PositionDirection

pub record Position : Type 0 where
  pub instance_id : Text
  pub account_id : Text
  pub exchange : Text
  pub symbol : Text
  pub side : PositionDirection
  pub entry_price : Decimal
  pub quantity : Decimal
  pub realized_pnl : Decimal
  pub closed : Bool
  pub closed_at : Option ℕ

pub record Portfolio : Type 0 where
  pub positions : Dict Text Position
  pub closed_positions : List Position

pub data PortfolioFault : Type 0 where
  already_exists not_found already_closed bad_side bad_price bad_quantity too_much zero_quantity :
      PortfolioFault

abbrev pub Action : Type 0 → Type 0
Action A = Exec Portfolio PortfolioFault A

abbrev pub require : Bool → PortfolioFault → Action (Unit {0})
require true fault = pure tt
require false fault = raise fault

-- the side of a text, which is "long" or "short"
abbrev pub side_of : Text → Option PositionDirection
side_of side =
    if text_eq side (codes "long")
    then some long
    else (if text_eq side (codes "short") then some short else none)

abbrev pub positive : Decimal → Bool
positive d = lt_dec (whole 0) d

abbrev pub opened : Text → Text → Text → Text → PositionDirection → Decimal → Decimal → Position
opened instance_id account_id exchange symbol side entry_price quantity = record {
  instance_id = instance_id;
  account_id = account_id;
  exchange = exchange;
  symbol = symbol;
  side = side;
  entry_price = entry_price;
  quantity = quantity;
  realized_pnl = whole 0;
  closed = false;
  closed_at = none;
}

unfoldable pub register_position :
    Text → Text → Text → Text → Text → Decimal → Decimal → Action Position
register_position instance_id account_id exchange symbol side entry_price quantity = do
  found ← gets (λ p. is_some (lookup instance_id p.positions))
  require (not found) already_exists
  direction ← or_raise (side_of side) bad_side
  require (positive entry_price) bad_price
  require (positive quantity) bad_quantity
  modify (λ p. record p {
    positions =
        insert instance_id
          (opened instance_id account_id exchange symbol direction entry_price quantity)
          p.positions;
  })
  pure (opened instance_id account_id exchange symbol direction entry_price quantity)

abbrev pub opens : PositionDirection → Bool → Bool
opens long buy = buy
opens short buy = not buy

abbrev pub is_zero : Decimal → Bool
is_zero d = pos_part d.coefficient + neg_part d.coefficient == 0

abbrev pub enlarged : Division → Decimal → Decimal → Position → Position
enlarged divide fill_price fill_quantity p = record p {
  entry_price =
      divide (add_dec (mul_dec p.entry_price p.quantity) (mul_dec fill_price fill_quantity))
        (add_dec p.quantity fill_quantity);
  quantity = add_dec p.quantity fill_quantity;
}

abbrev pub profit : PositionDirection → Decimal → Decimal → Decimal → Decimal
profit long entry_price fill_price fill_quantity =
    mul_dec (sub_dec fill_price entry_price) fill_quantity
profit short entry_price fill_price fill_quantity =
    mul_dec (sub_dec entry_price fill_price) fill_quantity

abbrev pub closed_if : Bool → ℕ → Position → Position
closed_if true now p = record p { closed = true; closed_at = some now }
closed_if false now p = p

abbrev pub reduced : ℕ → Decimal → Decimal → Position → Position
reduced now fill_price fill_quantity p =
    closed_if (is_zero (sub_dec p.quantity fill_quantity)) now (record p {
      realized_pnl = add_dec p.realized_pnl (profit p.side p.entry_price fill_price fill_quantity);
      quantity = sub_dec p.quantity fill_quantity;
    })

-- the two kinds of fills; an average over no quantity raises
abbrev pub fill :
    Division → Bool → ℕ → Decimal → Decimal → Position → Result PortfolioFault Position
fill divide true now fill_price fill_quantity p =
    if is_zero (add_dec p.quantity fill_quantity)
    then err zero_quantity
    else ok (enlarged divide fill_price fill_quantity p)
fill divide false now fill_price fill_quantity p =
    if lt_dec p.quantity fill_quantity
    then err too_much
    else ok (reduced now fill_price fill_quantity p)

abbrev pub stored : Text → Result PortfolioFault Position → Action Position
stored instance_id (err x) = raise x
stored instance_id (ok p) = do
  modify (λ s. record s { positions = insert instance_id p s.positions })
  pure p

-- update_position; `buy` says whether the fill is of a buy
unfoldable pub update_position : Division → ℕ → Text → Decimal → Decimal → Bool → Action Position
update_position divide now instance_id fill_price fill_quantity buy = do
  found ← gets (λ p. lookup instance_id p.positions)
  position ← or_raise found not_found
  require (not position.closed) already_closed
  stored instance_id (fill divide (opens position.side buy) now fill_price fill_quantity position)

abbrev pub close_found : Option Position → ℕ → Text → Action Position
close_found none now instance_id = raise not_found
close_found (some position) now instance_id = do
  modify (λ p. record {
    positions = erase instance_id p.positions;
    closed_positions =
        p.closed_positions ++ record position { closed = true; closed_at = some now } ∷ [];
  })
  pure (record position { closed = true; closed_at = some now })

unfoldable pub close_position : ℕ → Text → Action Position
close_position now instance_id = do
  found ← gets (λ p. lookup instance_id p.positions)
  close_found found now instance_id

abbrev pub matches : Option Text → Text → Bool
matches none t = true
matches (some u) t = text_eq t u

-- get_positions; a filter that is empty or not given is `none`
unfoldable pub get_positions :
    Option Text → Option Text → Option Text → Option Text → Portfolio → List Position
get_positions instance_id account_id exchange symbol p =
    filter
      (λ q.
        matches instance_id q.instance_id
        && matches account_id q.account_id
        && (matches exchange q.exchange && matches symbol q.symbol))
      (values p.positions)

unfoldable pub get_open_position_count : Portfolio → ℕ
get_open_position_count p = length p.positions

unfoldable pub remove_position : Text → Portfolio → Portfolio
remove_position instance_id p = record p { positions = erase instance_id p.positions }
