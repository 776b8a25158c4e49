-- ===== src/Risk/Portfolio/Fills.antt =====
-- What the fill that uses up a position leaves in the portfolio.
use utos.Prelude.{
  ℕ, ◌+◌, ◌==◌, ◌≡◌, ap, ◌∙◌, sym, subst, Bool, true, false, not, some, ok, err, arith, or_raise,
  ◌>>=◌, ◌>>◌,
}
use utos.Prelude.Text.{Text}
use utos.Prelude.Int.{pos_part, neg_part, ℤ, ◌-ℤ◌}
use utos.Prelude.Decimal.{Decimal, sub_dec, add_dec}
use utos.Prelude.Decimal.Order.{le_dec_refl}
use utos.Prelude.Dict.{insert, lookup, text_key, lookup-insert_self, length-insert_old}
use utos.ProfitLock.Policy.{Division}
use utos.Risk.Portfolio.{
  Position, Portfolio, already_exists, not_found, already_closed, require, stored, opens, is_zero,
  reduced, fill, profit, register_position, update_position, get_open_position_count,
}

minus_self : (a : ℤ) → (pos_part (a -ℤ a) + neg_part (a -ℤ a) == 0) ≡ true
unfolding ◌-ℤ◌
minus_self a = ground arith

sub_dec_self : (d : Decimal) → is_zero (sub_dec d d) ≡ true
unfolding sub_dec
sub_dec_self d = minus_self _

update_lem :
    (divide : Division) (now : ℕ) (id : Text) (price quantity : Decimal) (buy : Bool)
    (position : Position) (p : Portfolio)
    → lookup id p.positions ≡ some position
    → update_position divide now id price quantity buy p
      ≡ (require (not position.closed) already_closed
            >> stored id (fill divide (opens position.side buy) now price quantity position))
          p
unfolding update_position
update_lem divide now id price quantity buy position p e =
    ap
      (λ o.
        (or_raise o not_found >>= λ q.
        require (not q.closed) already_closed
        >> stored id (fill divide (opens q.side buy) now price quantity q))
          p)
      e

closed_refused :
    (divide : Division) (now : ℕ) (id : Text) (price quantity : Decimal) (buy : Bool)
    (position : Position) (p : Portfolio)
    → lookup id p.positions ≡ some position
    → position.closed ≡ true
    → update_position divide now id price quantity buy p ≡ (err already_closed, p)
closed_refused divide now id price quantity buy position p e closed =
    update_lem divide now id price quantity buy position p e
    ∙ ap
        (λ b.
          (require (not b) already_closed
              >> stored id (fill divide (opens position.side buy) now price quantity position))
            p)
        closed

taken_refused :
    (id account exchange symbol side : Text) (entry_price quantity : Decimal) (position : Position)
    (p : Portfolio)
    → lookup id p.positions ≡ some position
    → register_position id account exchange symbol side entry_price quantity p
      ≡ (err already_exists, p)
unfolding register_position
taken_refused id account exchange symbol side entry_price quantity position p e = rw e

used_up :
    (divide : Division) (now : ℕ) (price : Decimal) (b : Bool) (position : Position)
    → b ≡ false
    → fill divide b now price position.quantity position
      ≡ ok (reduced now price position.quantity position)
used_up divide now price true position e = ground (arith, e)
used_up divide now price false position e = rw (le_dec_refl position.quantity)

reduced-closed :
    (now : ℕ) (price : Decimal) (position : Position)
    → (reduced now price position.quantity position).closed ≡ true
reduced-closed now price position = rw (sub_dec_self position.quantity)

realized :
    (now : ℕ) (price : Decimal) (position : Position)
    → (reduced now price position.quantity position).realized_pnl
      ≡ add_dec position.realized_pnl
          (profit position.side position.entry_price price position.quantity)
realized now price position = rw (sub_dec_self position.quantity)

-- the fill that uses up a position
closing_fill :
    (divide : Division) (now : ℕ) (id : Text) (price : Decimal) (buy : Bool) (position : Position)
    (p : Portfolio)
    → lookup id p.positions ≡ some position
    → position.closed ≡ false
    → opens position.side buy ≡ false
    → let after = reduced now price position.quantity position in
      update_position divide now id price position.quantity buy p
      ≡ (ok after, record p { positions = insert id after p.positions })
closing_fill divide now id price buy position p e closed side =
    update_lem divide now id price position.quantity buy position p e
    ∙ ap
        (λ b.
          (require (not b) already_closed
              >> stored id
                  (fill divide (opens position.side buy) now price position.quantity position))
            p)
        closed
    ∙ ap (λ r. stored id r p) (used_up divide now price (opens position.side buy) position side)

-- What a fill that used up a position of an instance leaves.
pub record UsedUp (divide : Division) (id : Text) (after : Position) (p q : Portfolio)
    : Type 0 where
  pub found : lookup id q.positions ≡ some after
  pub closed : after.closed ≡ true
  pub counted : get_open_position_count q ≡ get_open_position_count p
  pub no_fill :
      (now : ℕ) (price quantity : Decimal) (buy : Bool)
      → update_position divide now id price quantity buy q ≡ (err already_closed, q)
  pub no_position :
      (account exchange symbol side : Text) (entry_price quantity : Decimal)
      → register_position id account exchange symbol side entry_price quantity q
        ≡ (err already_exists, q)

-- A fill against an open position over its whole quantity is accepted and realizes its profit. The
-- position is closed, but stays filed: it is counted as open as before, every later fill for the
-- instance is refused, and so is every new position of it.
pub last_fill_closes :
    (divide : Division) (now : ℕ) (id : Text) (price : Decimal) (buy : Bool) (position : Position)
    (p : Portfolio)
    → lookup id p.positions ≡ some position
    → position.closed ≡ false
    → opens position.side buy ≡ false
    → let r = update_position divide now id price position.quantity buy p in
      (after : Position) × (r.0 ≡ ok after)
      × (after.realized_pnl
          ≡ add_dec position.realized_pnl
              (profit position.side position.entry_price price position.quantity))
      × UsedUp divide id after p r.1
unfolding get_open_position_count
last_fill_closes divide now id price buy position p e closed side =
    let after = reduced now price position.quantity position in
    let q : Portfolio = record p { positions = insert id after p.positions } in
    let run = closing_fill divide now id price buy position p e closed side in
    let found = lookup-insert_self id after p.positions in
    let over = reduced-closed now price position in
    let left : UsedUp divide id after p q = record {
      found = found;
      closed = over;
      counted = length-insert_old id after position p.positions e;
      no_fill = λ later price' quantity buy'.
          closed_refused divide later id price' quantity buy' after q found over;
      no_position = λ account exchange symbol side' entry_price quantity.
          taken_refused id account exchange symbol side' entry_price quantity after q found;
    } in
    (
      after,
      ap (λ r. r.0) run,
      realized now price position,
      subst (UsedUp divide id after p) (sym (ap (λ r. r.1) run)) left,
    )
