-- ===== src/Recovery/Coordinator/Positions.antt =====
-- The positions that recover_instance of the coordinator leaves in the portfolio.
use utos.Prelude.{
  ℕ, ◌≡◌, refl, ap, sym, subst, Bool, true, false, Option, none, some, List, [], ◌∷◌, ◌++◌, Result,
  ok, err, arith, All, if◌then◌else◌, filter,
}
use utos.Prelude.Text.{Text, codes}
use utos.Prelude.Dict.{
  Dict, insert, lookup, values, text_key, lookup-insert, lookup-erase, lookup-erase_self,
}
use utos.Risk.Portfolio.{
  Portfolio, Position, close_position, PortfolioFault, close_found, register_position,
  get_positions, opened, long, short,
}
use utos.Recovery.Reconciler.{
  PositionEntry, close_stale, symbol_member, reconcile_portfolio, add_missing,
}
use utos.Recovery.Coordinator.{
  InstanceContext, Sources, RecoveryCoordinator, unless_refused, rebuild, fetched,
  recover_portfolio, reconcilers, state_after, recover_registered, recover_known, recover_instance,
}
use utos.Prelude.Decimal.{Decimal}

-- p' has no positions but those of p
Within : Portfolio → Portfolio → Type 0
Within p' p =
    (k : Text) (q : Position) → lookup k p'.positions ≡ some q → lookup k p.positions ≡ some q

close_found-Within :
    (found : Option Position) (now : ℕ) (k : Text) (p : Portfolio)
    → Within (close_found found now k p).1 p
unfolding Within
close_found-Within none now k p = λ j q h. h
close_found-Within (some position) now k p =
    λ j q h. ground (arith, lookup-erase k j p.positions, h)

close_position-Within : (now : ℕ) (k : Text) (p : Portfolio) → Within (close_position now k p).1 p
unfolding close_position
close_position-Within now k p = close_found-Within (lookup k p.positions) now k p

close_found-gone :
    (found : Option Position) (now : ℕ) (k : Text) (p : Portfolio)
    → lookup k p.positions ≡ found
    → lookup k (close_found found now k p).1.positions ≡ none
close_found-gone none now k p e = e
close_found-gone (some position) now k p e = lookup-erase_self k p.positions

close_position-gone :
    (now : ℕ) (k : Text) (p : Portfolio) → lookup k (close_position now k p).1.positions ≡ none
unfolding close_position
close_position-gone now k p = close_found-gone (lookup k p.positions) now k p refl

if_Within : (b : Bool) (p' p : Portfolio) → Within p' p → Within (if b then p' else p) p
unfolding Within
if_Within true p' p h = h
if_Within false p' p h = λ k q e. e

close_stale-Within :
    (now : ℕ) (ps : List Position) (p : Portfolio) → Within (close_stale now [] ps p).1 p
unfolding close_stale Within
close_stale-Within now [] p = λ j q h. h
close_stale-Within now (position ∷ ps) p = λ j q h.
    if_Within _ (close_position now position.instance_id p).1 p
      (close_position-Within now position.instance_id p) j q (close_stale-Within now ps _ j q h)

found_none :
    (o u : Option Position) → ((q : Position) → o ≡ some q → u ≡ some q) → u ≡ none → o ≡ none
found_none none u h e = refl
found_none (some q) u h e = ground (arith, h q refl, e)

Within-none :
    (p' p : Portfolio) (k : Text)
    → Within p' p
    → lookup k p.positions ≡ none
    → lookup k p'.positions ≡ none
unfolding Within
Within-none p' p k h e = found_none (lookup k p'.positions) (lookup k p.positions) (h k) e

-- open positions are not filed any more
close_stale-closes :
    (now : ℕ) (ps : List Position) (p : Portfolio)
    → All
        (λ q. q.closed ≡ false → lookup q.instance_id (close_stale now [] ps p).1.positions ≡ none)
        ps
unfolding close_stale symbol_member
close_stale-closes now [] p = tt
close_stale-closes now (position ∷ ps) p = (
  λ e.
      Within-none _ _ position.instance_id (close_stale-Within now ps _)
        (rw e (close_position-gone now position.instance_id p)),
  close_stale-closes now ps _,
)

if_found :
    (P : Position → Type 0) (b : Bool) (v q : Position) (o : Option Position)
    → (if b then some v else o) ≡ some q
    → P v
    → (o ≡ some q → P q)
    → P q
if_found P true v q o e h g = let same : v ≡ q = cc e in subst P same h
if_found P false v q o e h g = g e

values-All :
    (P : Position → Type 0) (k : Text) (q : Position) (d : Dict Text Position)
    → All P (values d)
    → lookup k d ≡ some q
    → P q
unfolding lookup
values-All P k q [] h e = ground (arith, e)
values-All P k q ((j, v) ∷ d) h e =
    if_found P (text_key.beq j k) v q (lookup k d) e h.0 (values-All P k q d h.1)

-- every position is filed under its instance
unfoldable pub Keyed : Portfolio → Type 0
Keyed p = (k : Text) (q : Position) → lookup k p.positions ≡ some q → q.instance_id ≡ k

pub Keyed-insert :
    (id : Text) (q : Position) (p : Portfolio)
    → q.instance_id ≡ id
    → Keyed p
    → Keyed (record p { positions = insert id q p.positions })
unfolding Keyed
Keyed-insert id q p same h =
    λ k r e. ground (arith, lookup-insert id k q p.positions, h k r, text_key.beq_iff id k, same, e)

register_position-Keyed :
    (id account exchange symbol side : Text) (entry_price quantity : Decimal) (p : Portfolio)
    → Keyed p
    → Keyed (register_position id account exchange symbol side entry_price quantity p).1
unfolding register_position
register_position-Keyed id account exchange symbol side entry_price quantity p h =
    let long_kept =
      Keyed-insert id (opened id account exchange symbol long entry_price quantity) p refl h in
    let short_kept =
      Keyed-insert id (opened id account exchange symbol short entry_price quantity) p refl h in
    ground arith

unless_refused-Keyed :
    (r : Result PortfolioFault Position) (rest p : Portfolio)
    → Keyed rest
    → Keyed p
    → Keyed (unless_refused r rest p)
unless_refused-Keyed (ok position) rest p h g = h
unless_refused-Keyed (err x) rest p h g = g

rebuild-Keyed :
    (id : Text) (entries : List PositionEntry) (p : Portfolio)
    → Keyed p
    → Keyed (rebuild id entries p)
unfolding rebuild
rebuild-Keyed id [] p h = h
rebuild-Keyed id (entry ∷ entries) p h =
    let kept =
      register_position-Keyed id (codes "recovered-" ++ id) (codes "recovered") entry.symbol
        entry.side entry.entry_price entry.quantity p h in
    unless_refused-Keyed _ _ _ (rebuild-Keyed id entries _ kept) kept

fetched-Keyed :
    (id : Text) (answer : Result ℕ (List PositionEntry)) (p : Portfolio)
    → Keyed p
    → Keyed (fetched id answer p)
fetched-Keyed id (ok entries) p h = rebuild-Keyed id entries p h
fetched-Keyed id (err x) p h = h

recover_portfolio-Keyed :
    (fetch : Option (Text → Result ℕ (List PositionEntry))) (id : Text) (p : Portfolio)
    → Keyed p
    → Keyed (recover_portfolio fetch id p)
unfolding recover_portfolio
recover_portfolio-Keyed none id p h = h
recover_portfolio-Keyed (some fetch) id p h = fetched-Keyed id (fetch id) p h

all_matching : (ps : List Position) → filter (λ q. true) ps ≡ ps
all_matching [] = refl
all_matching (p ∷ ps) = ap (λ qs. p ∷ qs) (all_matching ps)

closed_or_gone :
    (b : Bool) (d : Dict Text Position) (i k : Text) (q : Position)
    → (b ≡ false → lookup i d ≡ none)
    → i ≡ k
    → lookup k d ≡ some q
    → b ≡ true
closed_or_gone true d i k q gone same e = refl
closed_or_gone false d i k q gone same e =
    let missing = gone refl in
    let missing' = subst (λ j. lookup j d ≡ none) same missing in ground (arith, missing', e)

-- the second phase, over all positions, leaves closed ones
reconciled_closed :
    (now : ℕ) (id : Text) (p : Portfolio)
    → Keyed p
    → (k : Text) (q : Position)
    → lookup k (reconcile_portfolio now id (get_positions none none none none p) [] p).1.positions
      ≡ some q
    → q.closed ≡ true
unfolding reconcile_portfolio get_positions add_missing Keyed Within
reconciled_closed now id p h k q e =
    let ps = filter (λ r. true) (values p.positions) in
    let before = close_stale-Within now ps p k q e in
    let gone =
      values-All
        (λ r. r.closed ≡ false → lookup r.instance_id (close_stale now [] ps p).1.positions ≡ none)
        k q p.positions
        (subst
          (All (λ r.
            r.closed ≡ false → lookup r.instance_id (close_stale now [] ps p).1.positions ≡ none))
          (all_matching (values p.positions)) (close_stale-closes now ps p))
        before in
    closed_or_gone q.closed _ q.instance_id k q gone (h k q before) e

-- no position that is filed is open
abbrev pub AllClosed : Portfolio → Type 0
AllClosed p = (k : Text) (q : Position) → lookup k p.positions ≡ some q → q.closed ≡ true

-- What a recovery makes of the rebuilt portfolio, where the reconciler acts on it or on its own.
abbrev pub LeftIn : Option Portfolio → Portfolio → Portfolio → Type 0
LeftIn none rebuilt after = AllClosed after
LeftIn (some own) rebuilt after = after ≡ rebuilt

reconciled-LeftIn :
    (now : ℕ) (id : Text) (own : Option Portfolio) (p : Portfolio)
    → Keyed p
    → LeftIn own p (
        state_after own p
          (reconcile_portfolio now id
            (get_positions none none none none p)
            []
            (reconcilers own p)).1)
reconciled-LeftIn now id none p h = reconciled_closed now id p h
reconciled-LeftIn now id (some own) p h = refl

-- After a recovery of a registered instance, whatever the sources answer, if every position was
-- filed under its instance: where the state recovery and the reconciler were given one portfolio, no
-- position of any instance is open, and what is still filed is closed; where each has its own, the
-- portfolio is as the state recovery rebuilt it, so that the reconciliation changed nothing of it.
pub recover_instance_closes :
    (src : Sources) (started now : ℕ) (id : Text) (context : InstanceContext)
    (c : RecoveryCoordinator)
    → lookup id c.instances ≡ some context
    → Keyed c.portfolio
    → LeftIn c.reconciler_portfolio
        (recover_portfolio src.fetch_positions id c.portfolio)
        (recover_instance src started now id c).1.portfolio
unfolding recover_instance recover_registered
recover_instance_closes src started now id context c e h =
    subst
      (λ o.
        LeftIn c.reconciler_portfolio (recover_portfolio src.fetch_positions id c.portfolio)
          (recover_known src started now id o c).1.portfolio)
      (sym e)
      (reconciled-LeftIn now id c.reconciler_portfolio
        (recover_portfolio src.fetch_positions id c.portfolio)
        (recover_portfolio-Keyed src.fetch_positions id c.portfolio h))
