-- ===== src/Backtest/Matcher/Agreement.antt =====
-- The two entry points of the matcher agree on a market order for all that is available.
use hqmts.Prelude.{
  ◌<◌, ◌≡◌, ◌↔◌, refl, inl, inr, Bool, true, false, some, arith, Bool-cases, leb, not,
  if◌then◌else◌,
}
use hqmts.Prelude.Int.{ℤ, pos, ◌<ℤ◌, leb_ℤ}
use hqmts.Backtest.Types.{Side, buy, sell, SignalType, market, BacktestOrder}
use hqmts.Backtest.Cost.{is_within_limit}
use hqmts.Backtest.Matcher.{
  BacktestMatcher, Market, MatchResult, rejected, price_limit_hit, zero_volume,
  insufficient_funds_or_volume, priced_fill, Fill, filled, fill_price_of, sellable_of, raw_quantity,
  signal_to_side, match_signal, order_quantity, round_to_lot, match_side, match_order,
  match_order_from_bt, no_quantity,
}
use hqmts.Backtest.Matcher.Bounds.{no_quantity-ne_filled, match_order_from_bt-Within}

-- A market order for all that is available.
pub record Plain (order : BacktestOrder) : Type 0 where
  pub market_order : order.order_type ≡ market
  pub all : order.quantity ≡ pos 0

-- The guards that both entry points have, with the answer when no whole lot is left.
abbrev guarded : BacktestMatcher → Market → Side → MatchResult → MatchResult
guarded m k side nothing =
    let quantity : ℤ = round_to_lot m (raw_quantity m k side) in
    if not (
      is_within_limit m.price_limit (fill_price_of m k.target_bar side) k.prev_close
        k.instrument.is_st k.instrument.board_type)
    then rejected price_limit_hit
    else if leb k.target_bar.volume 0
    then rejected zero_volume
    else if leb_ℤ quantity (pos 0)
    then nothing
    else priced_fill m side (fill_price_of m k.target_bar side) quantity

filled_either :
    (a b c : Bool) (x y w : MatchResult) (z t : MatchResult) (f : Fill)
    → (z ≡ filled f → ⊥)
    → (if a then x else if b then y else if c then z else w) ≡ filled f
    → (if a then x else if b then y else if c then t else w) ≡ filled f
filled_either true b c x y w z t f n h = h
filled_either false true c x y w z t f n h = h
filled_either false false true x y w z t f n h = absurd (n h)
filled_either false false false x y w z t f n h = h

guarded-filled :
    (m : BacktestMatcher) (k : Market) (side : Side) (z t : MatchResult) (f : Fill)
    → (z ≡ filled f → ⊥)
    → guarded m k side z ≡ filled f
    → guarded m k side t ≡ filled f
guarded-filled m k side z t f n h =
    let quantity : ℤ = round_to_lot m (raw_quantity m k side) in
    let price = fill_price_of m k.target_bar side in
    filled_either
      (not (
        is_within_limit m.price_limit price k.prev_close k.instrument.is_st
          k.instrument.board_type))
      (leb k.target_bar.volume 0) (leb_ℤ quantity (pos 0)) (rejected price_limit_hit)
      (rejected zero_volume) (priced_fill m side price quantity) z t f n h

match_order_from_bt-guarded :
    (m : BacktestMatcher) (order : BacktestOrder) (k : Market)
    → Plain order
    → match_order_from_bt m order k ≡ guarded m k order.side (no_quantity k order.side)
unfolding match_order_from_bt order_quantity
match_order_from_bt-guarded m order k p = rw (p.market_order, p.all) refl

match_side-guarded :
    (m : BacktestMatcher) (k : Market) (side : Side)
    → match_side m k side ≡ guarded m k side (rejected insufficient_funds_or_volume)
unfolding match_side
match_side-guarded m k side = refl

match_signal-match_side :
    (m : BacktestMatcher) (k : Market) (side : Side) (f : Fill)
    → match_signal m k (some side) ≡ filled f
    → match_side m k side ≡ filled f
match_signal-match_side m k buy f h = h
match_signal-match_side m k sell f h = elim (Bool-cases (leb_ℤ (sellable_of k) (pos 0))) [
  | inl e ↦ absurd (cc (rw e at h))
  | inr e ↦ rw e at h
]

-- A signal that the first entry point fills is filled alike by the second one, for a market order
-- of quantity 0 on the side that the signal stands for.
pub match_order-match_order_from_bt :
    (m : BacktestMatcher) (signal : SignalType) (order : BacktestOrder) (k : Market) (f : Fill)
    → signal_to_side signal ≡ some order.side
    → Plain order
    → match_order m signal k ≡ filled f
    → match_order_from_bt m order k ≡ filled f
unfolding match_order
match_order-match_order_from_bt m signal order k f e p h =
    let h : match_signal m k (some order.side) ≡ filled f = rw e at h in
    rw (match_order_from_bt-guarded m order k p) (
      guarded-filled m k order.side (rejected insufficient_funds_or_volume)
        (no_quantity k order.side) f (λ c. cc c)
        (rw (match_side-guarded m k order.side) at (match_signal-match_side m k order.side f h)))

match_side-match_signal :
    (m : BacktestMatcher) (k : Market) (side : Side) (f : Fill)
    → (side ≡ sell → pos 0 <ℤ sellable_of k)
    → match_side m k side ≡ filled f
    → match_signal m k (some side) ≡ filled f
match_side-match_signal m k buy f o h = h
match_side-match_signal m k sell f o h =
    let z : leb_ℤ (sellable_of k) (pos 0) ≡ false = (let p = o refl in ground arith) in rw z h

-- What the second entry point fills for a market order of quantity 0 on the signal's side, the first
-- one fills alike for the signal, for a positive lot size.
pub match_order_from_bt-match_order :
    (m : BacktestMatcher) (signal : SignalType) (order : BacktestOrder) (k : Market) (f : Fill)
    → 0 < m.lot_size
    → signal_to_side signal ≡ some order.side
    → Plain order
    → match_order_from_bt m order k ≡ filled f
    → match_order m signal k ≡ filled f
unfolding match_order
match_order_from_bt-match_order m signal order k f lot e p h =
    let w = match_order_from_bt-Within m order k f lot h in
    let positive : pos 0 <ℤ f.fill_quantity = rw w.whole (omega (arith, w.positive)) in
    rw e (
      match_side-match_signal m k order.side f
        (λ s. let o = w.owned s in omega (arith, o, positive))
        (rw (match_side-guarded m k order.side) (
          guarded-filled m k order.side (no_quantity k order.side)
            (rejected insufficient_funds_or_volume) f (no_quantity-ne_filled k order.side f)
            (rw (match_order_from_bt-guarded m order k p) at h))))

-- For a market order of quantity 0 on the side that a signal stands for, and a positive lot size,
-- the two entry points of the matcher fill alike: the one that takes the order gives a fill exactly
-- when the one that takes the signal gives the same fill.
pub match_order_from_bt-iff-match_order :
    (m : BacktestMatcher) (signal : SignalType) (order : BacktestOrder) (k : Market) (f : Fill)
    → 0 < m.lot_size
    → signal_to_side signal ≡ some order.side
    → Plain order
    → (match_order_from_bt m order k ≡ filled f) ↔ (match_order m signal k ≡ filled f)
match_order_from_bt-iff-match_order m signal order k f lot e p = (
  match_order_from_bt-match_order m signal order k f lot e p,
  match_order-match_order_from_bt m signal order k f e p,
)
