-- ===== src/Backtest/Matcher.antt =====
-- `class BacktestMatcher` of src/hqmts/backtest/matcher.py.
pub mod Bounds
pub mod Greatest
pub mod Agreement
use hqmts.Prelude.{
  ℕ, ◌*◌, ◌/◌, Bool, false, ◌&&◌, not, Option, none, some, List, [], ◌∷◌, if◌then◌else◌, ltb, leb,
}
use hqmts.Prelude.Int.{ℤ, pos, ◌+ℤ◌, ◌-ℤ◌, ◌*ℤ◌, leb_ℤ, ltb_ℤ, min_ℤ, floor_div}
use hqmts.Prelude.Decimal.{Decimal, Datetime, unit, int_quotient}
use hqmts.Backtest.Types.{
  Side, buy, sell, SignalType, open_long, close_long, open_short, close_short, OrderType, market,
  limit, BacktestOrder, Bar, Instrument,
}
use hqmts.Backtest.Cost.{
  CostModel, calculate_commission, calculate_stamp_tax, PriceLimitRule, is_within_limit,
}

pub data RejectReason : Type 0 where
  unsupported_signal_type t_plus_1_blocked price_limit_hit zero_volume : RejectReason
  insufficient_funds_or_volume limit_price_not_reached : RejectReason

pub record Fill : Type 0 where
  pub fill_price : Decimal
  pub fill_quantity : ℤ
  pub commission : Decimal
  pub stamp_tax : Decimal

-- `MatchResult`: filled, or a reason.
pub data MatchResult : Type 0 where
  filled : Fill → MatchResult
  rejected : RejectReason → MatchResult

-- The lot size is positive. `participation_rate` is a whole number of 10^-8: the product with a
-- volume is exact for a rate such as the default 0.25, which a float represents.
pub record BacktestMatcher : Type 0 where
  pub cost_model : CostModel
  pub price_limit : PriceLimitRule
  pub lot_size : ℕ
  pub participation_rate : ℕ

-- What a matching call is given besides the order.
pub record Market : Type 0 where
  pub target_bar : Bar
  pub prev_close : Decimal
  pub instrument : Instrument
  pub current_position : ℤ
  pub today_bought : ℤ
  pub available_cash : Decimal

unfoldable pub signal_to_side : SignalType → Option Side
signal_to_side open_long = some buy
signal_to_side close_short = some buy
signal_to_side close_long = some sell
signal_to_side open_short = some sell
signal_to_side _ = none

-- `(quantity // lot_size) * lot_size`
unfoldable pub round_to_lot : BacktestMatcher → ℤ → ℤ
round_to_lot m quantity = floor_div quantity m.lot_size *ℤ pos m.lot_size

unfoldable pub fill_price_of : BacktestMatcher → Bar → Side → Decimal
fill_price_of m bar buy = pos bar.open_price +ℤ m.cost_model.slippage
fill_price_of m bar sell = pos bar.open_price -ℤ m.cost_model.slippage

-- `int(available_cash / fill_price) if fill_price > 0 else 0`
abbrev pub max_by_cash : Decimal → Decimal → ℤ
max_by_cash cash price = if ltb_ℤ (pos 0) price then int_quotient cash price else pos 0

-- `int(volume * participation_rate)`
abbrev pub max_by_volume : BacktestMatcher → Bar → ℤ
max_by_volume m bar = pos (bar.volume * m.participation_rate / unit)

abbrev pub sellable_of : Market → ℤ
sellable_of k = k.current_position -ℤ k.today_bought

-- The bound of the side, cash or sellable shares, joined to that of the volume.
unfoldable pub raw_quantity : BacktestMatcher → Market → Side → ℤ
raw_quantity m k buy =
    min_ℤ (max_by_cash k.available_cash (fill_price_of m k.target_bar buy))
      (max_by_volume m k.target_bar)
raw_quantity m k sell = min_ℤ (sellable_of k) (max_by_volume m k.target_bar)

abbrev pub priced_fill : BacktestMatcher → Side → Decimal → ℤ → MatchResult
priced_fill m side price quantity = filled (record {
  fill_price = price;
  fill_quantity = quantity;
  commission = calculate_commission m.cost_model (price *ℤ quantity);
  stamp_tax = calculate_stamp_tax m.cost_model (price *ℤ quantity) side;
})

-- Steps 3 to 6 of `match_order`.
unfoldable pub match_side : BacktestMatcher → Market → Side → MatchResult
match_side m k side =
    let price : Decimal = fill_price_of m k.target_bar side in
    let quantity : ℤ = round_to_lot m (raw_quantity m k side) in
    if not
      (is_within_limit m.price_limit price k.prev_close k.instrument.is_st k.instrument.board_type)
    then rejected price_limit_hit
    else if leb k.target_bar.volume 0
    then rejected zero_volume
    else if leb_ℤ quantity (pos 0)
    then rejected insufficient_funds_or_volume
    else priced_fill m side price quantity

abbrev match_signal : BacktestMatcher → Market → Option Side → MatchResult
match_signal m k none = rejected unsupported_signal_type
match_signal m k (some sell) =
    if leb_ℤ (sellable_of k) (pos 0) then rejected t_plus_1_blocked else match_side m k sell
match_signal m k (some buy) = match_side m k buy

unfoldable pub match_order : BacktestMatcher → SignalType → Market → MatchResult
match_order m signal k = match_signal m k (signal_to_side signal)

abbrev pub limit_missed : OrderType → Option Decimal → Side → Decimal → Bool
limit_missed market price side open_price = false
limit_missed limit none side open_price = false
limit_missed limit (some price) buy open_price = ltb_ℤ price open_price
limit_missed limit (some price) sell open_price = ltb_ℤ open_price price

-- `min(order.quantity, ...)`; 0 stands for all that is available.
unfoldable pub order_quantity : BacktestMatcher → Market → BacktestOrder → ℤ
order_quantity m k order =
    if ltb_ℤ (pos 0) order.quantity
    then min_ℤ order.quantity (raw_quantity m k order.side)
    else raw_quantity m k order.side

abbrev pub no_quantity : Market → Side → MatchResult
no_quantity k sell =
    if leb_ℤ (sellable_of k) (pos 0)
    then rejected t_plus_1_blocked
    else rejected insufficient_funds_or_volume
no_quantity k buy = rejected insufficient_funds_or_volume

unfoldable pub match_order_from_bt : BacktestMatcher → BacktestOrder → Market → MatchResult
match_order_from_bt m order k =
    let price : Decimal = fill_price_of m k.target_bar order.side in
    let quantity : ℤ = round_to_lot m (order_quantity m k order) in
    if limit_missed order.order_type order.limit_price order.side (pos k.target_bar.open_price)
    then rejected limit_price_not_reached
    else if not (
        is_within_limit m.price_limit price k.prev_close k.instrument.is_st k.instrument.board_type)
    then rejected price_limit_hit
    else if leb k.target_bar.volume 0
    then rejected zero_volume
    else if leb_ℤ quantity (pos 0)
    then no_quantity k order.side
    else priced_fill m order.side price quantity

-- The first completed bar that starts after `current_bar_end`.
unfoldable pub get_next_tradeable_bar : Datetime → List Bar → Option Bar
get_next_tradeable_bar current_bar_end [] = none
get_next_tradeable_bar current_bar_end (bar ∷ bars) =
    let rest = get_next_tradeable_bar current_bar_end bars in
    if ltb current_bar_end bar.bar_start_time && bar.is_completed then some bar else rest
