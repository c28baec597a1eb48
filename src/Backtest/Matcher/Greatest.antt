-- ===== src/Backtest/Matcher/Greatest.antt =====
-- The quantity of a fill as the greatest that the rules allow.
use hqmts.Prelude.{ℕ, ◌*◌, ◌<◌, ◌≤◌, ◌≡◌}
use hqmts.Prelude.Int.{ℤ, pos, ◌+ℤ◌, ◌*ℤ◌, ◌≤ℤ◌, ◌<ℤ◌}
use hqmts.Prelude.Decimal.{unit}
use hqmts.Backtest.Types.{Side, buy, sell, BacktestOrder}
use hqmts.Backtest.Matcher.{BacktestMatcher, Market, Fill}

-- A number of shares that the rules allow at a price: within the participation in the bar's volume,
-- within what was asked for, paid by the cash, or covered by the shares not bought today.
pub record Allowed (m : BacktestMatcher) (order : BacktestOrder) (k : Market) (price : ℤ) (n : ℕ)
    : Type 0 where
  pub volume : n * unit ≤ k.target_bar.volume * m.participation_rate
  pub asked : pos 0 <ℤ order.quantity → pos n ≤ℤ order.quantity
  pub paid : order.side ≡ buy → price *ℤ pos n ≤ℤ k.available_cash
  pub owned : order.side ≡ sell → pos n +ℤ k.today_bought ≤ℤ k.current_position

-- The price of a side: the opening price, worse by the slippage.
abbrev pub Slipped : BacktestMatcher → Market → Side → ℤ → Type 0
Slipped m k buy price = price ≡ pos k.target_bar.open_price +ℤ m.cost_model.slippage
Slipped m k sell price = price +ℤ m.cost_model.slippage ≡ pos k.target_bar.open_price

-- A fill of as many lots as the rules allow.
pub record Greatest (m : BacktestMatcher) (order : BacktestOrder) (k : Market) (f : Fill)
    : Type 0 where
  pub lots : ℕ
  pub whole : f.fill_quantity ≡ pos (lots * m.lot_size)
  pub positive : 0 < lots
  pub price : Slipped m k order.side f.fill_price
  pub allowed : Allowed m order k f.fill_price (lots * m.lot_size)
  pub greatest : (n : ℕ) → Allowed m order k f.fill_price (n * m.lot_size) → n ≤ lots
