-- ===== src/Backtest/Portfolio.antt =====
-- src/hqmts/backtest/portfolio.py. The dict of positions is an association list in the order of
-- insertion; a trade keeps its number, from which the code makes the text of its id.
pub mod Conservation
pub mod Holdings
use hqmts.Prelude.{
  ℕ, ◌+◌, String, Bool, false, ◌&&◌, Option, none, some, List, [], ◌∷◌, ◌++◌, map, if◌then◌else◌,
  length,
}
use hqmts.Prelude.Int.{ℤ, pos, ◌+ℤ◌, ◌-ℤ◌, ◌*ℤ◌, leb_ℤ, ltb_ℤ, trunc_div, pos_part}
use hqmts.Prelude.Decimal.{Decimal, Datetime}
use text.Mathlib.Text.{◌==◌ as str_eq}
use hqmts.Backtest.Types.{Side, buy, sell, Bar}
use hqmts.Backtest.Matcher.{Fill}

pub record Position : Type 0 where
  pub instrument_id : String
  pub quantity : ℤ
  pub today_bought : ℤ
  pub average_cost : Decimal
  pub market_value : Decimal
  pub stop_loss : Option Decimal
  pub take_profit : Option Decimal

unfoldable pub sellable : Position → ℤ
sellable p = p.quantity -ℤ p.today_bought

unfoldable pub check_stop_loss : Position → Decimal → Bool
check_stop_loss p price = elim p.stop_loss [
  | none ↦ false
  | some s ↦ ltb_ℤ (pos 0) p.quantity && leb_ℤ price s
]

unfoldable pub check_take_profit : Position → Decimal → Bool
check_take_profit p price = elim p.take_profit [
  | none ↦ false
  | some t ↦ ltb_ℤ (pos 0) p.quantity && leb_ℤ t price
]

pub record TradeRecord : Type 0 where
  pub trade_number : ℕ
  pub instrument_id : String
  pub side : Side
  pub price : Decimal
  pub quantity : ℤ
  pub commission : Decimal
  pub stamp_tax : Decimal
  pub timestamp : Datetime
  pub signal_id : String

-- The two fields that `snapshot_daily` leaves at 0 are omitted.
pub record DailyValue : Type 0 where
  pub trade_date : ℕ
  pub cash : Decimal
  pub market_value : Decimal
  pub total_asset : Decimal

abbrev pub Positions : Type 0
Positions = List (String × Position)

pub record PortfolioState : Type 0 where
  pub cash : Decimal
  pub initial_cash : Decimal
  pub positions : Positions
  pub trades : List TradeRecord
  pub daily_values : List DailyValue

abbrev pub lookup {ℓ} : {V : Type ℓ} → String → List (String × V) → Option V
lookup k [] = none
lookup k ((j, v) ∷ d) = let rest = lookup k d in if str_eq j k then some v else rest

-- `d[k] = v`
abbrev pub insert {ℓ} : {V : Type ℓ} → String → V → List (String × V) → List (String × V)
insert k v [] = (k, v) ∷ []
insert k v ((j, w) ∷ d) =
    let rest = insert k v d in if str_eq j k then (j, v) ∷ d else (j, w) ∷ rest

abbrev pub empty_position : String → Position
empty_position iid = record {
  instrument_id = iid;
  quantity = pos 0;
  today_bought = pos 0;
  average_cost = pos 0;
  market_value = pos 0;
  stop_loss = none;
  take_profit = none;
}

-- The position that `get_or_create_position` returns; whoever changes it writes it back.
unfoldable pub get_or_create_position : String → Positions → Position
get_or_create_position iid positions = elim (lookup iid positions) [
  | none ↦ empty_position iid
  | some p ↦ p
]

-- `(old_cost + new_cost) / quantity`, cut to eight places
abbrev pub weighted_cost : Position → Decimal → ℤ → ℤ → Decimal
weighted_cost p price quantity total =
    trunc_div (p.average_cost *ℤ (total -ℤ quantity) +ℤ price *ℤ quantity) (pos_part total)

unfoldable pub bought : Position → Fill → Position
bought p f =
    let total : ℤ = p.quantity +ℤ f.fill_quantity in
    record p {
      quantity = total;
      today_bought = p.today_bought +ℤ f.fill_quantity;
      average_cost =
          if ltb_ℤ (pos 0) total
          then weighted_cost p f.fill_price f.fill_quantity total
          else p.average_cost;
    }

unfoldable pub sold : Position → Fill → Position
sold p f = record p { quantity = p.quantity -ℤ f.fill_quantity }

abbrev pub filled_position : Side → Position → Fill → Position
filled_position buy p f = bought p f
filled_position sell p f = sold p f

abbrev pub filled_cash : Side → Decimal → Fill → Decimal
filled_cash buy cash f = cash -ℤ (f.fill_price *ℤ f.fill_quantity +ℤ f.commission +ℤ f.stamp_tax)
filled_cash sell cash f = cash +ℤ (f.fill_price *ℤ f.fill_quantity -ℤ f.commission -ℤ f.stamp_tax)

unfoldable pub apply_fill :
    String → Side → Fill → Datetime → String → PortfolioState → PortfolioState
unfolding get_or_create_position bought sold
apply_fill iid side f timestamp signal_id s = record s {
  cash = filled_cash side s.cash f;
  positions =
      insert iid (filled_position side (get_or_create_position iid s.positions) f) s.positions;
  trades =
      s.trades
      ++ record {
        trade_number = length s.trades + 1;
        instrument_id = iid;
        side = side;
        price = f.fill_price;
        quantity = f.fill_quantity;
        commission = f.commission;
        stamp_tax = f.stamp_tax;
        timestamp = timestamp;
        signal_id = signal_id;
      }
        ∷ [];
}

abbrev pub revalued : List (String × Decimal) → String × Position → String × Position
revalued prices (iid, p) = elim (lookup iid prices) [
  | none ↦ (iid, p)
  | some price ↦ (iid, record p { market_value = price *ℤ p.quantity })
]

unfoldable pub update_market_value_from_prices :
    List (String × Decimal) → PortfolioState → PortfolioState
update_market_value_from_prices prices s = record s {
  positions = map (revalued prices) s.positions;
}

-- The dict of closing prices: the last bar of an instrument wins.
abbrev price_map : List Bar → List (String × Decimal) → List (String × Decimal)
price_map [] prices = prices
price_map (bar ∷ bars) prices =
    price_map bars (insert bar.instrument_id (pos bar.close_price) prices)

unfoldable pub update_market_value : List Bar → PortfolioState → PortfolioState
unfolding update_market_value_from_prices
update_market_value bars = update_market_value_from_prices (price_map bars [])

unfoldable pub positions_value : Positions → Decimal
positions_value [] = pos 0
positions_value ((iid, p) ∷ positions) = p.market_value +ℤ positions_value positions

unfoldable pub calculate_total_asset : PortfolioState → Decimal
unfolding positions_value
calculate_total_asset s = s.cash +ℤ positions_value s.positions

abbrev or_else : Option Decimal → Option Decimal → Option Decimal
or_else none old = old
or_else (some price) old = some price

unfoldable pub update_stop_loss_take_profit :
    String → Option Decimal → Option Decimal → PortfolioState → PortfolioState
unfolding get_or_create_position
update_stop_loss_take_profit iid stop_loss take_profit s =
    let p = get_or_create_position iid s.positions in
    record s {
      positions =
          insert iid
            (record p {
              stop_loss = or_else stop_loss p.stop_loss;
              take_profit = or_else take_profit p.take_profit;
            })
            s.positions;
    }

-- The names of the positions whose test holds at the current price.
abbrev triggers : (Position → Decimal → Bool) → List (String × Decimal) → Positions → List String
triggers test prices [] = []
triggers test prices ((iid, p) ∷ positions) =
    let rest = triggers test prices positions in
    elim (lookup iid prices) [
      | none ↦ rest
      | some price ↦ if test p price then iid ∷ rest else rest
    ]

unfoldable pub check_stop_loss_triggers : List (String × Decimal) → PortfolioState → List String
unfolding check_stop_loss
check_stop_loss_triggers prices s = triggers check_stop_loss prices s.positions

unfoldable pub check_take_profit_triggers : List (String × Decimal) → PortfolioState → List String
unfolding check_take_profit
check_take_profit_triggers prices s = triggers check_take_profit prices s.positions

abbrev pub rested : String × Position → String × Position
rested (iid, p) = (iid, record p { today_bought = pos 0 })

unfoldable pub reset_daily_state : PortfolioState → PortfolioState
reset_daily_state s = record s { positions = map rested s.positions }

unfoldable pub snapshot_daily : ℕ → PortfolioState → PortfolioState
unfolding calculate_total_asset
snapshot_daily trade_date s = record s {
  daily_values =
      s.daily_values
      ++ record {
        trade_date = trade_date;
        cash = s.cash;
        market_value = positions_value s.positions;
        total_asset = calculate_total_asset s;
      }
        ∷ [];
}
