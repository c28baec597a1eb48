-- ===== src/Backtest/Portfolio/Holdings.antt =====
-- T+1: no position is sold short, and no share is sold on the day it was bought.
use hqmts.Prelude.{◌<◌, String, ◌≡◌, inl, inr, refl, [], ◌∷◌, arith, All, map, Bool-cases}
use hqmts.Prelude.Int.{pos, ◌-ℤ◌, ◌≤ℤ◌, +ℤ_parts, -ℤ_parts, int_laws}
use hqmts.Prelude.Decimal.{Datetime}
use text.Mathlib.Text.{◌==◌ as str_eq}
use hqmts.Backtest.Types.{Side, buy, sell, BacktestOrder}
use hqmts.Backtest.Matcher.{BacktestMatcher, Market, Fill, filled, match_order_from_bt}
use hqmts.Backtest.Matcher.Bounds.{match_order_from_bt-Within}
use hqmts.Backtest.Portfolio.{
  Position, Positions, PortfolioState, insert, get_or_create_position, bought, sold,
  filled_position, apply_fill, reset_daily_state, rested,
}

-- The shares bought today are part of the position.
abbrev pub Held : Position → Type 0
Held p = (pos 0 ≤ℤ p.today_bought) × (p.today_bought ≤ℤ p.quantity)

abbrev pub AllHeld : Positions → Type 0
AllHeld = All (λ e. Held e.1)

bought-Held : (p : Position) (f : Fill) → pos 0 ≤ℤ f.fill_quantity → Held p → Held (bought p f)
unfolding bought
bought-Held p f n h = (
  omega (arith, h, n, +ℤ_parts p.today_bought f.fill_quantity),
  omega (arith, h, n, +ℤ_parts p.today_bought f.fill_quantity, +ℤ_parts p.quantity f.fill_quantity),
)

sold-Held :
    (p : Position) (f : Fill)
    → f.fill_quantity ≤ℤ p.quantity -ℤ p.today_bought
    → Held p
    → Held (sold p f)
unfolding sold
sold-Held p f n h = (
  h.0,
  omega (arith, h, n, -ℤ_parts p.quantity p.today_bought, -ℤ_parts p.quantity f.fill_quantity),
)

-- What the engine asks the matcher about a position.
abbrev pub About : Position → Market → Type 0
About p k = (k.current_position ≡ p.quantity) × (k.today_bought ≡ p.today_bought)

pub filled-Held :
    (m : BacktestMatcher) (order : BacktestOrder) (k : Market) (f : Fill) (side : Side)
    (p : Position)
    → 0 < m.lot_size
    → match_order_from_bt m order k ≡ filled f
    → About p k
    → order.side ≡ side
    → Held p
    → Held (filled_position side p f)
filled-Held m order k f buy p lot h a e v =
    let w = match_order_from_bt-Within m order k f lot h in
    bought-Held p f (rw w.whole (omega arith)) v
filled-Held m order k f sell p lot h a e v =
    let w = match_order_from_bt-Within m order k f lot h in
    sold-Held p f (rw (a.0, a.1) at (w.owned e)) v

pub get_or_create_position-Held :
    (iid : String) (d : Positions) → AllHeld d → Held (get_or_create_position iid d)
unfolding get_or_create_position
get_or_create_position-Held iid [] h = (omega arith, omega arith)
get_or_create_position-Held iid ((j, p) ∷ d) h = elim (Bool-cases (str_eq j iid)) [
  | inl e ↦ rw (e, get_or_create_position) h.0
  | inr e ↦ rw (e, get_or_create_position) (get_or_create_position-Held iid d h.1)
]

pub insert-AllHeld :
    (iid : String) (p : Position) (d : Positions) → Held p → AllHeld d → AllHeld (insert iid p d)
insert-AllHeld iid p [] v h = (v, tt)
insert-AllHeld iid p ((j, q) ∷ d) v h = elim (Bool-cases (str_eq j iid)) [
  | inl e ↦ rw e (v, h.1)
  | inr e ↦ rw e (h.0, insert-AllHeld iid p d v h.1)
]

-- Applying a fill that the matcher gave for the position of an instrument leaves every position
-- with 0 <= today_bought <= quantity, if it was so before: nothing is sold short, and nothing that
-- was bought today.
pub apply_fill-AllHeld :
    (m : BacktestMatcher) (order : BacktestOrder) (k : Market) (f : Fill) (timestamp : Datetime)
    (signal_id : String) (s : PortfolioState)
    → 0 < m.lot_size
    → match_order_from_bt m order k ≡ filled f
    → About (get_or_create_position order.instrument_id s.positions) k
    → AllHeld s.positions
    → AllHeld (apply_fill order.instrument_id order.side f timestamp signal_id s).positions
unfolding apply_fill
apply_fill-AllHeld m order k f timestamp signal_id s lot h a v =
    let p = get_or_create_position order.instrument_id s.positions in
    insert-AllHeld order.instrument_id (filled_position order.side p f) s.positions
      (filled-Held m order k f order.side p lot h a refl
        (get_or_create_position-Held order.instrument_id s.positions v))
      v

rested-AllHeld : (d : Positions) → AllHeld d → AllHeld (map rested d)
rested-AllHeld [] h = tt
rested-AllHeld ((j, p) ∷ d) h = ((omega arith, omega (arith, h.0)), rested-AllHeld d h.1)

rested_sellable :
    (d : Positions) → All (λ e. e.1.quantity -ℤ e.1.today_bought ≡ e.1.quantity) (map rested d)
rested_sellable [] = tt
rested_sellable ((j, p) ∷ d) = (omega int_laws, rested_sellable d)

-- A new day keeps it, and makes every share sellable.
pub reset_daily_state-AllHeld :
    (s : PortfolioState)
    → AllHeld s.positions
    → AllHeld (reset_daily_state s).positions
      × All (λ e. e.1.quantity -ℤ e.1.today_bought ≡ e.1.quantity) (reset_daily_state s).positions
unfolding reset_daily_state
reset_daily_state-AllHeld s h = (rested-AllHeld s.positions h, rested_sellable s.positions)
