-- ===== src/Backtest/Matcher/Bounds.antt =====
-- What a fill of `match_order_from_bt` is held within.
use hqmts.Prelude.{ℕ, ◌*◌, ◌<◌, ◌≡◌, inl, inr, refl, ap, ◌∙◌, true, false, arith, Bool-cases, leb}
use hqmts.Prelude.Int.{ℤ, pos, ◌*ℤ◌, ◌-ℤ◌, ◌≤ℤ◌, ◌<ℤ◌, leb_ℤ, ltb_ℤ, min_ℤ}
use hqmts.Prelude.Lots.{Lots, floor_div-Lots, quotient_pays}
use hqmts.Backtest.Types.{Side, buy, sell, BacktestOrder}
use hqmts.Backtest.Cost.{is_within_limit, calculate_commission, calculate_stamp_tax}
use hqmts.Backtest.Matcher.{
  BacktestMatcher, Market, Fill, filled, fill_price_of, max_by_cash, max_by_volume, sellable_of,
  raw_quantity, order_quantity, round_to_lot, match_order_from_bt, priced_fill, limit_missed,
  no_quantity,
}

-- A fill of the quantity that the code computes for the order, cut to lots, at the slipped opening price, inside the band of the
-- daily price limit and of a bar with volume, with the costs of its price and quantity.
pub record Priced (m : BacktestMatcher) (order : BacktestOrder) (k : Market) (f : Fill)
    : Type 0 where
  pub price : f.fill_price ≡ fill_price_of m k.target_bar order.side
  pub quantity : f.fill_quantity ≡ round_to_lot m (order_quantity m k order)
  pub positive : pos 0 <ℤ f.fill_quantity
  pub band :
      is_within_limit m.price_limit f.fill_price k.prev_close k.instrument.is_st
        k.instrument.board_type
      ≡ true
  pub volume : 0 < k.target_bar.volume
  pub commission :
      f.commission ≡ calculate_commission m.cost_model (f.fill_price *ℤ f.fill_quantity)
  pub stamp_tax :
      f.stamp_tax ≡ calculate_stamp_tax m.cost_model (f.fill_price *ℤ f.fill_quantity) order.side

pub no_quantity-ne_filled :
    (k : Market) (side : Side) (f : Fill) → no_quantity k side ≡ filled f → ⊥
no_quantity-ne_filled k buy f h = cc
no_quantity-ne_filled k sell f h = ground arith

Priced-of_fill :
    (m : BacktestMatcher) (order : BacktestOrder) (k : Market) (f : Fill) (quantity : ℤ)
    → quantity ≡ round_to_lot m (order_quantity m k order)
    → leb_ℤ quantity (pos 0) ≡ false
    → is_within_limit m.price_limit
        (fill_price_of m k.target_bar order.side)
        k.prev_close
        k.instrument.is_st
        k.instrument.board_type
      ≡ true
    → 0 < k.target_bar.volume
    → priced_fill m order.side (fill_price_of m k.target_bar order.side) quantity ≡ filled f
    → Priced m order k f
Priced-of_fill m order k f quantity q p b v h = record {
  price = ground arith;
  quantity = ground arith;
  positive = ground arith;
  band = ground arith;
  volume = v;
  commission = ground arith;
  stamp_tax = ground arith;
}

-- Every fill of an order is positive, the computed quantity cut to lots, at the slipped opening
-- price, inside the band of the daily price limit, of a bar with volume, and carries the commission and
-- stamp tax that the cost model computes for it.
pub match_order_from_bt-Priced :
    (m : BacktestMatcher) (order : BacktestOrder) (k : Market) (f : Fill)
    → match_order_from_bt m order k ≡ filled f
    → Priced m order k f
unfolding match_order_from_bt
match_order_from_bt-Priced m order k f h =
    let price = fill_price_of m k.target_bar order.side in
    let quantity = round_to_lot m (order_quantity m k order) in
    elim (Bool-cases
      (limit_missed order.order_type order.limit_price order.side (pos k.target_bar.open_price))) [
        | inl e ↦ absurd (cc (rw e at h))
        | inr e ↦
            elim (Bool-cases (
              is_within_limit m.price_limit price k.prev_close k.instrument.is_st
                k.instrument.board_type)) [
                  | inr b ↦ absurd (cc (rw (e, b) at h))
                  | inl b ↦ elim (Bool-cases (leb k.target_bar.volume 0)) [
                    | inl v ↦ absurd (cc (rw (e, b, v) at h))
                    | inr v ↦ elim (Bool-cases (leb_ℤ quantity (pos 0))) [
                      | inl z ↦ absurd (no_quantity-ne_filled k order.side f (rw (e, b, v, z) at h))
                      | inr z ↦
                          Priced-of_fill m order k f quantity refl z b (ground arith)
                            (rw (e, b, v, z) at h)
                    ]
                  ]
                ]
      ]

pub min_ℤ-le : (a b : ℤ) → (min_ℤ a b ≤ℤ a) × (min_ℤ a b ≤ℤ b)
min_ℤ-le a b = (ground arith, ground arith)

pub order_quantity-le :
    (m : BacktestMatcher) (order : BacktestOrder) (k : Market)
    → (order_quantity m k order ≤ℤ raw_quantity m k order.side)
      × (pos 0 <ℤ order.quantity → order_quantity m k order ≤ℤ order.quantity)
unfolding order_quantity
order_quantity-le m order k = elim (Bool-cases (ltb_ℤ (pos 0) order.quantity)) [
  | inl e ↦ rw e (
    (min_ℤ-le order.quantity (raw_quantity m k order.side)).1,
    λ p. (min_ℤ-le order.quantity (raw_quantity m k order.side)).0,
  )
  | inr e ↦ rw e (omega arith, λ p. absurd (ground arith))
]

pub raw_quantity-le :
    (m : BacktestMatcher) (k : Market) (side : Side)
    → (raw_quantity m k side ≤ℤ max_by_volume m k.target_bar)
      × (side ≡ buy
          → raw_quantity m k side
            ≤ℤ max_by_cash k.available_cash (fill_price_of m k.target_bar buy))
      × (side ≡ sell → raw_quantity m k side ≤ℤ sellable_of k)
unfolding raw_quantity
raw_quantity-le m k buy =
    let b =
      min_ℤ-le (max_by_cash k.available_cash (fill_price_of m k.target_bar buy))
        (max_by_volume m k.target_bar) in
    (b.1, λ e. b.0, λ e. absurd (cc e))
raw_quantity-le m k sell =
    let b = min_ℤ-le (sellable_of k) (max_by_volume m k.target_bar) in
    (b.1, λ e. absurd (cc e), λ e. b.0)

-- The bounds of a fill together: a positive number of whole lots, within the participation in the bar's volume, within
-- what was asked for, and within the cash (before costs) or the shares not bought today.
pub record Within (m : BacktestMatcher) (order : BacktestOrder) (k : Market) (f : Fill)
    : Type 0 where
  pub lots : ℕ
  pub whole : f.fill_quantity ≡ pos (lots * m.lot_size)
  pub positive : 0 < lots * m.lot_size
  pub volume : f.fill_quantity ≤ℤ max_by_volume m k.target_bar
  pub asked : pos 0 <ℤ order.quantity → f.fill_quantity ≤ℤ order.quantity
  pub paid : order.side ≡ buy → f.fill_price *ℤ f.fill_quantity ≤ℤ k.available_cash
  pub owned : order.side ≡ sell → f.fill_quantity ≤ℤ sellable_of k

pub ≤ℤ_trans : (a b c : ℤ) → a ≤ℤ b → b ≤ℤ c → a ≤ℤ c
≤ℤ_trans a b c h k = omega arith

cash_pays :
    (cash price : ℤ) (n : ℕ) → 0 < n → pos n ≤ℤ max_by_cash cash price → price *ℤ pos n ≤ℤ cash
cash_pays cash price n h k = elim (Bool-cases (ltb_ℤ (pos 0) price)) [
  | inl e ↦ quotient_pays cash price n h (ground arith) (rw e at k)
  | inr e ↦ absurd (let z = rw e at k in omega arith)
]

paid_of :
    (cash price p q : ℤ) (n : ℕ)
    → p ≡ price
    → q ≡ pos n
    → 0 < n
    → q ≤ℤ max_by_cash cash price
    → p *ℤ q ≤ℤ cash
paid_of cash price p q n e d h k = rw (e, d) (cash_pays cash price n h (rw d at k))

pub Priced-Lots :
    (m : BacktestMatcher) (order : BacktestOrder) (k : Market) (f : Fill)
    → 0 < m.lot_size
    → Priced m order k f
    → Lots m.lot_size (order_quantity m k order) f.fill_quantity
unfolding round_to_lot
Priced-Lots m order k f lot p =
    rw p.quantity
      (floor_div-Lots m.lot_size (order_quantity m k order) lot (rw p.quantity at p.positive))

pub match_order_from_bt-Within :
    (m : BacktestMatcher) (order : BacktestOrder) (k : Market) (f : Fill)
    → 0 < m.lot_size
    → match_order_from_bt m order k ≡ filled f
    → Within m order k f
match_order_from_bt-Within m order k f lot h =
    let p = match_order_from_bt-Priced m order k f h in
    let cut = Priced-Lots m order k f lot p in
    let o = order_quantity-le m order k in
    let r = raw_quantity-le m k order.side in
    let q = order_quantity m k order in
    let raw = raw_quantity m k order.side in
    let at_most = ≤ℤ_trans f.fill_quantity q raw cut.below o.0 in
    record {
      lots = cut.lots;
      whole = cut.whole;
      positive = cut.positive;
      volume = ≤ℤ_trans f.fill_quantity raw (max_by_volume m k.target_bar) at_most r.0;
      asked = λ a. ≤ℤ_trans f.fill_quantity q order.quantity cut.below (o.1 a);
      paid = λ e.
          paid_of k.available_cash (fill_price_of m k.target_bar buy) f.fill_price f.fill_quantity
            (cut.lots * m.lot_size) (p.price ∙ ap (fill_price_of m k.target_bar) e) cut.whole
            cut.positive
            (≤ℤ_trans f.fill_quantity raw
              (max_by_cash k.available_cash (fill_price_of m k.target_bar buy)) at_most (r.1 e));
      owned = λ e. ≤ℤ_trans f.fill_quantity raw (sellable_of k) at_most (r.2 e);
    }

-- A fill for more than nothing: a positive number of whole lots, within the participation rate's
-- share of the bar's volume.
pub record WholeLots (m : BacktestMatcher) (k : Market) (quantity : ℤ) : Type 0 where
  pub lots : ℕ
  pub whole : quantity ≡ pos (lots * m.lot_size)
  pub positive : 0 < lots * m.lot_size
  pub volume : quantity ≤ℤ max_by_volume m k.target_bar

-- Every fill of an order, for a positive lot size, is of a positive number of whole lots and at
-- most the bar's volume times the participation rate, cut to a whole number.
pub fill-WholeLots :
    (m : BacktestMatcher) (order : BacktestOrder) (k : Market) (f : Fill)
    → 0 < m.lot_size
    → match_order_from_bt m order k ≡ filled f
    → WholeLots m k f.fill_quantity
fill-WholeLots m order k f lot h =
    let w = match_order_from_bt-Within m order k f lot h in
    record { lots = w.lots; whole = w.whole; positive = w.positive; volume = w.volume }

-- A fill of an order for a positive quantity, for a positive lot size, does not exceed the order.
pub fill_asked :
    (m : BacktestMatcher) (order : BacktestOrder) (k : Market) (f : Fill)
    → 0 < m.lot_size
    → pos 0 <ℤ order.quantity
    → match_order_from_bt m order k ≡ filled f
    → f.fill_quantity ≤ℤ order.quantity
fill_asked m order k f lot q h = (match_order_from_bt-Within m order k f lot h).asked q

-- What a fill of a buy order costs before commission, for a positive lot size, is at most the
-- available cash.
pub fill_paid :
    (m : BacktestMatcher) (order : BacktestOrder) (k : Market) (f : Fill)
    → 0 < m.lot_size
    → order.side ≡ buy
    → match_order_from_bt m order k ≡ filled f
    → f.fill_price *ℤ f.fill_quantity ≤ℤ k.available_cash
fill_paid m order k f lot e h = (match_order_from_bt-Within m order k f lot h).paid e

-- A fill of a sell order, for a positive lot size, is at most the shares held less those bought
-- today: the T+1 rule.
pub fill_owned :
    (m : BacktestMatcher) (order : BacktestOrder) (k : Market) (f : Fill)
    → 0 < m.lot_size
    → order.side ≡ sell
    → match_order_from_bt m order k ≡ filled f
    → f.fill_quantity ≤ℤ k.current_position -ℤ k.today_bought
fill_owned m order k f lot e h = (match_order_from_bt-Within m order k f lot h).owned e
