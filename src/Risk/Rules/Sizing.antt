-- ===== src/Risk/Rules/Sizing.antt =====
-- The quantities that the resizing rules propose.
use native.Mathlib.Nat.{div-add-mod'}
use hqmts.Prelude.{
  ℕ, ◌+◌, ◌*◌, ◌/◌, ◌%◌, ◌<◌, ◌≡◌, ◌↔◌, ◌⊎◌, inl, inr, refl, true, none, some, arith,
}
use hqmts.Prelude.Int.{ℤ, pos, negsuc, ◌+ℤ◌, +ℤ_parts, ◌-ℤ◌, ◌≤ℤ◌, ◌<ℤ◌, trunc_div, max_ℤ}
use hqmts.Prelude.Decimal.{Decimal}
use hqmts.Prelude.Lots.{floor_div-mul, lots_bounds}
use hqmts.Risk.Types.{RiskContext, RiskRuleResult, resize}
use hqmts.Risk.Rules.Order.{min_lot_size_check, lot_answer}
use hqmts.Risk.Rules.Account.{min_available_cash, side_is}

-- A quantity cut to whole lots: positive, a multiple of the lot, and less than a lot below.
pub record CutToLots (lot : ℕ) (quantity resized : ℤ) : Type 0 where
  pub lots : ℕ
  pub whole : resized ≡ pos (lots * lot)
  pub positive : pos 0 <ℤ resized
  pub below : resized <ℤ quantity
  pub close : quantity <ℤ resized +ℤ pos lot

lot_answer-CutToLots :
    (lot : ℕ) (quantity : ℤ) (r : RiskRuleResult) (resized : ℤ)
    → 0 < lot
    → lot_answer lot quantity ≡ some r
    → r.resized_quantity ≡ some resized
    → (r.result_type ≡ resize) × CutToLots lot quantity resized
unfolding lot_answer
lot_answer-CutToLots lot (negsuc n) r resized h e f = ground arith
lot_answer-CutToLots lot (pos n) r resized h e f =
    let e' = rw (floor_div-mul lot n) at e in
    let b = lots_bounds lot n h in
    let m = div-add-mod' n lot in
    let same : resized ≡ pos (n / lot * lot) = ground arith in
    (
      ground arith,
      rw same (record {
        lots = n / lot;
        whole = refl;
        positive = ground arith;
        below = ground arith;
        close = ground (arith, +ℤ_parts (pos (n / lot * lot)) (pos lot));
      }),
    )

-- With a positive lot size, when the lot rule proposes a quantity it is a positive number of whole
-- lots, below the order's quantity by less than one lot.
pub min_lot_size_check-CutToLots :
    (lot : ℕ) (c : RiskContext) (r : RiskRuleResult) (resized : ℤ)
    → 0 < lot
    → (min_lot_size_check lot).check c ≡ some r
    → r.resized_quantity ≡ some resized
    → (r.result_type ≡ resize) × CutToLots lot c.quantity resized
unfolding min_lot_size_check
min_lot_size_check-CutToLots lot c r resized h e f =
    lot_answer-CutToLots lot c.quantity r resized h e f

lot_answer_passes :
    (lot : ℕ) (quantity : ℤ)
    → (lot_answer lot quantity ≡ none) ↔ ((n : ℕ) × (quantity ≡ pos n) × (0 < n) × (n % lot ≡ 0))
unfolding lot_answer
lot_answer_passes lot (negsuc n) = (λ h. ground arith, λ h. ground arith)
lot_answer_passes lot (pos n) =
    (λ h. (n, refl, ground arith, ground arith), λ (k, e, p, m). ground arith)

-- The lot rule passes exactly the positive multiples of the lot.
pub min_lot_size_check_passes :
    (lot : ℕ) (c : RiskContext)
    → ((min_lot_size_check lot).check c ≡ none)
      ↔ ((n : ℕ) × (c.quantity ≡ pos n) × (0 < n) × (n % lot ≡ 0))
unfolding min_lot_size_check
min_lot_size_check_passes lot c = lot_answer_passes lot c.quantity

-- The most that is affordable: `price * resized` fits into the spare cash, and one share more does
-- not; or it is nothing.
pub record Affordable (spare : ℤ) (price : ℕ) (resized : ℤ) : Type 0 where
  pub shares : ℕ
  pub value : resized ≡ pos shares
  pub fits : (pos (price * shares) ≤ℤ spare) ⊎ (shares ≡ 0)
  pub most : spare <ℤ pos (price * (shares + 1))

quotient-Affordable :
    (spare : ℤ) (price : ℕ)
    → 0 < price
    → Affordable spare price (max_ℤ (pos 0) (trunc_div spare price))
quotient-Affordable (pos n) price h = record {
  shares = n / price;
  value = ground arith;
  fits = inl (omega (arith, lots_bounds price n h));
  most = omega (arith, lots_bounds price n h);
}
quotient-Affordable (negsuc n) price h = record {
  shares = 0;
  value = ground arith;
  fits = inr refl;
  most = omega arith;
}

-- When the cash rule resizes, the order was a purchase and what it proposes is the most that the
-- cash above the minimum can pay.
pub min_available_cash-Affordable :
    (min_cash : Decimal) (c : RiskContext) (price : ℕ) (r : RiskRuleResult)
    → c.price ≡ pos price
    → (min_available_cash min_cash).check c ≡ some r
    → (resized : ℤ) × (r.resized_quantity ≡ some resized)
      × (r.result_type ≡ resize)
      × (side_is c.side "buy" ≡ true)
      × Affordable (c.account_available_cash -ℤ min_cash) price resized
unfolding min_available_cash
min_available_cash-Affordable min_cash c price r k e =
    let e' = rw k at e in
    (
      max_ℤ (pos 0) (trunc_div (c.account_available_cash -ℤ min_cash) price),
      ground arith,
      ground arith,
      ground arith,
      quotient-Affordable (c.account_available_cash -ℤ min_cash) price (ground arith),
    )
