-- ===== src/Execution/Paper/Trades.antt =====
-- What one fill of the paper account moves: a buy is paid and booked, a sell is paid for shares
-- that nobody held.
use hqmts.Prelude.{
  String, ◌≡◌, ◌≢◌, inl, inr, refl, ap, ◌∙◌, true, false, ◌&&◌, Option, none, some, List, [], ◌∷◌,
  arith, Bool-cases, Option-cases, if◌then◌else◌,
}
use hqmts.Prelude.Int.{
  ℤ, pos, ◌+ℤ◌, ◌-ℤ◌, ◌*ℤ◌, ◌≤ℤ◌, ◌<ℤ◌, leb_ℤ, ltb_ℤ, max_ℤ, +ℤ_parts, -ℤ_parts, int_laws, mul_sub,
}
use hqmts.Prelude.Decimal.{Decimal, Datetime}
use text.Mathlib.Text.{◌==◌ as str_eq}
use text.Mathlib.TextEquality.{eq_iff}
use text.Mathlib.TextPositions.{eq_refl}
use hqmts.Backtest.Types.{Side, buy, sell}
use hqmts.Backtest.Portfolio.{lookup, insert}
use hqmts.Backtest.Portfolio.Conservation.{lookup-insert}
use hqmts.Execution.Paper.{
  PaperOrderStatus, pending, filled, rejected, PaperOrder, PaperPosition, PaperTradingState,
  PaperConfig,
}
use hqmts.Execution.Paper.Submit.{available_of}
use hqmts.Execution.Paper.Fill.{
  remove, first_bought, bought_more, update_position_buy, update_position_sell, write_order,
  fill_buy, buy_cost, fill_order, fill_side, is_pending, paper_commission, paper_tax,
}
use hqmts.Execution.Paper.Account.{
  Sellable, AllSellable, lookup-Sellable, release_reservation-Same, settled-Same,
}

abbrev pub quantity_of : Option PaperPosition → ℤ
quantity_of none = pos 0
quantity_of (some p) = p.quantity

-- The shares of an instrument in the account.
abbrev pub held_of : String → List (String × PaperPosition) → ℤ
held_of iid d = quantity_of (lookup iid d)

-- The shares bought are held, cannot be sold yet, and no other position has moved.
pub record Grown (iid : String) (n : ℤ) (d d' : List (String × PaperPosition)) : Type 0 where
  pub held : held_of iid d' ≡ held_of iid d +ℤ n
  pub available : available_of (lookup iid d') ≡ available_of (lookup iid d)
  pub others : (other : String) → other ≢ iid → lookup other d' ≡ lookup other d

-- A buy: refused with nothing changed, or paid in full and booked.
pub data Bought (o : PaperOrder) (price : Decimal) (s : PaperTradingState)
    (out : Option PaperOrder × PaperTradingState) : Type 0 where
  not_bought :
      (o' : PaperOrder)
      → out.0 ≡ some o'
      → o'.status ≡ rejected
      → out.1.cash ≡ s.cash
      → out.1.positions ≡ s.positions
      → Bought o price s out
  bought :
      (o' : PaperOrder)
      → out.0 ≡ some o'
      → o'.status ≡ filled
      → o'.fill_quantity ≡ o.quantity
      → out.1.cash +ℤ (price *ℤ o.quantity +ℤ o'.commission +ℤ o'.stamp_tax) ≡ s.cash
      → pos 0 ≤ℤ out.1.cash
      → Grown o.instrument_id o.quantity s.positions out.1.positions
      → Bought o price s out

insert-Grown :
    (iid : String) (n : ℤ) (p : PaperPosition) (d : List (String × PaperPosition))
    → p.quantity ≡ held_of iid d +ℤ n
    → p.available_quantity ≡ available_of (lookup iid d)
    → Grown iid n d (insert iid p d)
insert-Grown iid n p d h k =
    let e : lookup iid (insert iid p d) ≡ some p =
      lookup-insert iid iid p d ∙ rw (eq_refl iid) refl in
    record {
      held = ap quantity_of e ∙ h;
      available = ap available_of e ∙ k;
      others = λ other ne. lookup-insert iid other p d ∙ ground (arith, eq_iff iid other, ne);
    }

nonzero :
    (a n : ℤ) → pos 0 ≤ℤ a → pos 0 <ℤ n → (leb_ℤ (a +ℤ n) (pos 0) && leb_ℤ (pos 0) (a +ℤ n)) ≡ false
nonzero a n h k = ground (arith, +ℤ_parts a n)

held_nonneg : (p : PaperPosition) → Sellable p → pos 0 ≤ℤ p.quantity
held_nonneg p v = omega (arith, v.0, v.1)

zero_add : (n : ℤ) → n ≡ pos 0 +ℤ n
zero_add n = omega int_laws

update_position_buy-Grown :
    (iid : String) (n : ℤ) (price : Decimal) (d : List (String × PaperPosition))
    → pos 0 <ℤ n
    → AllSellable d
    → (d' : List (String × PaperPosition)) × (update_position_buy iid n price d ≡ some d')
      × Grown iid n d d'
unfolding update_position_buy
update_position_buy-Grown iid n price d k h = elim (Option-cases (lookup iid d)) [
  | inl e ↦ (
    insert iid (first_bought iid n price) d,
    rw (update_position_buy, e) refl,
    insert-Grown iid n (first_bought iid n price) d (rw e (zero_add n)) (rw e refl),
  )
  | inr (p, e) ↦
      let z = nonzero p.quantity n (held_nonneg p (lookup-Sellable iid d h e)) k in
      (
        insert iid (bought_more n price p) d,
        rw (update_position_buy, e, z) refl,
        insert-Grown iid n (bought_more n price p) d (rw e refl) (rw e refl),
      )
]

rest_nonneg : (a b : ℤ) → ltb_ℤ a b ≡ false → pos 0 ≤ℤ a -ℤ b
rest_nonneg a b h = ground (arith, -ℤ_parts a b)

pending_side :
    (c : PaperConfig) (now : Datetime) (o : PaperOrder) (price : Decimal) (s : PaperTradingState)
    (side : Option Side)
    → o.status ≡ pending
    → o.side ≡ side
    → fill_order c now o price s ≡ fill_side c now o price s side
unfolding fill_order
pending_side c now o price s side e d =
    ap
      (λ (st : PaperOrderStatus).
        if is_pending st then fill_side c now o price s o.side else (some o, s))
      e
    ∙ ap (fill_side c now o price s) d

paid_back : (a b t : ℤ) → t ≡ a -ℤ b → t +ℤ b ≡ a
paid_back a b t h = rw h (omega int_laws)

fill_buy-Bought :
    (c : PaperConfig) (now : Datetime) (o : PaperOrder) (price : Decimal) (s : PaperTradingState)
    → pos 0 <ℤ o.quantity
    → AllSellable s.positions
    → Bought o price s (fill_buy c now o price s)
fill_buy-Bought c now o price s q h = elim (Bool-cases (ltb_ℤ s.cash (buy_cost c o price))) [
  | inl x ↦
      let o' : PaperOrder = record o { status = rejected } in
      let r =
        release_reservation-Same c now o.order_id "Insufficient cash on fill" (write_order o' s) in
      rw x (not_bought o' refl refl r.0 r.1)
  | inr x ↦
      let (d, e, g) = update_position_buy-Grown o.instrument_id o.quantity price s.positions q h in
      let t : PaperTradingState = record s { cash = s.cash -ℤ buy_cost c o price; positions = d } in
      let r = settled-Same c now o price t in
      rw (x, e)
        (bought _ refl refl refl (paid_back s.cash (buy_cost c o price) _ r.0)
          (rw r.0 (rest_nonneg s.cash (buy_cost c o price) x)) (rw r.1 g))
]

-- Filling a pending buy of a positive quantity, in an account where every position has
-- 0 <= available_quantity <= quantity, never raises. It either rejects the order, with cash and
-- positions as they were, or fills it: price times quantity, the commission and the tax are paid
-- out of the cash, which stays at least 0, the holding grows by the quantity, what of it can be
-- sold today does not, and every other position is as it was.
pub fill_order-Bought :
    (c : PaperConfig) (now : Datetime) (o : PaperOrder) (price : Decimal) (s : PaperTradingState)
    → o.status ≡ pending
    → o.side ≡ some buy
    → pos 0 <ℤ o.quantity
    → AllSellable s.positions
    → Bought o price s (fill_order c now o price s)
fill_order-Bought c now o price s e d q h =
    rw (pending_side c now o price s (some buy) e d) (fill_buy-Bought c now o price s q h)

lookup-remove :
    (iid : String) (d : List (String × PaperPosition)) → lookup iid (remove iid d) ≡ none
lookup-remove iid [] = refl
lookup-remove iid ((j, q) ∷ d) = elim (Bool-cases (str_eq j iid)) [
  | inl e ↦ rw e (lookup-remove iid d)
  | inr e ↦ rw e (rw e (lookup-remove iid d))
]

none_left : (a n : ℤ) → a ≤ℤ n → leb_ℤ (max_ℤ (pos 0) (a -ℤ n)) (pos 0) ≡ true
none_left a n h = ground (arith, -ℤ_parts a n)

-- Who sells all he has, or more, has nothing left.
update_position_sell_all :
    (iid : String) (n : ℤ) (d : List (String × PaperPosition))
    → held_of iid d ≤ℤ n
    → held_of iid (update_position_sell iid n d) ≡ pos 0
unfolding update_position_sell
update_position_sell_all iid n d h = elim (Option-cases (lookup iid d)) [
  | inl e ↦ rw (update_position_sell, e, e) refl
  | inr (p, e) ↦
      rw (update_position_sell, e, none_left p.quantity n (rw e at h))
        (ap quantity_of (lookup-remove iid d))
]

sold_for :
    (cash price n held commission tax t : ℤ)
    → t ≡ cash +ℤ (price *ℤ n -ℤ commission -ℤ tax)
    → t +ℤ (commission +ℤ tax) ≡ cash +ℤ price *ℤ held +ℤ price *ℤ (n -ℤ held)
sold_for cash price n held commission tax t h = rw (h, mul_sub price n held) (omega int_laws)

-- A pending sell of at least what the account holds is filled and leaves no share of the
-- instrument. The cash, before the fees, grows by the price of the shares held and by the price of
-- the shares of the order that were not held.
pub fill_order_pays_unheld :
    (c : PaperConfig) (now : Datetime) (o : PaperOrder) (price : Decimal) (s : PaperTradingState)
    → o.status ≡ pending
    → o.side ≡ some sell
    → held_of o.instrument_id s.positions ≤ℤ o.quantity
    → (o' : PaperOrder) × ((fill_order c now o price s).0 ≡ some o')
      × (o'.status ≡ filled)
      × (held_of o.instrument_id (fill_order c now o price s).1.positions ≡ pos 0)
      × ((fill_order c now o price s).1.cash +ℤ (o'.commission +ℤ o'.stamp_tax)
          ≡ s.cash
            +ℤ price *ℤ held_of o.instrument_id s.positions
            +ℤ price *ℤ (o.quantity -ℤ held_of o.instrument_id s.positions))
fill_order_pays_unheld c now o price s e d h =
    let t : PaperTradingState = record s {
      cash = s.cash +ℤ (price *ℤ o.quantity -ℤ paper_commission c o price -ℤ paper_tax c o price);
      positions = update_position_sell o.instrument_id o.quantity s.positions;
    } in
    let r = settled-Same c now o price t in
    rw (pending_side c now o price s (some sell) e d) (
      _,
      refl,
      refl,
      ap (held_of o.instrument_id) r.1
          ∙ update_position_sell_all o.instrument_id o.quantity s.positions h,
      sold_for s.cash price o.quantity (held_of o.instrument_id s.positions)
          (paper_commission c o price) (paper_tax c o price) _ r.0,
    )
