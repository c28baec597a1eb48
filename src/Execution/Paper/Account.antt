-- ===== src/Execution/Paper/Account.antt =====
-- What the paper account keeps: T+1, and the cash.
use hqmts.Prelude.{
  String, ◌≡◌, inl, inr, ◌&&◌, Option, none, some, List, [], ◌∷◌, arith, All, Bool-cases,
  Option-cases,
}
use hqmts.Prelude.Int.{ℤ, pos, ◌+ℤ◌, ◌-ℤ◌, ◌≤ℤ◌, leb_ℤ, max_ℤ, +ℤ_parts, -ℤ_parts}
use hqmts.Prelude.Decimal.{Decimal, Datetime}
use text.Mathlib.Text.{◌==◌ as str_eq}
use hqmts.Backtest.Portfolio.{lookup, insert}
use hqmts.Execution.Paper.{PaperOrder, PaperPosition, PaperTradingState, PaperConfig}
use hqmts.Execution.Paper.Fill.{
  remove, bought_more, update_position_buy, update_position_sell, sold_position,
  consume_reservation, release_reservation, write_order, settled_order,
}

-- What can be sold is part of the position.
abbrev pub Sellable : PaperPosition → Type 0
Sellable p = (pos 0 ≤ℤ p.available_quantity) × (p.available_quantity ≤ℤ p.quantity)

abbrev pub AllSellable : List (String × PaperPosition) → Type 0
AllSellable = All (λ e. Sellable e.1)

pub insert-AllSellable :
    (iid : String) (p : PaperPosition) (d : List (String × PaperPosition))
    → Sellable p
    → AllSellable d
    → AllSellable (insert iid p d)
insert-AllSellable iid p [] v h = (v, tt)
insert-AllSellable iid p ((j, q) ∷ d) v h = elim (Bool-cases (str_eq j iid)) [
  | inl e ↦ rw e (v, h.1)
  | inr e ↦ rw e (h.0, insert-AllSellable iid p d v h.1)
]

remove-AllSellable :
    (iid : String) (d : List (String × PaperPosition)) → AllSellable d → AllSellable (remove iid d)
remove-AllSellable iid [] h = tt
remove-AllSellable iid ((j, q) ∷ d) h = elim (Bool-cases (str_eq j iid)) [
  | inl e ↦ rw e (remove-AllSellable iid d h.1)
  | inr e ↦ rw e (h.0, remove-AllSellable iid d h.1)
]

pub lookup-Sellable :
    (iid : String) (d : List (String × PaperPosition)) {p : PaperPosition}
    → AllSellable d
    → lookup iid d ≡ some p
    → Sellable p
lookup-Sellable iid [] h e = cc
lookup-Sellable iid ((j, q) ∷ d) {p} h e = elim (Bool-cases (str_eq j iid)) [
  | inl x ↦ let same : q ≡ p = ground arith in rw same at h.0
  | inr x ↦ lookup-Sellable iid d h.1 (rw x at e)
]

max_nonneg : (a : ℤ) → pos 0 ≤ℤ max_ℤ (pos 0) a
max_nonneg a = ground arith

max_mono : (a b n : ℤ) → a ≤ℤ b → max_ℤ (pos 0) (a -ℤ n) ≤ℤ max_ℤ (pos 0) (b -ℤ n)
max_mono a b n h = ground (arith, -ℤ_parts a n, -ℤ_parts b n)

sold-Sellable : (n : ℤ) (p : PaperPosition) → Sellable p → Sellable (sold_position n p)
sold-Sellable n p h =
    (max_nonneg (p.available_quantity -ℤ n), max_mono p.available_quantity p.quantity n h.1)

-- A purchase that raises leaves no positions to speak of.
abbrev pub IfSome {ℓ} : {A : Type ℓ} → (A → Type 0) → Option A → Type 0
IfSome P none = Unit
IfSome P (some a) = P a

pub buy-AllSellable :
    (iid : String) (n : ℤ) (price : Decimal) (d : List (String × PaperPosition))
    → pos 0 ≤ℤ n
    → AllSellable d
    → IfSome AllSellable (update_position_buy iid n price d)
unfolding update_position_buy
buy-AllSellable iid n price d k h = elim (Option-cases (lookup iid d)) [
  | inl e ↦ rw (update_position_buy, e) (insert-AllSellable iid _ d (omega arith, k) h)
  | inr (p, e) ↦
      elim (Bool-cases (leb_ℤ (p.quantity +ℤ n) (pos 0) && leb_ℤ (pos 0) (p.quantity +ℤ n))) [
        | inl z ↦ rw (update_position_buy, e, z) tt
        | inr z ↦
            let v = lookup-Sellable iid d h e in
            rw (update_position_buy, e, z)
              (insert-AllSellable iid (bought_more n price p) d
                (v.0, omega (arith, v.1, k, +ℤ_parts p.quantity n)) h)
      ]
]

pub sell-AllSellable :
    (iid : String) (n : ℤ) (d : List (String × PaperPosition))
    → AllSellable d
    → AllSellable (update_position_sell iid n d)
unfolding update_position_sell
sell-AllSellable iid n d h = elim (Option-cases (lookup iid d)) [
  | inl e ↦ rw (update_position_sell, e) h
  | inr (p, e) ↦ elim (Bool-cases (leb_ℤ (sold_position n p).quantity (pos 0))) [
    | inl x ↦ rw (update_position_sell, e, x) (remove-AllSellable iid d h)
    | inr x ↦
        rw (update_position_sell, e, x)
          (insert-AllSellable iid _ d (sold-Sellable n p (lookup-Sellable iid d h e)) h)
  ]
]

-- The same cash and positions.
abbrev pub Same : PaperTradingState → PaperTradingState → Type 0
Same s t = (t.cash ≡ s.cash) × (t.positions ≡ s.positions)

pub consume_reservation-Same :
    (c : PaperConfig) (now : Datetime) (order_id : String) (amount : Decimal)
    (s : PaperTradingState)
    → Same s (consume_reservation c now order_id amount s)
unfolding consume_reservation
consume_reservation-Same c now order_id amount s = (ground arith, ground arith)

pub release_reservation-Same :
    (c : PaperConfig) (now : Datetime) (order_id reason : String) (s : PaperTradingState)
    → Same s (release_reservation c now order_id reason s)
unfolding release_reservation
release_reservation-Same c now order_id reason s = (ground arith, ground arith)

pub settled-Same :
    (c : PaperConfig) (now : Datetime) (o : PaperOrder) (price : Decimal) (s : PaperTradingState)
    → Same s (settled_order c now o price s).1
settled-Same c now o price s = consume_reservation-Same c now o.order_id _ (write_order _ s)
