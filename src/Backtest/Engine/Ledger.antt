-- ===== src/Backtest/Engine/Ledger.antt =====
-- The portfolio of a run is what its trades say.
use hqmts.Prelude.{
  ℕ, ◌+◌, length, String, ◌≡◌, inl, inr, refl, sym, ap, ◌∙◌, Bool, true, false, Option, none, some,
  List, [], ◌∷◌, ◌++◌, map, Option-cases, Bool-cases, if◌then◌else◌,
}
use hqmts.Prelude.Int.{ℤ, pos, ◌+ℤ◌, ◌-ℤ◌, ◌*ℤ◌, int_laws}
use hqmts.Prelude.Decimal.{Decimal, Datetime}
use text.Mathlib.Text.{◌==◌ as str_eq}
use text.Mathlib.TextEquality.{eq_iff}
use hqmts.Backtest.Types.{Side, buy, sell, BacktestOrder, Bar}
use hqmts.Backtest.Matcher
use hqmts.Backtest.Matcher.{Fill, MatchResult, match_order_from_bt}
use hqmts.Backtest.Portfolio.{
  Position, Positions, PortfolioState, TradeRecord, lookup, insert, get_or_create_position,
  update_market_value_from_prices, snapshot_daily, reset_daily_state, update_stop_loss_take_profit,
  revalued, rested, apply_fill, filled_position, bought, sold, filled_cash, empty_position,
}
use hqmts.Backtest.Portfolio.Conservation.{lookup-insert}
use hqmts.Backtest.Engine.{BacktestConfig, Prices, with_position, clear_triggers, applied}
use hqmts.Backtest.Engine.Stream.{run}
use hqmts.Backtest.Engine.Invariants.{Stable}
use hqmts.Backtest.Engine.Runs.{run-keeps}

-- What a trade pays out of the cash, and the shares that it brings.
abbrev pub paid_in : TradeRecord → Decimal
paid_in t = elim t.side [
  | buy ↦ pos 0 -ℤ (t.price *ℤ t.quantity +ℤ t.commission +ℤ t.stamp_tax)
  | sell ↦ t.price *ℤ t.quantity -ℤ t.commission -ℤ t.stamp_tax
]

abbrev pub shares_in : String → TradeRecord → ℤ
shares_in iid t =
    if str_eq t.instrument_id iid
    then (elim t.side [ buy ↦ t.quantity | sell ↦ pos 0 -ℤ t.quantity ])
    else pos 0

abbrev pub sum : (TradeRecord → ℤ) → List TradeRecord → ℤ
sum f [] = pos 0
sum f (t ∷ trades) = f t +ℤ sum f trades

abbrev pub shares_of : String → PortfolioState → ℤ
shares_of iid s = (get_or_create_position iid s.positions).quantity

-- Cash and shares are the sums over the trades.
pub record Ledger (cash : Decimal) (s : PortfolioState) : Type 0 where
  pub cash_in : s.cash ≡ cash +ℤ sum paid_in s.trades
  pub shares : (iid : String) → shares_of iid s ≡ sum (shares_in iid) s.trades

sum-append :
    (f : TradeRecord → ℤ) (trades : List TradeRecord) (t : TradeRecord)
    → sum f (trades ++ t ∷ []) ≡ sum f trades +ℤ f t
sum-append f [] t = omega int_laws
sum-append f (x ∷ trades) t = rw (sum-append f trades t) (omega int_laws)

-- The position after one is put in.
get-put :
    (iid other : String) (p : Position) (d : Positions)
    → get_or_create_position other (insert iid p d)
      ≡ (if str_eq iid other then p else get_or_create_position other d)
unfolding get_or_create_position
get-put iid other p d =
    ap (λ (o : Option Position). elim o [ none ↦ empty_position other | some q ↦ q ])
      (lookup-insert iid other p d)
    ∙ split (str_eq iid other)
  where
    split :
        (b : Bool)
        → (elim (if b then some p else lookup other d) [ none ↦ empty_position other | some q ↦ q ])
          ≡ (if b then p else get_or_create_position other d)
    split true = refl
    split false = refl

-- A position with the same shares in the place of the old one changes no shares.
shares-put :
    (iid other : String) (p : Position) (d : Positions)
    → p.quantity ≡ (get_or_create_position iid d).quantity
    → (get_or_create_position other (insert iid p d)).quantity
      ≡ (get_or_create_position other d).quantity
shares-put iid other p d e = elim (Bool-cases (str_eq iid other)) [
  | inl h ↦
      let same : iid ≡ other = (eq_iff iid other).0 h in
      rw (get-put iid other p d, h)
        (e ∙ ap (λ (x : String). (get_or_create_position x d).quantity) same)
  | inr h ↦ rw (get-put iid other p d, h)
]

-- What a fill brings of shares.
abbrev brings : Side → Fill → ℤ
brings buy f = f.fill_quantity
brings sell f = pos 0 -ℤ f.fill_quantity

filled_shares :
    (side : Side) (p : Position) (f : Fill)
    → (filled_position side p f).quantity ≡ p.quantity +ℤ brings side f
unfolding bought sold
filled_shares buy p f = refl
filled_shares sell p f = omega int_laws

-- The trade that a fill leaves.
abbrev trade_of : ℕ → String → Side → Fill → Datetime → String → TradeRecord
trade_of n iid side f timestamp signal_id = record {
  trade_number = n;
  instrument_id = iid;
  side = side;
  price = f.fill_price;
  quantity = f.fill_quantity;
  commission = f.commission;
  stamp_tax = f.stamp_tax;
  timestamp = timestamp;
  signal_id = signal_id;
}

paid :
    (n : ℕ) (iid : String) (side : Side) (f : Fill) (timestamp : Datetime) (signal_id : String)
    (cash : Decimal)
    → filled_cash side cash f ≡ cash +ℤ paid_in (trade_of n iid side f timestamp signal_id)
paid n iid buy f timestamp signal_id cash = omega int_laws
paid n iid sell f timestamp signal_id cash = omega int_laws

brought :
    (n : ℕ) (iid : String) (side : Side) (f : Fill) (timestamp : Datetime) (signal_id : String)
    (other : String)
    → shares_in other (trade_of n iid side f timestamp signal_id)
      ≡ (if str_eq iid other then brings side f else pos 0)
brought n iid buy f timestamp signal_id other = refl
brought n iid sell f timestamp signal_id other = refl

fill_shares :
    (iid other : String) (side : Side) (f : Fill) (d : Positions)
    → (get_or_create_position other
        (insert iid (filled_position side (get_or_create_position iid d) f) d)).quantity
      ≡ (get_or_create_position other d).quantity
        +ℤ (if str_eq iid other then brings side f else pos 0)
fill_shares iid other side f d =
    let p = filled_position side (get_or_create_position iid d) f in
    elim (Bool-cases (str_eq iid other)) [
      | inl h ↦
          let same : iid ≡ other = (eq_iff iid other).0 h in
          rw (get-put iid other p d, h)
            (filled_shares side (get_or_create_position iid d) f
              ∙ ap (λ (x : String). (get_or_create_position x d).quantity +ℤ brings side f) same)
      | inr h ↦ rw (get-put iid other p d, h) (omega int_laws)
    ]

assoc : (a b c d : ℤ) → a ≡ b +ℤ c → a +ℤ d ≡ b +ℤ (c +ℤ d)
assoc a b c d h = rw h (omega int_laws)

apply_fill-Ledger :
    (cash : Decimal) (iid : String) (side : Side) (f : Fill) (timestamp : Datetime)
    (signal_id : String) (s : PortfolioState)
    → Ledger cash s
    → Ledger cash (apply_fill iid side f timestamp signal_id s)
unfolding apply_fill
apply_fill-Ledger cash iid side f timestamp signal_id s l =
    let n = length s.trades + 1 in
    let t = trade_of n iid side f timestamp signal_id in
    record {
      cash_in =
          paid n iid side f timestamp signal_id s.cash
          ∙ assoc s.cash cash (sum paid_in s.trades) (paid_in t) l.cash_in
          ∙ ap (λ (x : ℤ). cash +ℤ x) (sym (sum-append paid_in s.trades t));
      shares = λ other.
          fill_shares iid other side f s.positions
          ∙ rw (
            l.shares other,
            sum-append (shares_in other) s.trades t,
            brought n iid side f timestamp signal_id other,
          );
    }

applied-Ledger :
    (cash : Decimal) (o : BacktestOrder) (bar : Bar) (s : PortfolioState) (r : MatchResult)
    → Ledger cash s
    → Ledger cash (applied r o bar s)
applied-Ledger cash o bar s (Matcher.filled f) l =
    apply_fill-Ledger cash o.instrument_id o.side f bar.bar_start_time o.signal_id s l
applied-Ledger cash o bar s (Matcher.rejected r) l = l

-- Changes that leave cash, trades and shares alone.
same-Ledger :
    (cash : Decimal) (s : PortfolioState) (d : Positions)
    → ((iid : String)
        → (get_or_create_position iid d).quantity
          ≡ (get_or_create_position iid s.positions).quantity)
    → Ledger cash s
    → Ledger cash (record s { positions = d })
same-Ledger cash s d h l = record { cash_in = l.cash_in; shares = λ iid. h iid ∙ l.shares iid }

shares-revalued :
    (prices : Prices) (iid : String) (d : Positions)
    → (get_or_create_position iid (map (revalued prices) d)).quantity
      ≡ (get_or_create_position iid d).quantity
unfolding get_or_create_position
shares-revalued prices iid [] = refl
shares-revalued prices iid ((j, p) ∷ d) = elim (Bool-cases (str_eq j iid)) [
  | inl e ↦ elim (Option-cases (lookup j prices)) [
    | inl o ↦ rw (revalued, o, get_or_create_position, e)
    | inr (price, o) ↦ rw (revalued, o, get_or_create_position, e)
  ]
  | inr e ↦ elim (Option-cases (lookup j prices)) [
    | inl o ↦ rw (revalued, o, get_or_create_position, e) (shares-revalued prices iid d)
    | inr (price, o) ↦ rw (revalued, o, get_or_create_position, e) (shares-revalued prices iid d)
  ]
]

shares-rested :
    (iid : String) (d : Positions)
    → (get_or_create_position iid (map rested d)).quantity ≡ (get_or_create_position iid d).quantity
unfolding get_or_create_position
shares-rested iid [] = refl
shares-rested iid ((j, p) ∷ d) = elim (Bool-cases (str_eq j iid)) [
  | inl e ↦ rw (get_or_create_position, e)
  | inr e ↦ rw (get_or_create_position, e) (shares-rested iid d)
]

Ledger-Stable :
    {S : Type 0} (c : BacktestConfig S) (cash : Decimal) → Stable c (λ t s. Ledger cash s)
unfolding with_position clear_triggers update_stop_loss_take_profit update_market_value_from_prices
    snapshot_daily reset_daily_state
Ledger-Stable c cash = record {
  kept = record {
    created = λ t iid s h. same-Ledger cash s _ (λ j. shares-put iid j _ s.positions refl) h;
    matched = λ prev bar instrument o s h. applied-Ledger cash o bar s _ h;
    cleared = λ t iid s h. same-Ledger cash s _ (λ j. shares-put iid j _ s.positions refl) h;
    exits =
        λ t iid stop take s h. same-Ledger cash s _ (λ j. shares-put iid j _ s.positions refl) h;
  };
  later = λ t u s le h. h;
  valued = λ t prices s h. same-Ledger cash s _ (λ j. shares-revalued prices j s.positions) h;
  snapped = λ t d s h. record { cash_in = h.cash_in; shares = h.shares };
  rested = λ t s h. same-Ledger cash s _ (λ j. shares-rested j s.positions) h;
}

-- After a run that is not refused, whatever the strategy and the bars, the cash is the initial cash
-- with what every trade paid or earned, its commission and stamp tax included, and the position of
-- each instrument is the shares bought less the shares sold by its trades.
pub run-Ledger :
    {S : Type 0} (c : BacktestConfig S) (bars : List (String × List Bar)) (s : PortfolioState)
    → run c bars ≡ some s
    → Ledger c.initial_cash s
unfolding get_or_create_position
run-Ledger c bars s h =
    run-keeps c (λ t s. Ledger c.initial_cash s) (Ledger-Stable c c.initial_cash) bars s
      (record { cash_in = omega int_laws; shares = λ iid. refl }) h
