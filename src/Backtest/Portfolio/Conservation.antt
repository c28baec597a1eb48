-- ===== src/Backtest/Portfolio/Conservation.antt =====
-- A fill moves value between cash and shares, and costs exactly its commission and stamp tax.
use hqmts.Prelude.{
  String, ◌≡◌, ◌≢◌, refl, ap, ◌∙◌, Option, none, some, List, [], ◌∷◌, arith, if◌then◌else◌,
}
use hqmts.Prelude.Int.{◌+ℤ◌, ◌*ℤ◌, int_laws, mul_add, mul_sub}
use hqmts.Prelude.Decimal.{Decimal, Datetime}
use text.Mathlib.Text.{◌==◌ as str_eq}
use text.Mathlib.TextEquality.{eq_iff}
use text.Mathlib.TextPositions.{eq_refl}
use hqmts.Backtest.Types.{Side, buy, sell}
use hqmts.Backtest.Matcher.{Fill}
use hqmts.Backtest.Portfolio.{
  Position, Positions, PortfolioState, lookup, insert, get_or_create_position, bought, sold,
  filled_position, filled_cash, apply_fill, empty_position,
}

pub lookup-insert {ℓ} :
    {V : Type ℓ} (k j : String) (v : V) (d : List (String × V))
    → lookup j (insert k v d) ≡ (if str_eq k j then some v else lookup j d)
lookup-insert k j v [] = refl
lookup-insert k j v ((i, w) ∷ d) =
    ground (arith, eq_iff k j, eq_iff i k, eq_iff i j, lookup-insert k j v d)

pub get_or_create_position-insert :
    (iid : String) (p : Position) (d : Positions) → get_or_create_position iid (insert iid p d) ≡ p
unfolding get_or_create_position
get_or_create_position-insert iid p d =
    let e : lookup iid (insert iid p d) ≡ some p = lookup-insert iid iid p d ∙ rw (eq_refl iid) in
    ap (λ (o : Option Position). elim o [ none ↦ empty_position iid | some q ↦ q ]) e

-- Cash and the position of one instrument, at a price.
abbrev pub worth : String → Decimal → PortfolioState → Decimal
worth iid price s = s.cash +ℤ price *ℤ (get_or_create_position iid s.positions).quantity

moved :
    (side : Side) (cash : Decimal) (p : Position) (f : Fill)
    → filled_cash side cash f
        +ℤ f.fill_price *ℤ (filled_position side p f).quantity
        +ℤ (f.commission +ℤ f.stamp_tax)
      ≡ cash +ℤ f.fill_price *ℤ p.quantity
unfolding bought sold
moved buy cash p f = rw (mul_add f.fill_price p.quantity f.fill_quantity) (omega int_laws)
moved sell cash p f = rw (mul_sub f.fill_price p.quantity f.fill_quantity) (omega int_laws)

-- At the price of the fill, cash and shares lose exactly the commission and the stamp tax, on
-- either side.
pub apply_fill-worth :
    (iid : String) (side : Side) (f : Fill) (timestamp : Datetime) (signal_id : String)
    (s : PortfolioState)
    → worth iid f.fill_price (apply_fill iid side f timestamp signal_id s)
        +ℤ (f.commission +ℤ f.stamp_tax)
      ≡ worth iid f.fill_price s
unfolding apply_fill
apply_fill-worth iid side f timestamp signal_id s =
    let p = get_or_create_position iid s.positions in
    rw (get_or_create_position-insert iid (filled_position side p f) s.positions)
      (moved side s.cash p f)

-- A fill of one instrument leaves the position of every other one as it was.
pub apply_fill_others :
    (iid other : String) (side : Side) (f : Fill) (timestamp : Datetime) (signal_id : String)
    (s : PortfolioState)
    → iid ≢ other
    → lookup other (apply_fill iid side f timestamp signal_id s).positions
      ≡ lookup other s.positions
unfolding apply_fill
apply_fill_others iid other side f timestamp signal_id s ne =
    let p = get_or_create_position iid s.positions in
    lookup-insert iid other (filled_position side p f) s.positions
    ∙ ground (arith, eq_iff iid other)
