-- ===== src/Reservation/Manager/Reserve.antt =====
-- `reserve`: what it promises when it returns, when it must return, and what it leaves alone.
use hqmts.Prelude.{
  String, ◌≡◌, ◌≢◌, ◌↔◌, ◌⊎◌, inl, inr, refl, sym, ◌+◌, ◌*◌, false, some, ◌∷◌, ◌∙◌, arith, any,
  Bool-cases,
}
use hqmts.Prelude.Int.{ℤ, pos, ◌+ℤ◌, ◌-ℤ◌, ◌≤ℤ◌, ◌<ℤ◌, int_laws, +ℤ_parts, -ℤ_parts}
use hqmts.Prelude.Decimal.{Decimal, Datetime}
use text.Mathlib.Text.{◌==◌ as str_eq}
use text.Mathlib.TextEquality.{eq_iff}
use text.Mathlib.TextPositions.{eq_refl}
use hqmts.Fsm.Reservation.{active}
use hqmts.Reservation.Store.{Store, get_total_reserved_amount, create, conflicts}
use hqmts.Reservation.Store.Laws.{share, total-create}
use hqmts.Reservation.Manager.{
  ok, err, CashReservation, Request, new_row, reserve, insufficient_funds_error,
}
use hqmts.Reservation.Manager.Steps.{reserve-Made}

≤ℤ-cases : (a b : ℤ) → (a ≤ℤ b) ⊎ (b <ℤ a)
≤ℤ-cases a b = ground arith

fits : (a c t : ℤ) → a ≤ℤ c -ℤ t → a +ℤ t ≤ℤ c
fits a c t h = ground (arith, +ℤ_parts a t, -ℤ_parts c t)

own_share :
    (new_id : String) (now : Datetime) (q : Request)
    → share q.account_id (new_row new_id now q) ≡ q.amount
own_share new_id now q = rw (eq_refl q.account_id)

other_share :
    (new_id : String) (now : Datetime) (q : Request) (other : String)
    → other ≢ q.account_id
    → share other (new_row new_id now q) ≡ pos 0
other_share new_id now q other ne = elim (Bool-cases (str_eq q.account_id other)) [
  | inl e ↦ absurd (ne (sym ((eq_iff q.account_id other).0 e)))
  | inr e ↦ rw e
]

-- What a granted request returns.
abbrev granted : String → Datetime → Request → CashReservation
granted new_id now q = record {
  reservation_id = new_id;
  account_id = q.account_id;
  strategy_instance_id = q.strategy_instance_id;
  signal_id = q.signal_id;
  execution_intent_id = q.execution_intent_id;
  reserved_amount = q.amount;
  consumed_amount = pos 0;
  status = active;
  expires_at = now + q.ttl_seconds * 1_000_000;
  released_reason = "";
  created_at = now;
  updated_at = now;
}

-- When `reserve` returns, the account's active reservations have grown by exactly the amount, which
-- is not negative, and together they are covered by the cash that was given.
pub reserve_covered :
    (new_id : String) (now : Datetime) (q : Request) (s s' : Store) (r : CashReservation)
    → reserve new_id now q s ≡ (ok r, s')
    → (pos 0 ≤ℤ q.amount)
      × (get_total_reserved_amount q.account_id s'
          ≡ q.amount +ℤ get_total_reserved_amount q.account_id s)
      × (cash : Decimal) × (q.available_cash ≡ some cash)
      × (get_total_reserved_amount q.account_id s' ≤ℤ cash)
reserve_covered new_id now q s s' r h =
    let m = reserve-Made new_id now q s s' r h in
    let row = new_row new_id now q in
    let grown : get_total_reserved_amount q.account_id s'
        ≡ q.amount +ℤ get_total_reserved_amount q.account_id s =
      total-create q.account_id row s m.inserted ∙ rw (own_share new_id now q) refl in
    (m.nonneg, grown, m.cash, m.given, rw grown (fits _ _ _ m.covered))

-- The active reservations of every other account are untouched.
pub reserve_other_account :
    (new_id : String) (now : Datetime) (q : Request) (s s' : Store) (r : CashReservation)
    (other : String)
    → reserve new_id now q s ≡ (ok r, s')
    → other ≢ q.account_id
    → get_total_reserved_amount other s' ≡ get_total_reserved_amount other s
reserve_other_account new_id now q s s' r other h ne =
    let m = reserve-Made new_id now q s s' r h in
    total-create other (new_row new_id now q) s m.inserted
    ∙ rw (other_share new_id now q other ne) (omega int_laws)

reserve_granted :
    (new_id : String) (now : Datetime) (q : Request) (s : Store) (cash : Decimal)
    → q.available_cash ≡ some cash
    → pos 0 ≤ℤ q.amount
    → q.amount ≤ℤ cash -ℤ get_total_reserved_amount q.account_id s
    → any (conflicts (new_row new_id now q)) s ≡ false
    → (r : CashReservation) × (reserve new_id now q s ≡ (ok r, new_row new_id now q ∷ s))
unfolding reserve create
reserve_granted new_id now q s cash given nonneg fit fresh = (granted new_id now q, ground arith)

reserve_refused :
    (new_id : String) (now : Datetime) (q : Request) (s : Store) (cash : Decimal)
    → q.available_cash ≡ some cash
    → cash -ℤ get_total_reserved_amount q.account_id s <ℤ q.amount
    → reserve new_id now q s ≡ (err insufficient_funds_error, s)
unfolding reserve
reserve_refused new_id now q s cash given short = ground arith

-- For an amount that is not negative, under a fresh key and with no row of the request's account and
-- intent, `reserve` is decided by the cash: it returns and adds the new active row exactly when the
-- amount is at most the given cash less the active reservations of the account, and it raises
-- InsufficientFundsError and leaves the table as it was exactly when the amount is more.
pub reserve_decided :
    (new_id : String) (now : Datetime) (q : Request) (s : Store) (cash : Decimal)
    → q.available_cash ≡ some cash
    → pos 0 ≤ℤ q.amount
    → any (conflicts (new_row new_id now q)) s ≡ false
    → (((r : CashReservation) × (reserve new_id now q s ≡ (ok r, new_row new_id now q ∷ s)))
        ↔ (q.amount ≤ℤ cash -ℤ get_total_reserved_amount q.account_id s))
      × ((reserve new_id now q s ≡ (err insufficient_funds_error, s))
          ↔ (cash -ℤ get_total_reserved_amount q.account_id s <ℤ q.amount))
reserve_decided new_id now q s cash given nonneg fresh =
    let free = cash -ℤ get_total_reserved_amount q.account_id s in
    elim (≤ℤ-cases q.amount free) [
      | inl le ↦
          let (r, e) = reserve_granted new_id now q s cash given nonneg le fresh in
          ((λ h. le, λ h. (r, e)), (λ h. cc (h, e), λ h. absurd (omega arith)))
      | inr lt ↦
          let e = reserve_refused new_id now q s cash given lt in
          ((λ h. cc (h.1, e), λ h. absurd (omega arith)), (λ h. lt, λ h. e))
    ]
