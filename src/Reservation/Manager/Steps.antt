-- ===== src/Reservation/Manager/Steps.antt =====
-- What each method leaves in the table.
use hqmts.Prelude.{
  ℕ, suc, String, ◌≡◌, inl, inr, refl, false, some, List, [], ◌∷◌, arith, Bool-cases, Option-cases,
  All,
}
use hqmts.Prelude.Int.{ℤ, pos, ◌+ℤ◌, ◌-ℤ◌, ◌≤ℤ◌, +ℤ_parts}
use hqmts.Prelude.Decimal.{Decimal, Datetime}
use hqmts.Reservation.Store.{
  CashReservationOrm, Store, get_total_reserved_amount, get_by_id, create, update, is_active_row,
  get_expired_reservations, has_expired,
}
use hqmts.Reservation.Store.Laws.{
  IsValid, share, total-update, update-IsValid, update_absent, share_nonneg,
}
use hqmts.Reservation.Manager.{
  Error, Result, ok, err, CashReservation, Request, new_row, reserve, consume, consumed_row,
  release, released_row, expire_rows, append_result, expired_row, to_domain, expire_reservations,
}

-- A reservation is made: the request was covered, and the row was inserted.
pub record Made (new_id : String) (now : Datetime) (q : Request) (s s' : Store) : Type 0 where
  pub cash : Decimal
  pub given : q.available_cash ≡ some cash
  pub covered : q.amount ≤ℤ cash -ℤ get_total_reserved_amount q.account_id s
  pub nonneg : pos 0 ≤ℤ q.amount
  pub inserted : create (new_row new_id now q) s ≡ some s'

pub reserve-Made :
    (new_id : String) (now : Datetime) (q : Request) (s s' : Store) (r : CashReservation)
    → reserve new_id now q s ≡ (ok r, s')
    → Made new_id now q s s'
unfolding reserve
reserve-Made new_id now q s s' r h = elim (Option-cases q.available_cash) [
  | inl e ↦ ground arith
  | inr (cash, e) ↦ elim (Option-cases (create (new_row new_id now q) s)) [
    | inl c ↦ ground arith
    | inr (t, c) ↦ record {
      cash = cash;
      given = e;
      covered = ground arith;
      nonneg = ground arith;
      inserted = ground arith;
    }
  ]
]

-- What is returned carries the fresh key.
pub reserve-id :
    (new_id : String) (now : Datetime) (q : Request) (s s' : Store) (r : CashReservation)
    → reserve new_id now q s ≡ (ok r, s')
    → r.reservation_id ≡ new_id
unfolding reserve
reserve-id new_id now q s s' r h = elim (Option-cases q.available_cash) [
  | inl e ↦ ground arith
  | inr (cash, e) ↦ elim (Option-cases (create (new_row new_id now q) s)) [
    | inl c ↦ ground arith
    | inr (t, c) ↦ ground arith
  ]
]

-- A call that raises has written nothing.
pub reserve_err :
    (new_id : String) (now : Datetime) (q : Request) (s s' : Store) (e : Error)
    → reserve new_id now q s ≡ (err e, s')
    → s' ≡ s
unfolding reserve
reserve_err new_id now q s s' e h = ground arith

pub share_inactive :
    (account : String) (r : CashReservationOrm) → is_active_row r ≡ false → share account r ≡ pos 0
share_inactive account r h = ground arith

-- A write of a row that is not active takes nothing from the table but its old share.
abbrev pub Lowers : Store → Store → Type 0
Lowers s s' =
    IsValid s'
    × ((account : String)
        → get_total_reserved_amount account s' ≤ℤ get_total_reserved_amount account s)

le_of_shares : (t u a b : ℤ) → u +ℤ a ≡ t +ℤ b → pos 0 ≤ℤ a → b ≡ pos 0 → u ≤ℤ t
le_of_shares t u a b h k z = ground (arith, +ℤ_parts u a, +ℤ_parts t b)

reserved_nonneg :
    (key : String) (s : Store) (r : CashReservationOrm)
    → IsValid s
    → get_by_id key s ≡ some r
    → pos 0 ≤ℤ r.reserved_amount
unfolding get_by_id
reserved_nonneg key [] r v h = cc
reserved_nonneg key (x ∷ s) r v h = ground (arith, reserved_nonneg key s r v.2)

pub update-Lowers :
    (new : CashReservationOrm) (s : Store)
    → IsValid s
    → pos 0 ≤ℤ new.reserved_amount
    → is_active_row new ≡ false
    → Lowers s (update new s)
update-Lowers new s v a i = (
  update-IsValid new s a v,
  λ account. elim (Option-cases (get_by_id new.reservation_id s)) [
    | inl e ↦ rw (update_absent new s e) (omega arith)
    | inr (old, e) ↦
        le_of_shares _ _ _ _ (total-update account old new s v e)
          (share_nonneg account old (reserved_nonneg _ s old v e)) (share_inactive account new i)
  ],
)

refl-Lowers : (s : Store) → IsValid s → Lowers s s
refl-Lowers s v = (v, λ account. omega arith)

trans-Lowers : (s t u : Store) → Lowers s t → Lowers t u → Lowers s u
trans-Lowers s t u a b = (b.0, λ account. omega (arith, a.1 account, b.1 account))

pub consumed_inactive :
    (now : Datetime) (amount : Decimal) (r : CashReservationOrm)
    → is_active_row (consumed_row now amount r) ≡ false
consumed_inactive now amount r = ground arith

-- `consume` and `release` never raise a sum, whether they return or raise.
pub consume-Lowers :
    (now : Datetime) (key : String) (amount : Decimal) (s : Store)
    → IsValid s
    → Lowers s (consume now key amount s).1
unfolding consume
consume-Lowers now key amount s v = elim (Option-cases (get_by_id key s)) [
  | inl e ↦ rw e (refl-Lowers s v)
  | inr (r, e) ↦ elim (Bool-cases (is_active_row r)) [
    | inl a ↦
        rw (e, a)
          (update-Lowers (consumed_row now amount r) s v (reserved_nonneg key s r v e)
            (consumed_inactive now amount r))
    | inr a ↦ rw (e, a) (refl-Lowers s v)
  ]
]

pub release-Lowers :
    (now : Datetime) (key reason : String) (s : Store)
    → IsValid s
    → Lowers s (release now key reason s).1
unfolding release
release-Lowers now key reason s v = elim (Option-cases (get_by_id key s)) [
  | inl e ↦ rw e (refl-Lowers s v)
  | inr (r, e) ↦
      rw e (update-Lowers (released_row now reason r) s v (reserved_nonneg key s r v e) refl)
]

append-Lowers :
    (s : Store) (d : Result CashReservation) (s' : Store)
    (rest : Result (List CashReservation) × Store)
    → Lowers s s'
    → Lowers s rest.1
    → Lowers s (append_result d s' rest).1
append-Lowers s (err e) s' rest a b = a
append-Lowers s (ok d) s' (ok ds, s'') a b = b
append-Lowers s (ok d) s' (err e, s'') a b = b

expire_rows-Lowers :
    (clock : ℕ → Datetime) (i : ℕ) (rows : List CashReservationOrm) (s : Store)
    → IsValid s
    → All (λ r. pos 0 ≤ℤ r.reserved_amount) rows
    → Lowers s (expire_rows clock i rows s).1
unfolding expire_rows
expire_rows-Lowers clock i [] s v n = refl-Lowers s v
expire_rows-Lowers clock i (r ∷ rows) s v n =
    let res = expired_row (clock i) r in
    let step = update-Lowers res s v n.0 refl in
    append-Lowers s (to_domain "" res) (update res s)
      (expire_rows clock (suc i) rows (update res s)) step
      (trans-Lowers s (update res s) _ step
        (expire_rows-Lowers clock (suc i) rows (update res s) step.0 n.1))

found_nonneg :
    (now : Datetime) (s : Store)
    → IsValid s
    → All (λ r. pos 0 ≤ℤ r.reserved_amount) (get_expired_reservations now s)
unfolding get_expired_reservations
found_nonneg now [] v = tt
found_nonneg now (r ∷ s) v = elim (Bool-cases (has_expired now r)) [
  | inl e ↦ rw e (v.0, found_nonneg now s v.2)
  | inr e ↦ rw e (found_nonneg now s v.2)
]

pub expire_reservations-Lowers :
    (clock : ℕ → Datetime) (s : Store) → IsValid s → Lowers s (expire_reservations clock s).1
unfolding expire_reservations
expire_reservations-Lowers clock s v =
    expire_rows-Lowers clock 1 (get_expired_reservations (clock 0) s) s v
      (found_nonneg (clock 0) s v)
