-- ===== src/Reservation/Manager/Expiry.antt =====
-- `expire_reservations` finishes and leaves nothing expired.
use hqmts.Prelude.{
  ℕ, suc, ◌≡◌, ◌⊎◌, inl, inr, refl, sym, Bool, true, false, List, [], ◌∷◌, arith, All, any, keep,
  Bool-cases,
}
use hqmts.Prelude.Int.{pos, ◌≤ℤ◌}
use hqmts.Prelude.Decimal.{Datetime}
use mathlib.Core.Path.{subst}
use text.Mathlib.Text.{◌==◌ as str_eq}
use text.Mathlib.TextEquality.{eq_iff}
use hqmts.Reservation.Store.{
  CashReservationOrm, Store, has_expired, get_expired_reservations, update,
}
use text.Mathlib.TextPositions.{eq_refl}
use hqmts.Fsm.Reservation.{expired}
use hqmts.Reservation.Manager.{
  Result, ok, err, CashReservation, to_domain, expired_row, append_result, expire_rows,
  expire_reservations,
}

-- Whether a list of rows has one with the key of `x`.
abbrev has_key : CashReservationOrm → List CashReservationOrm → Bool
has_key x rows = any (λ r. str_eq r.reservation_id x.reservation_id) rows

-- The rows of the table that are expired are among those that are still to be visited.
abbrev Pending : Datetime → List CashReservationOrm → Store → Type 0
Pending now rows s = All (λ x. (has_expired now x ≡ false) ⊎ (has_key x rows ≡ true)) s

Pending-cons :
    (now : Datetime) (r : CashReservationOrm) (rows : List CashReservationOrm) (s : Store)
    → Pending now rows s
    → Pending now (r ∷ rows) s
Pending-cons now r rows [] p = tt
Pending-cons now r rows (x ∷ s) p =
    (elim p.0 [ inl e ↦ inl e | inr e ↦ inr (ground arith) ], Pending-cons now r rows s p.1)

found_first :
    (now : Datetime) (x : CashReservationOrm) (rows found : List CashReservationOrm) (s : Store)
    → rows ≡ x ∷ found
    → Pending now found s
    → Pending now rows (x ∷ s)
found_first now x rows found s e p =
    subst (λ l. Pending now l (x ∷ s)) (sym e)
      (inr (rw (eq_refl x.reservation_id)), Pending-cons now x found s p)

found_later :
    (now : Datetime) (x : CashReservationOrm) (rows found : List CashReservationOrm) (s : Store)
    → rows ≡ found
    → has_expired now x ≡ false
    → Pending now found s
    → Pending now rows (x ∷ s)
found_later now x rows found s e h p = subst (λ l. Pending now l (x ∷ s)) (sym e) (inl h, p)

found-Pending : (now : Datetime) (s : Store) → Pending now (keep (has_expired now) s) s
found-Pending now [] = tt
found-Pending now (x ∷ s) = elim (Bool-cases (has_expired now x)) [
  | inl e ↦ found_first now x _ (keep (has_expired now) s) s (rw e) (found-Pending now s)
  | inr e ↦ found_later now x _ (keep (has_expired now) s) s (rw e) e (found-Pending now s)
]

update-Pending :
    (now t : Datetime) (r : CashReservationOrm) (rows : List CashReservationOrm) (s : Store)
    → Pending now (r ∷ rows) s
    → Pending now rows (update (expired_row t r) s)
unfolding update
update-Pending now t r rows [] p = tt
update-Pending now t r rows (x ∷ s) p =
    let rest = update-Pending now t r rows s p.1 in
    elim (Bool-cases (str_eq x.reservation_id r.reservation_id)) [
      | inl e ↦ rw e (inl refl, rest)
      | inr e ↦ rw e (
        ground (
          arith,
          eq_iff x.reservation_id r.reservation_id,
          eq_iff r.reservation_id x.reservation_id,
          p.0,
        ),
        rest,
      )
    ]

none-Pending : (now : Datetime) (s : Store) → Pending now [] s → keep (has_expired now) s ≡ []
none-Pending now [] p = refl
none-Pending now (x ∷ s) p = elim p.0 [ inl e ↦ rw e (none-Pending now s p.1) | inr e ↦ cc e ]

-- Rows whose amounts the domain model accepts.
abbrev pub Acceptable : List CashReservationOrm → Type 0
Acceptable = All (λ r. (pos 0 ≤ℤ r.reserved_amount) × (pos 0 ≤ℤ r.consumed_amount))

found-Acceptable :
    (now : Datetime) (s : Store) → Acceptable s → Acceptable (keep (has_expired now) s)
found-Acceptable now [] a = tt
found-Acceptable now (x ∷ s) a = elim (Bool-cases (has_expired now x)) [
  | inl e ↦ rw e (a.0, found-Acceptable now s a.1)
  | inr e ↦ rw e (found-Acceptable now s a.1)
]

-- The loop returns, and no row of the table is left that was to be visited and is expired.
abbrev Swept : Datetime → Result (List CashReservation) × Store → Type 0
Swept now out =
    ((ds : List CashReservation) × (out.0 ≡ ok ds)) × (keep (has_expired now) out.1 ≡ [])

append-Swept :
    (now : Datetime) (d : Result CashReservation) (s : Store)
    (rest : Result (List CashReservation) × Store)
    → (c : CashReservation) × (d ≡ ok c)
    → Swept now rest
    → Swept now (append_result d s rest)
append-Swept now (ok c) s (ok ds, s') a h = ((c ∷ ds, refl), h.1)
append-Swept now (ok c) s (err e, s') a h = absurd (cc h.0.1)
append-Swept now (err e) s rest a h = absurd (cc a.1)

accepted :
    (t : Datetime) (r : CashReservationOrm)
    → pos 0 ≤ℤ r.reserved_amount
    → pos 0 ≤ℤ r.consumed_amount
    → (c : CashReservation) × (to_domain "" (expired_row t r) ≡ ok c)
accepted t r n m = (
  record {
    reservation_id = r.reservation_id;
    account_id = r.account_id;
    strategy_instance_id = r.strategy_instance_id;
    signal_id = r.signal_id;
    execution_intent_id = r.execution_intent_id;
    reserved_amount = r.reserved_amount;
    consumed_amount = r.consumed_amount;
    status = expired;
    expires_at = r.expires_at;
    released_reason = "";
    created_at = r.created_at;
    updated_at = t;
  },
  ground arith,
)

expire_rows-Swept :
    (now : Datetime) (clock : ℕ → Datetime) (i : ℕ) (rows : List CashReservationOrm) (s : Store)
    → Acceptable rows
    → Pending now rows s
    → Swept now (expire_rows clock i rows s)
unfolding expire_rows
expire_rows-Swept now clock i [] s a p = (([], refl), none-Pending now s p)
expire_rows-Swept now clock i (r ∷ rows) s a p =
    let res = expired_row (clock i) r in
    append-Swept now (to_domain "" res) (update res s)
      (expire_rows clock (suc i) rows (update res s)) (accepted (clock i) r a.0.0 a.0.1)
      (expire_rows-Swept now clock (suc i) rows (update res s) a.1
        (update-Pending now (clock i) r rows s p))

-- On a table whose amounts are not negative `expire_reservations` returns, and then no active
-- reservation is left that had expired when it began, at its first reading of the clock.
pub expire_reservations_completes :
    (clock : ℕ → Datetime) (s : Store)
    → Acceptable s
    → ((ds : List CashReservation) × ((expire_reservations clock s).0 ≡ ok ds))
      × (get_expired_reservations (clock 0) (expire_reservations clock s).1 ≡ [])
unfolding expire_reservations get_expired_reservations
expire_reservations_completes clock s a =
    expire_rows-Swept (clock 0) clock 1 (keep (has_expired (clock 0)) s) s
      (found-Acceptable (clock 0) s a) (found-Pending (clock 0) s)
