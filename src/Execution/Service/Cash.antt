-- ===== src/Execution/Service/Cash.antt =====
-- What the pipeline, the submission and the broker's callbacks leave of the cash reserved.
use hqmts.Prelude.{
  String, ◌≡◌, ◌≢◌, inl, inr, refl, sym, ap, ◌∙◌, Bool, true, Option, none, some, ◌∷◌, arith,
  Bool-cases, if◌then◌else◌,
}
use hqmts.Prelude.Int.{ℤ, pos, ◌≤ℤ◌, ◌*ℤ◌, ◌+ℤ◌, +ℤ_parts, leb_ℤ, int_laws}
use hqmts.Prelude.Decimal.{Datetime, Decimal}
use text.Mathlib.Text.{◌==◌ as str_eq}
use text.Mathlib.TextEquality.{eq_iff}
use text.Mathlib.TextPositions.{eq_refl}
use hqmts.Fsm.Reservation.{ReservationStatus}
use hqmts.Reservation.Store.{
  CashReservationOrm, Store, get_by_id, update, get_total_reserved_amount,
}
use hqmts.Reservation.Store.Laws.{create_row, create_absent, total_cons, update_absent}
use hqmts.Reservation.Manager
use hqmts.Reservation.Manager.{
  CashReservation, Request, new_row, consume, consumed_row, released_row,
}
use hqmts.Reservation.Manager.Steps.{Made, share_inactive, consumed_inactive}
use hqmts.Execution.Types.{OrderRequest}
use hqmts.Execution.Pipeline.{Answer, ok, err, call, pure, Pipeline, ◌>>=◌, bind_ok}
use hqmts.Execution.Service.{
  Outside, Job, request_of, process_signal, submit_order, handle_fill, handle_order_failed,
  release_if,
}
use hqmts.Execution.Service.Outcomes.{made_row, release_if-Made, Undone, NoOrder}
use hqmts.Execution.Service.Vetting.{
  Vetted, Backed, without_cash, with_cash, no_order, order, process_signal-Ends,
}

-- The sums of a table that was left as it was.
Undone-totals :
    (s t : Store)
    → Undone s t
    → (account : String) → get_total_reserved_amount account t ≡ get_total_reserved_amount account s
Undone-totals s t (inl e) account = ap (get_total_reserved_amount account) e
Undone-totals s t (inr (r, e, d)) account =
    rw (e, total_cons account r s, share_inactive account r (ground arith)) (omega int_laws)

some-order : (o : OrderRequest) (a : Answer (Option OrderRequest)) → a ≡ ok (some o) → NoOrder a → ⊥
some-order o (ok none) h n = cc
some-order o (ok (some x)) h n = n
some-order o (err f) h n = cc

-- A run of `process_signal` from a table, with a fresh id that is not empty, that ends in `None` or
-- in an exception has left the table as it was, or has put one released reservation in front of
-- it; either way the reserved sum of every account is what it was.
pub process_signal_no_leak :
    (w : Outside) (j : Job) (s s' : Store) (a : Answer (Option OrderRequest))
    → w.reservation_id ≢ ""
    → process_signal w j s ≡ (a, s')
    → NoOrder a
    → Undone s s'
      × ((account : String)
          → get_total_reserved_amount account s' ≡ get_total_reserved_amount account s)
process_signal_no_leak w j s s' a ne h n = elim (process_signal-Ends w j s ne) [
  | no_order b t e m u ↦
      let same : s' ≡ t = ap (λ (o : Answer (Option OrderRequest) × Store). o.1) (sym h ∙ e) in
      rw same (u, Undone-totals s t u)
  | order o t e v ↦
      let same : a ≡ ok (some o) =
        ap (λ (o : Answer (Option OrderRequest) × Store). o.0) (sym h ∙ e) in
      absurd (some-order o a same n)
]

-- An order that `process_signal` returns, with a fresh id that is not empty, is for a signal still
-- valid and bound to a decision; the risk engine's verdict was allow, and the order is for the
-- target quantity, or resize, and it is for the resized quantity, but for the target quantity where
-- that is missing or 0; the final check of the context filled in from the order allows it; its
-- price is the reference price, its side the signal's, its quantity is positive; and either no cash
-- was asked for and the table is as it was, or a reservation of price times quantity was made for
-- it, covered by the account's available cash.
pub process_signal-Vetted :
    (w : Outside) (j : Job) (s s' : Store) (o : OrderRequest)
    → w.reservation_id ≢ ""
    → process_signal w j s ≡ (ok (some o), s')
    → Vetted w j s o s'
process_signal-Vetted w j s s' o ne h = elim (process_signal-Ends w j s ne) [
  | no_order a t e n u ↦
      let same : ok (some o) ≡ a =
        ap (λ (o : Answer (Option OrderRequest) × Store). o.0) (sym h ∙ e) in
      absurd (some-order o a (sym same) n)
  | order o' t e v ↦
      let same_order : o ≡ o' = ground (arith, sym h ∙ e) in
      let same : s' ≡ t = ap (λ (o : Answer (Option OrderRequest) × Store). o.1) (sym h ∙ e) in
      rw (same_order, same) v
]

submit_failed :
    {R : Type 0} (adapter : OrderRequest → Option R) (now : Datetime) (o : OrderRequest)
    (s t : Store)
    → adapter o ≡ none
    → handle_order_failed now o.reservation_id "QMT submit failed" s ≡ (ok tt, t)
    → submit_order now (some adapter) o s ≡ (ok none, t)
unfolding submit_order
submit_failed {R} adapter now o s t f e =
    let k : Option R → Pipeline (Option R) = λ r. elim r [
      | some result ↦ pure (some result)
      | none ↦ handle_order_failed now o.reservation_id "QMT submit failed" >>= λ _. pure none
    ] in
    ap (λ (r : Option R). k r s) f
    ∙ bind_ok s (handle_order_failed now o.reservation_id "QMT submit failed") (λ _. pure none) e
        refl

-- What is left of the cash behind an order: nothing was reserved and the table is as before, or the
-- order's reservation stands released in front of it.
pub data GivenBack (o : OrderRequest) (s t : Store) : Type 0 where
  not_reserved : o.reservation_id ≡ none → t ≡ s → GivenBack o s t
  released :
      (r : CashReservationOrm)
      → o.reservation_id ≡ some r.reservation_id
      → r.status ≡ ReservationStatus.released
      → t ≡ r ∷ s
      → GivenBack o s t

GivenBack-Undone : (o : OrderRequest) (s t : Store) → GivenBack o s t → Undone s t
GivenBack-Undone o s t (not_reserved n e) = inl e
GivenBack-Undone o s t (released r n d e) = inr (r, e, d)

given_back :
    (w : Outside) (j : Job) (s s' : Store) (o : OrderRequest) (now : Datetime) (reason : String)
    → w.reservation_id ≢ ""
    → Backed w j s o s'
    → (t : Store) × (handle_order_failed now o.reservation_id reason s' ≡ (ok tt, t))
      × GivenBack o s t
unfolding handle_order_failed release_if
given_back w j s s' o now reason ne (without_cash c n e) = (s', rw n refl, not_reserved n e)
given_back w j s s' o now reason ne (with_cash c k m) =
    let e =
      release_if-Made w.reservation_id w.reservation_clock now (request_of j o.quantity) reason s s'
        ne m in
    let row = released_row now reason (made_row w j o.quantity) in
    (
      row ∷ s,
      rw k (ap (λ (r : Answer (Unit {0}) × Store). (ok tt, r.1)) e),
      released row k refl refl,
    )

-- An order that is returned, then submitted through an adapter that raises: the call answers
-- `None`, and either nothing was reserved for the order and the table is as it was before the
-- signal, or its reservation has the status released and is all that the table has more. The
-- reserved sum of every account is what it was before the signal. The fresh id is not empty.
pub failed_submission_restores :
    (w : Outside) (j : Job) (s s' : Store) (o : OrderRequest) {R : Type 0}
    (adapter : OrderRequest → Option R) (now : Datetime)
    → w.reservation_id ≢ ""
    → process_signal w j s ≡ (ok (some o), s')
    → adapter o ≡ none
    → ((submit_order now (some adapter) o s').0 ≡ ok none)
      × GivenBack o s (submit_order now (some adapter) o s').1
      × ((account : String)
          → get_total_reserved_amount account (submit_order now (some adapter) o s').1
            ≡ get_total_reserved_amount account s)
failed_submission_restores w j s s' o adapter now ne h f =
    let (t, e, u) =
      given_back w j s s' o now "QMT submit failed" ne
        (process_signal-Vetted w j s s' o ne h).backed in
    rw (submit_failed adapter now o s' t f e)
      (refl, u, Undone-totals s t (GivenBack-Undone o s t u))

reaches : (a b : ℤ) → a ≤ℤ b → leb_ℤ a (pos 0 +ℤ b) ≡ true
reaches a b h = ground (arith, +ℤ_parts (pos 0) b)

call_state :
    {A : Type 0} (o : Manager.Result A × Store) (s : Store)
    → ((call (λ (_ : Store). o) >>= λ _. pure {A = Unit {0}} tt) s).1 ≡ o.1
call_state (Manager.ok a, t) s = refl
call_state (Manager.err f, t) s = refl

-- The row that was made is the one consumed.
consume-Made :
    (id : String) (now later : Datetime) (q : Request) (amount : Decimal) (s t : Store)
    → Made id now q s t
    → (consume later id amount t).1 ≡ consumed_row later amount (new_row id now q) ∷ s
unfolding consume get_by_id update
consume-Made id now later q amount s t m =
    let e = create_row (new_row id now q) s m.inserted in
    let a = create_absent (new_row id now q) s m.inserted in
    rw (e, eq_refl id, update_absent (consumed_row later amount (new_row id now q)) s a, eq_refl id)
      refl

handle_fill-Made :
    (id : String) (now later : Datetime) (q : Request) (amount : Decimal) (s t : Store)
    → id ≢ ""
    → Made id now q s t
    → (handle_fill later (some id) amount t).1 ≡ consumed_row later amount (new_row id now q) ∷ s
unfolding handle_fill
handle_fill-Made id now later q amount s t ne m = elim (Bool-cases (str_eq id "")) [
  | inl h ↦ absurd (ne ((eq_iff id "").0 h))
  | inr h ↦
      rw h (call_state (consume later id amount t) t ∙ consume-Made id now later q amount s t m)
]

-- A fill callback that reports at least the reserved amount, for an order that was returned with a
-- reservation: the reservation is fully consumed, with the amount reported, and the reserved sum of
-- every account is what it was before the signal. The fresh id is not empty.
pub fill_consumes :
    (w : Outside) (j : Job) (s s' : Store) (o : OrderRequest) (now : Datetime) (amount : Decimal)
    (id : String)
    → w.reservation_id ≢ ""
    → process_signal w j s ≡ (ok (some o), s')
    → o.reservation_id ≡ some id
    → o.price *ℤ o.quantity ≤ℤ amount
    → (r : CashReservationOrm) × ((handle_fill now o.reservation_id amount s').1 ≡ r ∷ s)
      × (r.status ≡ ReservationStatus.fully_consumed)
      × (r.consumed_amount ≡ amount)
      × ((account : String)
          → get_total_reserved_amount account (r ∷ s) ≡ get_total_reserved_amount account s)
fill_consumes w j s s' o now amount id ne h k c =
    elim ((process_signal-Vetted w j s s' o ne h).backed) [
      | without_cash d n e ↦ absurd (cc (n, k))
      | with_cash d n m ↦
          let p = (process_signal-Vetted w j s s' o ne h).final.price in
          let enough : j.reference_price *ℤ o.quantity ≤ℤ amount = rw p at c in
          (
            consumed_row now amount (made_row w j o.quantity),
            rw n (
                handle_fill-Made w.reservation_id w.reservation_clock now (request_of j o.quantity)
                  amount s s' ne m),
            ap
                (λ (b : Bool).
                  if b
                  then ReservationStatus.fully_consumed
                  else ReservationStatus.partially_consumed)
                (reaches _ amount enough),
            omega int_laws,
            λ account.
                rw
                  (
                    total_cons account (consumed_row now amount (made_row w j o.quantity)) s,
                    share_inactive account (consumed_row now amount (made_row w j o.quantity))
                        (consumed_inactive now amount (made_row w j o.quantity)),
                  )
                  (omega int_laws),
          )
    ]
