-- ===== src/Execution/Service/Outcomes.antt =====
-- What a run of the pipeline leaves in the table of reservations.
use hqmts.Prelude.{
  String, ◌≡◌, ◌≢◌, ◌⊎◌, inl, inr, refl, ap, ◌∙◌, Bool, true, false, Option, none, some, ◌∷◌, arith,
  Bool-cases, Option-cases,
}
use hqmts.Prelude.Int.{ℤ, pos, ◌<ℤ◌, ltb_ℤ}
use hqmts.Prelude.Decimal.{Datetime}
use text.Mathlib.Text.{◌==◌ as str_eq}
use text.Mathlib.TextEquality.{eq_iff}
use text.Mathlib.TextPositions.{eq_refl}
use hqmts.Fsm.Reservation.{ReservationStatus}
use hqmts.Reservation.Store.{CashReservationOrm, Store, get_by_id, update}
use hqmts.Reservation.Store.Laws.{update_absent, create_row, create_absent}
use hqmts.Reservation.Manager
use hqmts.Reservation.Manager.{
  CashReservation, Request, new_row, reserve, release, released_row, to_domain,
}
use hqmts.Reservation.Manager.Steps.{Made}
use hqmts.Risk.FinalCheck.{execute}
use hqmts.Execution.Types.{ExecutionIntent, OrderRequest}
use hqmts.Execution.Pipeline.{
  Answer, ok, err, Failure, Pipeline, ◌>>=◌, pure, of_answer, Answer-cases, bind_ok, bind_err,
  call_ok, on_error_ok, on_error_err,
}
use hqmts.Execution.Converter.{create_execution_intent, convert_to_order_request, determine_side}
use hqmts.Execution.Service.{
  Outside, Job, request_of, release_if, is_allowed, checked, request_if, check_and_request,
  protected_steps,
}

-- The row that a reservation has made.
abbrev pub made_row : Outside → Job → ℤ → CashReservationOrm
made_row w j quantity = new_row w.reservation_id w.reservation_clock (request_of j quantity)

-- Its release is accepted, and writes only over that row.
release-Made :
    (id : String) (now later : Datetime) (q : Request) (reason : String) (s t : Store)
    → Made id now q s t
    → (d : CashReservation) × (release later id reason t
        ≡ (Manager.ok d, released_row later reason (new_row id now q) ∷ s))
unfolding release get_by_id update
release-Made id now later q reason s t m =
    let e = create_row (new_row id now q) s m.inserted in
    let a = create_absent (new_row id now q) s m.inserted in
    let z : ltb_ℤ q.amount (pos 0) ≡ false = (let n = m.nonneg in ground arith) in
    (
      record {
        reservation_id = id;
        account_id = q.account_id;
        strategy_instance_id = q.strategy_instance_id;
        signal_id = q.signal_id;
        execution_intent_id = q.execution_intent_id;
        reserved_amount = q.amount;
        consumed_amount = pos 0;
        status = ReservationStatus.released;
        expires_at = (new_row id now q).expires_at;
        released_reason = reason;
        created_at = now;
        updated_at = later;
      },
      rw (
        e,
        eq_refl id,
        update_absent (released_row later reason (new_row id now q)) s a,
        eq_refl id,
        z,
      ),
    )

pub release_if-Made :
    (id : String) (now later : Datetime) (q : Request) (reason : String) (s t : Store)
    → id ≢ ""
    → Made id now q s t
    → release_if later (some id) reason t
      ≡ (ok tt, released_row later reason (new_row id now q) ∷ s)
unfolding release_if
release_if-Made id now later q reason s t ne m =
    let (d, e) = release-Made id now later q reason s t m in
    elim (Bool-cases (str_eq id "")) [
      | inl h ↦ absurd (ne ((eq_iff id "").0 h))
      | inr h ↦ rw h (call_ok t (release later id reason) (λ _. pure tt) e refl)
    ]

-- What an intent takes from the signal and the arguments.
pub record Carries (i : ExecutionIntent) (j : Job) (quantity : ℤ) (reservation_id : Option String)
    : Type 0 where
  pub reservation : i.reservation_id ≡ reservation_id
  pub price : i.reference_price ≡ j.reference_price
  pub target : i.target_quantity ≡ quantity
  pub instrument : i.instrument_id ≡ j.signal.instrument_id
  pub side : determine_side j.signal.signal_type ≡ some i.side
  pub positive : pos 0 <ℤ quantity

intent-Carries :
    (w : Outside) (j : Job) (quantity : ℤ) (rid : Option String) (i : ExecutionIntent)
    → create_execution_intent w.intent_id w.intent_clock j.signal j.account_id j.reference_price
        quantity rid
      ≡ ok i
    → Carries i j quantity rid
unfolding create_execution_intent
intent-Carries w j quantity rid i h = elim (Option-cases (determine_side j.signal.signal_type)) [
  | inl e ↦ absurd (cc (rw (e, create_execution_intent) at h))
  | inr (side, e) ↦
      let h' = rw (e, create_execution_intent) at h in
      record {
        reservation = ground arith;
        price = ground arith;
        target = ground arith;
        instrument = ground arith;
        side = ground arith;
        positive = ground arith;
      }
]

-- A reservation that was made and given back.
abbrev pub Undone : Store → Store → Type 0
Undone s t =
    (t ≡ s) ⊎ ((r : CashReservationOrm) × (t ≡ r ∷ s) × (r.status ≡ ReservationStatus.released))

abbrev pub NoOrder : Answer (Option OrderRequest) → Type 0
NoOrder (ok none) = Unit
NoOrder (ok (some o)) = ⊥
NoOrder (err e) = Unit

-- The ends of `protected_steps` from a table `t`, where giving the reservation back leads to `u`
-- after a refusal and to `u'` after an exception.
pub data Shape (w : Outside) (j : Job) (quantity : ℤ) (rid : Option String) (t u u' : Store)
    (out : Answer (Option OrderRequest) × Store) : Type 0 where
  ordered :
      (i : ExecutionIntent) (o : OrderRequest)
      → Carries i j quantity rid
      → is_allowed (execute (checked j i)).result ≡ true
      → convert_to_order_request w.order_request_id w.submit_clock i ≡ ok o
      → out ≡ (ok (some o), t)
      → Shape w j quantity rid t u u' out
  refused : out ≡ (ok none, u) → Shape w j quantity rid t u u' out
  failed : (f : Failure) → out ≡ (err f, u') → Shape w j quantity rid t u u' out

requested :
    (w : Outside) (j : Job) (i : ExecutionIntent) (go : Bool) (t : Store)
    → is_allowed (execute (checked j i)).result ≡ go
    → check_and_request w j i t ≡ request_if go w i t
unfolding check_and_request
requested w j i go t e = ap (λ (b : Bool). request_if b w i t) e

refusal :
    (w : Outside) (i : ExecutionIntent) (rid : Option String) (t : Store) {u : Store}
    → i.reservation_id ≡ rid
    → release_if w.release_clock rid "Final check failed" t ≡ (ok tt, u)
    → request_if false w i t ≡ (ok none, u)
refusal w i rid t e a =
    bind_ok t (release_if w.release_clock i.reservation_id "Final check failed") (λ _. pure none)
      (rw e a) refl

request_ok :
    (w : Outside) (i : ExecutionIntent) (t : Store) {o : OrderRequest}
    → convert_to_order_request w.order_request_id w.submit_clock i ≡ ok o
    → request_if true w i t ≡ (ok (some o), t)
request_ok w i t d =
    bind_ok t (of_answer (convert_to_order_request w.order_request_id w.submit_clock i))
      (λ o. pure (some o)) (ap (λ (r : Answer OrderRequest). (r, t)) d) refl

request_err :
    (w : Outside) (i : ExecutionIntent) (t : Store) {f : Failure}
    → convert_to_order_request w.order_request_id w.submit_clock i ≡ err f
    → request_if true w i t ≡ (err f, t)
request_err w i t d =
    bind_err t (of_answer (convert_to_order_request w.order_request_id w.submit_clock i))
      (λ o. pure (some o)) (ap (λ (r : Answer OrderRequest). (r, t)) d)

pub protected_steps-Shape :
    (w : Outside) (j : Job) (quantity : ℤ) (rid : Option String) (t u u' : Store)
    → release_if w.release_clock rid "Final check failed" t ≡ (ok tt, u)
    → release_if w.cleanup_clock rid "Pipeline exception during execution" t ≡ (ok tt, u')
    → Shape w j quantity rid t u u' (protected_steps w j quantity rid t)
unfolding protected_steps
protected_steps-Shape w j quantity rid t u u' a b =
    let made =
      create_execution_intent w.intent_id w.intent_clock j.signal j.account_id j.reference_price
        quantity rid in
    let start : Pipeline ExecutionIntent = of_answer made in
    let go_on = check_and_request w j in
    let cleanup = release_if w.cleanup_clock rid "Pipeline exception during execution" in
    elim (Answer-cases made) [
      | inr (f, e) ↦ failed f (
          on_error_err cleanup (start >>= go_on) t
            (bind_err t start go_on (ap (λ (r : Answer ExecutionIntent). (r, t)) e)) b)
      | inl (i, e) ↦
          let c = intent-Carries w j quantity rid i e in
          let e' : start t ≡ (ok i, t) = ap (λ (r : Answer ExecutionIntent). (r, t)) e in
          elim (Bool-cases (is_allowed (execute (checked j i)).result)) [
            | inr stop ↦ refused (
                on_error_ok cleanup (start >>= go_on) t (
                  bind_ok t start go_on e'
                    (requested w j i false t stop ∙ refusal w i rid t c.reservation a)))
            | inl go ↦
                elim (Answer-cases (convert_to_order_request w.order_request_id w.submit_clock i)) [
                  | inr (f, d) ↦ failed f (
                      on_error_err cleanup (start >>= go_on) t
                        (bind_ok t start go_on e' (requested w j i true t go ∙ request_err w i t d))
                        b)
                  | inl (o, d) ↦ ordered i o c go d (
                      on_error_ok cleanup (start >>= go_on) t
                        (bind_ok t start go_on e' (requested w j i true t go ∙ request_ok w i t d)))
                ]
          ]
    ]
