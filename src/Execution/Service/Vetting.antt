-- ===== src/Execution/Service/Vetting.antt =====
-- How a whole run of `process_signal` may end.
use hqmts.Prelude.{
  String, ◌≡◌, ◌≢◌, ◌⊎◌, inl, inr, refl, ap, ◌∙◌, Bool, true, false, ◌&&◌, Option, none, some,
  arith, Bool-cases, Option-cases, ◌≤◌, ltb,
}
use hqmts.Prelude.Int.{ℤ, pos, ◌<ℤ◌, ltb_ℤ}
use hqmts.Prelude.Decimal.{Datetime}
use hqmts.Risk.Types.{RiskCheckResult, RiskResultType, allow, reject, resize, delay, force_flatten}
use hqmts.Reservation.Store.{Store}
use hqmts.Reservation.Manager
use hqmts.Reservation.Manager.{CashReservation, reserve, released_row}
use hqmts.Reservation.Manager.Steps.{Made, reserve-Made, reserve-id, reserve_err}
use hqmts.Risk.FinalContext
use hqmts.Risk.FinalContext.{FinalCheckContext, FinalCheckResult}
use hqmts.Risk.FinalCheck.{execute}
use hqmts.Execution.Types.{is_expired, has_decision_binding, ExecutionIntent, OrderRequest}
use hqmts.Execution.Pipeline.{
  Answer, ok, err, expired_signal_error, missing_decision_snapshot_error, risk_reject_error,
  force_flatten_error, reservation_error, Pipeline, ◌>>=◌, pure, bind_ok, bind_err, call_ok,
  call_err,
}
use hqmts.Execution.Converter.{
  validate_signal_for_live, run_pre_trade_risk, convert_to_order_request, determine_side,
}
use hqmts.Execution.Service.{
  Outside, Job, resized_or, after_risk, request_of, is_opening, reserve_opening, release_if,
  is_allowed, checked, populated, protected_steps, go_on, process_signal,
}
use hqmts.Execution.Service.Approval.{Approved, as_asked, resized-Approved}
use hqmts.Execution.Service.Outcomes.{
  release_if-Made, Carries, Undone, NoOrder, ordered, refused, failed, protected_steps-Shape,
}

abbrev pub reserves : Job → Bool
reserves j = is_opening j.signal.signal_type && ltb_ℤ (pos 0) j.reference_price

-- The cash behind an order.
pub data Backed (w : Outside) (j : Job) (s : Store) (o : OrderRequest) (s' : Store) : Type 0 where
  without_cash : reserves j ≡ false → o.reservation_id ≡ none → s' ≡ s → Backed w j s o s'
  with_cash :
      reserves j ≡ true
      → o.reservation_id ≡ some w.reservation_id
      → Made w.reservation_id w.reservation_clock (request_of j o.quantity) s s'
      → Backed w j s o s'

-- What an order has passed.
pub record Final (j : Job) (o : OrderRequest) : Type 0 where
  pub price : o.price ≡ j.reference_price
  pub instrument : o.instrument_id ≡ j.signal.instrument_id
  pub side : determine_side j.signal.signal_type ≡ some o.side
  pub positive : pos 0 <ℤ o.quantity
  pub checked :
      (execute (populated j.final_check_context o.price o.quantity o.side o.instrument_id)).result
      ≡ FinalContext.allow

pub record Vetted (w : Outside) (j : Job) (s : Store) (o : OrderRequest) (s' : Store) : Type 0 where
  pub in_time : w.signal_clock ≤ j.signal.valid_until
  pub decision : (id : String) × (j.signal.decision_snapshot_id ≡ some id)
  pub approved :
      Approved (run_pre_trade_risk j.signal j.risk_context j.rules) j.target_quantity o.quantity
  pub final : Final j o
  pub backed : Backed w j s o s'

-- The ends of a run from the table `s`, where `P` holds of an order and its table.
pub data Ends (s : Store) (P : OrderRequest → Store → Type 0)
    (out : Answer (Option OrderRequest) × Store) : Type 0 where
  no_order :
      (a : Answer (Option OrderRequest)) (s' : Store)
      → out ≡ (a, s')
      → NoOrder a
      → Undone s s'
      → Ends s P out
  order : (o : OrderRequest) (s' : Store) → out ≡ (ok (some o), s') → P o s' → Ends s P out

Result-cases :
    {A : Type 0} (o : Manager.Result A × Store)
    → ((a : A) × (t : Store) × (o ≡ (Manager.ok a, t)))
      ⊎ ((f : Manager.Error) × (t : Store) × (o ≡ (Manager.err f, t)))
Result-cases (Manager.ok a, t) = inl (a, t, refl)
Result-cases (Manager.err f, t) = inr (f, t, refl)

allowed : (r : FinalCheckResult) → is_allowed r ≡ true → r ≡ FinalContext.allow
allowed FinalContext.allow h = refl
allowed FinalContext.reject h = cc
allowed FinalContext.retry_later h = cc
allowed FinalContext.escalate_manual h = cc

-- The order carries what the intent carries.
module _ (new_id : String) (now : Datetime) (i : ExecutionIntent) {o : OrderRequest} where
  order_fields :
      convert_to_order_request new_id now i ≡ ok o
      → (o.price ≡ i.reference_price)
        × (o.quantity ≡ i.target_quantity)
        × (o.side ≡ i.side)
        × (o.instrument_id ≡ i.instrument_id)
        × (o.reservation_id ≡ i.reservation_id)
  unfolding convert_to_order_request
  order_fields h = (ground arith, ground arith, ground arith, ground arith, ground arith)

abbrev Through : Job → ℤ → Option String → OrderRequest → Type 0
Through j quantity rid o = Final j o × (o.quantity ≡ quantity) × (o.reservation_id ≡ rid)

ordered-Through :
    (w : Outside) (j : Job) (quantity : ℤ) (rid : Option String) (i : ExecutionIntent)
    (o : OrderRequest)
    → Carries i j quantity rid
    → is_allowed (execute (checked j i)).result ≡ true
    → convert_to_order_request w.order_request_id w.submit_clock i ≡ ok o
    → Through j quantity rid o
ordered-Through w j quantity rid i o c go d =
    let (p, q, sd, ins, r) = order_fields w.order_request_id w.submit_clock i d in
    (
      record {
        price = p ∙ c.price;
        instrument = ins ∙ c.instrument;
        side = rw sd c.side;
        positive = rw (q, c.target) c.positive;
        checked = rw (p, q, sd, ins) (allowed (execute (checked j i)).result go);
      },
      q ∙ c.target,
      r ∙ c.reservation,
    )

protected_steps-Ends :
    (w : Outside) (j : Job) (quantity : ℤ) (rid : Option String) (s t u u' : Store)
    → release_if w.release_clock rid "Final check failed" t ≡ (ok tt, u)
    → release_if w.cleanup_clock rid "Pipeline exception during execution" t ≡ (ok tt, u')
    → Undone s u
    → Undone s u'
    → Ends s (λ o s'. Through j quantity rid o × (s' ≡ t)) (protected_steps w j quantity rid t)
protected_steps-Ends w j quantity rid s t u u' a b f g =
    elim (protected_steps-Shape w j quantity rid t u u' a b) [
      | ordered i o c go d e ↦ order o t e (ordered-Through w j quantity rid i o c go d, refl)
      | refused e ↦ no_order (ok none) u e tt f
      | failed x e ↦ no_order (err x) u' e tt g
    ]

weaken :
    (s : Store) (P Q : OrderRequest → Store → Type 0) {out : Answer (Option OrderRequest) × Store}
    → ((o : OrderRequest) (s' : Store) → P o s' → Q o s')
    → Ends s P out
    → Ends s Q out
weaken s P Q f (no_order a s' e n u) = no_order a s' e n u
weaken s P Q f (order o s' e p) = order o s' e (f o s' p)

moved :
    (s : Store) (P : OrderRequest → Store → Type 0)
    {out out' : Answer (Option OrderRequest) × Store}
    → out' ≡ out
    → Ends s P out
    → Ends s P out'
moved s P e (no_order a s' d n u) = no_order a s' (e ∙ d) n u
moved s P e (order o s' d p) = order o s' (e ∙ d) p

abbrev Covered : Outside → Job → ℤ → Store → OrderRequest → Store → Type 0
Covered w j quantity s o s' = Final j o × (o.quantity ≡ quantity) × Backed w j s o s'

-- No cash is asked for.
uncovered-Ends :
    (w : Outside) (j : Job) (quantity : ℤ) (s : Store)
    → reserves j ≡ false
    → Ends s (Covered w j quantity s) (go_on w j (some quantity) s)
unfolding go_on reserve_opening release_if
uncovered-Ends w j quantity s h = rw h (
    weaken s (λ o s'. Through j quantity none o × (s' ≡ s)) (Covered w j quantity s)
      (λ o s' x. (x.0.0, x.0.1, without_cash h x.0.2 x.1))
      (protected_steps-Ends w j quantity none s s s s refl refl (inl refl) (inl refl)))

-- The cash is set aside first.
module _ (w : Outside) (j : Job) (quantity : ℤ) (s : Store) (h : reserves j ≡ true) where
  reserve_opening_ok :
      (d : CashReservation) (t : Store)
      → reserve w.reservation_id w.reservation_clock (request_of j quantity) s ≡ (Manager.ok d, t)
      → reserve_opening w j quantity s ≡ (ok (some w.reservation_id), t)
  unfolding reserve_opening
  reserve_opening_ok d t e = rw h (
      call_ok s (reserve w.reservation_id w.reservation_clock (request_of j quantity))
        (λ r. pure (some r.reservation_id)) e
        (ap (λ (x : String). (ok (some x), t)) (reserve-id _ _ _ s t d e)))

  reserve_opening_err :
      (f : Manager.Error) (t : Store)
      → reserve w.reservation_id w.reservation_clock (request_of j quantity) s ≡ (Manager.err f, t)
      → reserve_opening w j quantity s ≡ (err (reservation_error f), t)
  unfolding reserve_opening
  reserve_opening_err f t e = rw h (
      call_err s (reserve w.reservation_id w.reservation_clock (request_of j quantity))
        (λ r. pure (some r.reservation_id)) e)

  Made-Ends :
      (t : Store)
      → w.reservation_id ≢ ""
      → Made w.reservation_id w.reservation_clock (request_of j quantity) s t
      → Ends s (Covered w j quantity s) (protected_steps w j quantity (some w.reservation_id) t)
  Made-Ends t ne m =
      weaken s (λ o s'. Through j quantity (some w.reservation_id) o × (s' ≡ t))
        (Covered w j quantity s) (λ o s' x. (x.0.0, x.0.1, with_cash h x.0.2 (rw (x.0.1, x.1) m)))
        (protected_steps-Ends w j quantity (some w.reservation_id) s t _ _
          (release_if-Made w.reservation_id w.reservation_clock w.release_clock
            (request_of j quantity) "Final check failed" s t ne m)
          (release_if-Made w.reservation_id w.reservation_clock w.cleanup_clock
            (request_of j quantity) "Pipeline exception during execution" s t ne m)
          (inr (_, refl, refl)) (inr (_, refl, refl)))

  reserved-Ends :
      w.reservation_id ≢ "" → Ends s (Covered w j quantity s) (go_on w j (some quantity) s)
  unfolding go_on
  reserved-Ends ne =
      let request = request_of j quantity in
      let call = reserve w.reservation_id w.reservation_clock request in
      let step = reserve_opening w j quantity in
      elim (Result-cases (call s)) [
        | inl (d, t, e) ↦
            moved s (Covered w j quantity s)
              (bind_ok s step (protected_steps w j quantity) (reserve_opening_ok d t e) refl)
              (Made-Ends t ne (reserve-Made w.reservation_id w.reservation_clock request s t d e))
        | inr (f, t, e) ↦
            no_order (err (reservation_error f)) t
              (bind_err s step (protected_steps w j quantity) (reserve_opening_err f t e)) tt
              (inl (reserve_err w.reservation_id w.reservation_clock request s t f e))
      ]

go_on-Ends :
    (w : Outside) (j : Job) (quantity : ℤ) (s : Store)
    → w.reservation_id ≢ ""
    → Ends s (Covered w j quantity s) (go_on w j (some quantity) s)
go_on-Ends w j quantity s ne = elim (Bool-cases (reserves j)) [
  | inl h ↦ reserved-Ends w j quantity s h ne
  | inr h ↦ uncovered-Ends w j quantity s h
]

-- The part after the risk engine's verdict.
abbrev Rest : Outside → Job → RiskResultType → RiskCheckResult → Pipeline (Option OrderRequest)
Rest w j verdict r = after_risk verdict r j.target_quantity >>= go_on w j

abbrev Passed : Outside → Job → RiskCheckResult → Store → OrderRequest → Store → Type 0
Passed w j r s o s' = Approved r j.target_quantity o.quantity × Final j o × Backed w j s o s'

Rest-Ends :
    (w : Outside) (j : Job) (verdict : RiskResultType) (r : RiskCheckResult) (s : Store)
    → w.reservation_id ≢ ""
    → r.result_type ≡ verdict
    → Ends s (Passed w j r s) (Rest w j verdict r s)
unfolding go_on
Rest-Ends w j allow r s ne e =
    weaken s (Covered w j j.target_quantity s) (Passed w j r s)
      (λ o s' x. (as_asked e x.1, x.0, x.2)) (go_on-Ends w j j.target_quantity s ne)
Rest-Ends w j resize r s ne e =
    weaken s (Covered w j (resized_or j.target_quantity r.resized_quantity) s) (Passed w j r s)
      (λ o s' x.
        (resized-Approved r j.target_quantity o.quantity r.resized_quantity e refl x.1, x.0, x.2))
      (go_on-Ends w j (resized_or j.target_quantity r.resized_quantity) s ne)
Rest-Ends w j reject r s ne e =
    no_order (err (risk_reject_error r.triggered_rules)) s refl tt (inl refl)
Rest-Ends w j force_flatten r s ne e =
    no_order (err (force_flatten_error r.triggered_rules)) s refl tt (inl refl)
Rest-Ends w j delay r s ne e = no_order (ok none) s refl tt (inl refl)

pub process_signal-Ends :
    (w : Outside) (j : Job) (s : Store)
    → w.reservation_id ≢ ""
    → Ends s (Vetted w j s) (process_signal w j s)
unfolding process_signal validate_signal_for_live is_expired has_decision_binding
process_signal-Ends w j s ne = elim (Bool-cases (ltb j.signal.valid_until w.signal_clock)) [
  | inl late ↦ no_order (err expired_signal_error) s (rw late refl) tt (inl refl)
  | inr in_time ↦ elim (Option-cases j.signal.decision_snapshot_id) [
    | inl unbound ↦
        no_order (err missing_decision_snapshot_error) s (rw (in_time, unbound) refl) tt (inl refl)
    | inr (id, bound) ↦
        let r = run_pre_trade_risk j.signal j.risk_context j.rules in
        moved s (Vetted w j s) (rw (in_time, bound) refl) (
          weaken s (Passed w j r s) (Vetted w j s)
            (λ o s' x. record {
              in_time = ground arith;
              decision = (id, bound);
              approved = x.0;
              final = x.1;
              backed = x.2;
            })
            (Rest-Ends w j r.result_type r s ne refl))
  ]
]
