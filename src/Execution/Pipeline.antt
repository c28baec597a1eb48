-- ===== src/Execution/Pipeline.antt =====
-- Steps that may raise, over the table of reservations: the exceptions of the pipeline and its
-- `try` / `except`.
use hqmts.Prelude.{String, ◌≡◌, refl, ap, ◌∙◌, ◌⊎◌, inl, inr, Bool, List, if◌then◌else◌}
use hqmts.Reservation.Store.{Store}
use hqmts.Reservation.Manager
use hqmts.Reservation.Manager.{Error}

-- What is raised. `reservation_error` carries what a manager's method raised, `validation_error` is
-- pydantic's, `value_error` is ValueError.
pub data Failure : Type 0 where
  expired_signal_error missing_decision_snapshot_error validation_error value_error : Failure
  risk_reject_error force_flatten_error : List String → Failure
  reservation_error : Error → Failure

pub data Answer {ℓ} (A : Type ℓ) : Type ℓ where
  ok : A → Answer A
  err : Failure → Answer A

abbrev pub Pipeline : Type 0 → Type 0
Pipeline A = Store → Answer A × Store

infixl 5 ◌>>=◌ ◌>>◌
abbrev pub ◌>>=◌ : {A B : Type 0} → Pipeline A → (A → Pipeline B) → Pipeline B
◌>>=◌ m f s = let (r, s') = m s in elim r [ ok a ↦ f a s' | err e ↦ (err e, s') ]

abbrev pub ◌>>◌ : {A B : Type 0} → Pipeline A → Pipeline B → Pipeline B
m >> k = m >>= λ _. k

abbrev pub pure : {A : Type 0} → A → Pipeline A
pure a s = (ok a, s)

abbrev pub throw : {A : Type 0} → Failure → Pipeline A
throw e s = (err e, s)

abbrev pub raise_if : Bool → Failure → Pipeline (Unit {0})
raise_if c e s = (if c then err e else ok tt, s)

abbrev pub of_answer : {A : Type 0} → Answer A → Pipeline A
of_answer r s = (r, s)

-- A call of the reservation manager.
abbrev lifted : {A : Type 0} → Manager.Result A → Answer A
lifted (Manager.ok a) = ok a
lifted (Manager.err e) = err (reservation_error e)

abbrev pub call : {A : Type 0} → Manager.Action A → Pipeline A
call m s = let (r, s') = m s in (lifted r, s')

-- `try: m  except Exception: cleanup; raise`
abbrev pub on_error : {A : Type 0} → Pipeline (Unit {0}) → Pipeline A → Pipeline A
on_error cleanup m s =
    let (r, s') = m s in elim r [ ok a ↦ (ok a, s') | err e ↦ (cleanup >> throw e) s' ]

-- `try: m  except Exception: pass`
abbrev pub swallow : Pipeline (Unit {0}) → Pipeline (Unit {0})
swallow m s = (ok tt, (m s).1)

pub Answer-cases {ℓ} :
    {A : Type ℓ} (r : Answer A) → ((a : A) × (r ≡ ok a)) ⊎ ((f : Failure) × (r ≡ err f))
Answer-cases (ok a) = inl (a, refl)
Answer-cases (err f) = inr (f, refl)

-- Steps whose results are known, put together.
module _ {A B : Type 0} (s : Store) where
  pub bind_ok :
      (m : Pipeline A) (k : A → Pipeline B) {a : A} {t : Store} {out : Answer B × Store}
      → m s ≡ (ok a, t)
      → k a t ≡ out
      → (m >>= k) s ≡ out
  bind_ok m k {a} {t} {out} e d = ap (λ (o : Answer A × Store). ((λ (_ : Store). o) >>= k) s) e ∙ d

  pub bind_err :
      (m : Pipeline A) (k : A → Pipeline B) {f : Failure} {t : Store}
      → m s ≡ (err f, t)
      → (m >>= k) s ≡ (err f, t)
  bind_err m k {f} {t} e = ap (λ (o : Answer A × Store). ((λ (_ : Store). o) >>= k) s) e

  pub call_ok :
      (m : Manager.Action A) (k : A → Pipeline B) {a : A} {t : Store} {out : Answer B × Store}
      → m s ≡ (Manager.ok a, t)
      → k a t ≡ out
      → (call m >>= k) s ≡ out
  call_ok m k {a} {t} {out} e d =
      ap (λ (o : Manager.Result A × Store). (call (λ (_ : Store). o) >>= k) s) e ∙ d

  pub call_err :
      (m : Manager.Action A) (k : A → Pipeline B) {f : Error} {t : Store}
      → m s ≡ (Manager.err f, t)
      → (call m >>= k) s ≡ (err (reservation_error f), t)
  call_err m k {f} {t} e =
      ap (λ (o : Manager.Result A × Store). (call (λ (_ : Store). o) >>= k) s) e

module _ {A : Type 0} (cleanup : Pipeline (Unit {0})) (m : Pipeline A) (s : Store) {t : Store} where
  pub on_error_ok : {a : A} → m s ≡ (ok a, t) → on_error cleanup m s ≡ (ok a, t)
  on_error_ok e = ap (λ (o : Answer A × Store). on_error cleanup (λ (_ : Store). o) s) e

  pub on_error_err :
      {f : Failure} {u : Store}
      → m s ≡ (err f, t)
      → cleanup t ≡ (ok tt, u)
      → on_error cleanup m s ≡ (err f, u)
  on_error_err {f} {u} e d =
      ap (λ (o : Answer A × Store). on_error cleanup (λ (_ : Store). o) s) e
      ∙ bind_ok t cleanup (λ _. throw f) d refl
