-- ===== src/Reservation/Manager/Solvency.antt =====
-- Any history of the manager's calls keeps an account solvent.
use hqmts.Prelude.{
  ℕ, String, ◌≡◌, ◌≢◌, inl, inr, refl, sym, some, List, [], ◌∷◌, arith, All, Bool-cases,
}
use hqmts.Prelude.Int.{ℤ, ◌≤ℤ◌}
use hqmts.Prelude.Decimal.{Decimal, Datetime}
use text.Mathlib.Text.{◌==◌ as str_eq}
use text.Mathlib.TextEquality.{eq_iff}
use hqmts.Reservation.Store.{Store, get_total_reserved_amount}
use hqmts.Reservation.Store.Laws.{IsValid, create-IsValid}
use hqmts.Reservation.Manager.{
  Result, ok, err, CashReservation, Request, new_row, reserve, consume, release,
  expire_reservations,
}
use hqmts.Reservation.Manager.Steps.{
  reserve-Made, reserve_err, Lowers, consume-Lowers, release-Lowers, expire_reservations-Lowers,
}
use hqmts.Reservation.Manager.Reserve.{reserve_covered, reserve_other_account}

-- One call of the manager, with what it reads from outside.
pub data Call : Type 0 where
  reserve_call : String → Datetime → Request → Call
  consume_call : Datetime → String → Decimal → Call
  release_call : Datetime → String → String → Call
  expire_call : (ℕ → Datetime) → Call

-- The table after a call, whether it returned or raised.
pub perform : Call → Store → Store
perform (reserve_call new_id now q) s = (reserve new_id now q s).1
perform (consume_call now key amount) s = (consume now key amount s).1
perform (release_call now key reason) s = (release now key reason s).1
perform (expire_call clock) s = (expire_reservations clock s).1

pub perform_all : List Call → Store → Store
perform_all [] s = s
perform_all (c ∷ calls) s = perform_all calls (perform c s)

-- Requests for the account state at most `cash` as available.
abbrev pub StatesAtMost : String → ℤ → Call → Type 0
StatesAtMost account cash (reserve_call new_id now q) =
    q.account_id ≡ account → (c : ℤ) → q.available_cash ≡ some c → c ≤ℤ cash
StatesAtMost account cash _ = Unit

pub record Solvent (account : String) (cash : ℤ) (s : Store) : Type 0 where
  pub valid : IsValid s
  pub within : get_total_reserved_amount account s ≤ℤ cash

module _ (account : String) (cash : ℤ) where
  reserve-Solvent :
      (new_id : String) (now : Datetime) (q : Request) (s : Store)
      (out : Result CashReservation × Store)
      → reserve new_id now q s ≡ out
      → StatesAtMost account cash (reserve_call new_id now q)
      → Solvent account cash s
      → Solvent account cash out.1
  reserve-Solvent new_id now q s (err e, s') h b v = rw (reserve_err new_id now q s s' e h) v
  reserve-Solvent new_id now q s (ok r, s') h b v =
      let m = reserve-Made new_id now q s s' r h in
      let kept = create-IsValid (new_row new_id now q) s m.nonneg m.inserted v.valid in
      elim (Bool-cases (str_eq q.account_id account)) [
        | inl e ↦
            let p : q.account_id ≡ account = (eq_iff q.account_id account).0 e in
            let (n, g, c, given, le) = reserve_covered new_id now q s s' r h in
            let le' : get_total_reserved_amount account s' ≤ℤ c = rw p at le in
            record { valid = kept; within = omega (arith, le', b p c given) }
        | inr e ↦
            let ne : account ≢ q.account_id =
              λ p. cc (e, (eq_iff q.account_id account).1 (sym p)) in
            record {
              valid = kept;
              within = rw (reserve_other_account new_id now q s s' r account h ne) v.within;
            }
      ]

  lowered : (s s' : Store) → Lowers s s' → Solvent account cash s → Solvent account cash s'
  lowered s s' l v = record { valid = l.0; within = omega (arith, l.1 account, v.within) }

  perform-Solvent :
      (c : Call) (s : Store)
      → StatesAtMost account cash c
      → Solvent account cash s
      → Solvent account cash (perform c s)
  unfolding perform
  perform-Solvent (reserve_call new_id now q) s b v = reserve-Solvent new_id now q s _ refl b v
  perform-Solvent (consume_call now key amount) s b v =
      lowered s _ (consume-Lowers now key amount s v.valid) v
  perform-Solvent (release_call now key reason) s b v =
      lowered s _ (release-Lowers now key reason s v.valid) v
  perform-Solvent (expire_call clock) s b v =
      lowered s _ (expire_reservations-Lowers clock s v.valid) v

  -- After any sequence of calls, returning or raising, the active reservations of an account are
  -- covered by the cash, if they were before and no request for it stated more as available; and
  -- the table stays valid.
  pub perform_all-Solvent :
      (calls : List Call) (s : Store)
      → All (StatesAtMost account cash) calls
      → Solvent account cash s
      → Solvent account cash (perform_all calls s)
  unfolding perform_all
  perform_all-Solvent [] s b v = v
  perform_all-Solvent (c ∷ calls) s b v =
      perform_all-Solvent calls (perform c s) b.1 (perform-Solvent c s b.0 v)
