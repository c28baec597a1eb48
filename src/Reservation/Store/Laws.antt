-- ===== src/Reservation/Store/Laws.antt =====
-- How the sum of the active reservations and the lookup by key change with the table.
use hqmts.Prelude.{
  String, ◌≡◌, ◌≢◌, inl, inr, refl, sym, ap, ◌∙◌, true, false, none, some, [], ◌∷◌, arith, any,
  if◌then◌else◌, Bool-cases,
}
use hqmts.Prelude.Int.{ℤ, pos, ◌+ℤ◌, ◌≤ℤ◌, int_laws}
use text.Mathlib.Text.{◌==◌ as str_eq}
use text.Mathlib.TextEquality.{eq_iff}
use text.Mathlib.TextPositions.{eq_refl}
use hqmts.Reservation.Store.{
  CashReservationOrm, Store, counts_for, get_total_reserved_amount, get_by_id, create, update,
  conflicts,
}

-- No reserved amount is negative, and no two rows share their key.
abbrev pub IsValid : Store → Type 0
IsValid [] = Unit
IsValid (r ∷ rows) =
    (pos 0 ≤ℤ r.reserved_amount) × (get_by_id r.reservation_id rows ≡ none) × IsValid rows

-- What a row adds to the sum of an account.
abbrev pub share : String → CashReservationOrm → ℤ
share account r = if counts_for account r then r.reserved_amount else pos 0

pub total_cons :
    (account : String) (r : CashReservationOrm) (s : Store)
    → get_total_reserved_amount account (r ∷ s)
      ≡ share account r +ℤ get_total_reserved_amount account s
unfolding get_total_reserved_amount
total_cons account r s = elim (Bool-cases (counts_for account r)) [
  | inl e ↦ rw e
  | inr e ↦ rw e (omega int_laws)
]

pub total-create :
    (account : String) (r : CashReservationOrm) (s : Store) {s' : Store}
    → create r s ≡ some s'
    → get_total_reserved_amount account s' ≡ share account r +ℤ get_total_reserved_amount account s
unfolding create
total-create account r s {s'} h = elim (Bool-cases (any (conflicts r) s)) [
  | inl e ↦ ground arith
  | inr e ↦ ground (arith, total_cons account r s)
]

pub share_nonneg :
    (account : String) (r : CashReservationOrm)
    → pos 0 ≤ℤ r.reserved_amount
    → pos 0 ≤ℤ share account r
share_nonneg account r h = elim (Bool-cases (counts_for account r)) [
  | inl e ↦ rw e h
  | inr e ↦ rw e (omega arith)
]

pub total_nonneg :
    (account : String) (s : Store) → IsValid s → pos 0 ≤ℤ get_total_reserved_amount account s
total_nonneg account [] v = unfold get_total_reserved_amount in omega arith
total_nonneg account (x ∷ s) v =
    rw (total_cons account x s)
      (omega (int_laws, share_nonneg account x v.0, total_nonneg account s v.2))

pub get_by_id-key :
    (key : String) (s : Store) {r : CashReservationOrm}
    → get_by_id key s ≡ some r
    → r.reservation_id ≡ key
unfolding get_by_id
get_by_id-key key [] h = cc
get_by_id-key key (x ∷ s) {r} h =
    ground (arith, eq_iff x.reservation_id key, get_by_id-key key s {r = r})

pub update_absent :
    (r : CashReservationOrm) (s : Store) → get_by_id r.reservation_id s ≡ none → update r s ≡ s
unfolding get_by_id update
update_absent r [] h = refl
update_absent r (x ∷ s) h = ground (arith, update_absent r s)

-- A write does not change which keys are there.
pub get_by_id-update_ne :
    (key : String) (new : CashReservationOrm) (s : Store)
    → key ≢ new.reservation_id
    → get_by_id key (update new s) ≡ get_by_id key s
unfolding get_by_id update
get_by_id-update_ne key new [] ne = refl
get_by_id-update_ne key new (x ∷ s) ne = ground (
  arith,
  eq_iff x.reservation_id key,
  eq_iff new.reservation_id key,
  eq_iff x.reservation_id new.reservation_id,
  get_by_id-update_ne key new s,
)

pub get_by_id-update_self :
    (new : CashReservationOrm) (s : Store) {old : CashReservationOrm}
    → get_by_id new.reservation_id s ≡ some old
    → get_by_id new.reservation_id (update new s) ≡ some new
unfolding get_by_id update
get_by_id-update_self new [] h = cc
get_by_id-update_self new (x ∷ s) {old} h =
    ground (arith, eq_refl new.reservation_id, get_by_id-update_self new s {old = old})

assoc : (a b c : ℤ) → a +ℤ b +ℤ c ≡ a +ℤ (b +ℤ c)
assoc a b c = omega int_laws

total-update_head :
    (account : String) (old new : CashReservationOrm) (s : Store)
    → get_by_id new.reservation_id s ≡ none
    → get_total_reserved_amount account (new ∷ update new s) +ℤ share account old
      ≡ get_total_reserved_amount account (old ∷ s) +ℤ share account new
total-update_head account old new s h =
    rw (update_absent new s h, total_cons account new s, total_cons account old s) (omega int_laws)

regroup : (a t u o n : ℤ) → u +ℤ o ≡ t +ℤ n → a +ℤ u +ℤ o ≡ a +ℤ t +ℤ n
regroup a t u o n h = assoc a u o ∙ ap (λ (z : ℤ). a +ℤ z) h ∙ sym (assoc a t n)

-- The row that is written stands at the head, and no other row has its key.
replaced :
    (account : String) (old new x : CashReservationOrm) (s : Store)
    → IsValid (x ∷ s)
    → get_by_id new.reservation_id (x ∷ s) ≡ some old
    → str_eq x.reservation_id new.reservation_id ≡ true
    → get_total_reserved_amount account (update new (x ∷ s)) +ℤ share account old
      ≡ get_total_reserved_amount account (x ∷ s) +ℤ share account new
unfolding update get_by_id
replaced account old new x s v h e =
    let k : x.reservation_id ≡ new.reservation_id = (eq_iff _ _).0 e in
    let same : x ≡ old = ground arith in
    rw (e, same) (total-update_head account old new s (rw k at v.1))

-- Replacing a row moves the sum by the difference of the two shares.
pub total-update :
    (account : String) (old new : CashReservationOrm) (s : Store)
    → IsValid s
    → get_by_id new.reservation_id s ≡ some old
    → get_total_reserved_amount account (update new s) +ℤ share account old
      ≡ get_total_reserved_amount account s +ℤ share account new
unfolding update get_by_id
total-update account old new [] v h = cc
total-update account old new (x ∷ s) v h =
    elim (Bool-cases (str_eq x.reservation_id new.reservation_id)) [
      | inl e ↦ replaced account old new x s v h e
      | inr e ↦
          rw (e, total_cons account x (update new s), total_cons account x s)
            (regroup (share account x) _ _ _ _ (total-update account old new s v.2 (ground arith)))
    ]

absent_after :
    (x new : CashReservationOrm) (s : Store)
    → IsValid (x ∷ s)
    → str_eq x.reservation_id new.reservation_id ≡ true
    → get_by_id new.reservation_id (update new s) ≡ none
absent_after x new s v e =
    let k : x.reservation_id ≡ new.reservation_id = (eq_iff _ _).0 e in
    let a : get_by_id new.reservation_id s ≡ none = rw k at v.1 in rw (update_absent new s a) a

-- Writing a row with the key of a row, and no negative reserved amount, keeps the table valid.
pub update-IsValid :
    (new : CashReservationOrm) (s : Store)
    → pos 0 ≤ℤ new.reserved_amount
    → IsValid s
    → IsValid (update new s)
unfolding update
update-IsValid new [] a v = tt
update-IsValid new (x ∷ s) a v = elim (Bool-cases (str_eq x.reservation_id new.reservation_id)) [
  | inl e ↦ rw e (a, absent_after x new s v e, update-IsValid new s a v.2)
  | inr e ↦ rw e (
    v.0,
    rw
        (get_by_id-update_ne x.reservation_id new s
          (λ p. cc (e, (eq_iff x.reservation_id new.reservation_id).1 p)))
        v.1,
    update-IsValid new s a v.2,
  )
]

fresh_absent :
    (r : CashReservationOrm) (s : Store)
    → any (conflicts r) s ≡ false
    → get_by_id r.reservation_id s ≡ none
unfolding get_by_id
fresh_absent r [] h = refl
fresh_absent r (x ∷ s) h = ground (arith, fresh_absent r s)

pub create-IsValid :
    (r : CashReservationOrm) (s : Store) {s' : Store}
    → pos 0 ≤ℤ r.reserved_amount
    → create r s ≡ some s'
    → IsValid s
    → IsValid s'
unfolding create
create-IsValid r s {s'} a h v = elim (Bool-cases (any (conflicts r) s)) [
  | inl e ↦ ground arith
  | inr e ↦ let same : s' ≡ r ∷ s = ground arith in rw same (a, fresh_absent r s e, v)
]

-- An insert that succeeds puts the row in front, and its key was not there.
pub create_row :
    (r : CashReservationOrm) (s : Store) {s' : Store} → create r s ≡ some s' → s' ≡ r ∷ s
unfolding create
create_row r s {s'} h = ground arith

pub create_absent :
    (r : CashReservationOrm) (s : Store) {s' : Store}
    → create r s ≡ some s'
    → get_by_id r.reservation_id s ≡ none
unfolding create
create_absent r s {s'} h = elim (Bool-cases (any (conflicts r) s)) [
  | inl e ↦ absurd (cc (rw e at h))
  | inr e ↦ fresh_absent r s e
]
