-- ===== src/Data/Quality.antt =====
-- `class DataQualityChecker` of src/hqmts/data/quality.py. A ratio of counts is compared with its
-- limit by the exact quotient, multiplied across.
pub mod Bars
pub mod Grades
use hqmts.Prelude.{
  ℕ, ◌*◌, ◌-◌, String, Bool, true, false, ◌&&◌, ◌||◌, not, List, [], ◌∷◌, any, keep, length,
  if◌then◌else◌, ltb, leb, ◌==◌, map,
}
use hqmts.Prelude.Int.{ℤ, pos, ltb_ℤ}
use hqmts.Prelude.Decimal.{Datetime}
use text.Mathlib.Text.{◌==◌ as str_eq}

pub data DataQualityGrade : Type 0 where
  pass warn fail unknown : DataQualityGrade

-- The fields of a bar that are checked. A price is a number of 10^-8 and, by `Field(ge=0)`, not
-- negative; a cycle is its number of minutes.
pub record QualityBar : Type 0 where
  pub instrument_id : String
  pub cycle : ℕ
  pub bar_start_time : Datetime
  pub bar_end_time : Datetime
  pub open_price : ℕ
  pub high_price : ℕ
  pub low_price : ℕ
  pub close_price : ℕ
  pub volume : ℤ

-- `t in times`
abbrev pub has_time : List Datetime → Datetime → Bool
has_time times t = any (λ u. u == t) times

-- The members of a set that is built from a list.
abbrev pub members : List Datetime → List Datetime
members [] = []
members (t ∷ times) = let rest = members times in if has_time times t then rest else t ∷ rest

abbrev pub slot_end : Datetime × Datetime → Datetime
slot_end (start, end) = end

abbrev pub expected_ends : List (Datetime × Datetime) → List Datetime
expected_ends slots = members (map slot_end slots)

abbrev pub missing_ends : List QualityBar → List (Datetime × Datetime) → List Datetime
missing_ends bars slots =
    let actual_ends = map (λ b. b.bar_end_time) bars in
    keep (λ t. not (has_time actual_ends t)) (expected_ends slots)

abbrev pub completeness_grade : ℕ → ℕ → DataQualityGrade
completeness_grade missing expected =
    if leb (99 * expected) (100 * (expected - missing))
    then pass
    else if leb (90 * expected) (100 * (expected - missing))
    then warn
    else fail

unfoldable pub check_completeness : List QualityBar → List (Datetime × Datetime) → DataQualityGrade
check_completeness bars [] = unknown
check_completeness bars (slot ∷ slots) =
    completeness_grade (length (missing_ends bars (slot ∷ slots)))
      (length (expected_ends (slot ∷ slots)))

abbrev pub same_key : QualityBar → QualityBar → Bool
same_key a b =
    str_eq a.instrument_id b.instrument_id
    && (a.cycle == b.cycle)
    && (a.bar_end_time == b.bar_end_time)

-- The loop, with the bars seen so far.
abbrev pub no_duplicates : List QualityBar → List QualityBar → Bool
no_duplicates seen [] = true
no_duplicates seen (b ∷ bars) =
    let rest = no_duplicates (b ∷ seen) bars in if any (same_key b) seen then false else rest

unfoldable pub check_no_duplicates : List QualityBar → Bool
check_no_duplicates bars = no_duplicates [] bars

unfoldable pub check_monotonic_time : List QualityBar → Bool
check_monotonic_time [] = true
check_monotonic_time (a ∷ []) = true
check_monotonic_time (a ∷ b ∷ bars) =
    let rest = check_monotonic_time (b ∷ bars) in
    if leb b.bar_start_time a.bar_start_time then false else rest

unfoldable pub check_ohlcv_consistency : QualityBar → Bool
check_ohlcv_consistency b =
    let max_oc = if ltb b.open_price b.close_price then b.close_price else b.open_price in
    let min_oc = if ltb b.close_price b.open_price then b.close_price else b.open_price in
    if ltb b.high_price max_oc
    then false
    else if ltb min_oc b.low_price
    then false
    else if ltb_ℤ b.volume (pos 0)
    then false
    else true

unfoldable pub check_no_zero_price : QualityBar → Bool
check_no_zero_price b =
    not (b.open_price == 0)
    && not (b.high_price == 0)
    && not (b.low_price == 0)
    && not (b.close_price == 0)

abbrev pub grade_order : DataQualityGrade → ℕ
grade_order pass = 0
grade_order warn = 1
grade_order fail = 2
grade_order unknown = 3

unfoldable pub worse : DataQualityGrade → DataQualityGrade → DataQualityGrade
worse a b = if leb (grade_order b) (grade_order a) then a else b

-- `if b: worst = self._worse(worst, WARN)`
abbrev pub lowered : Bool → DataQualityGrade → DataQualityGrade
lowered b worst = if b then worse worst warn else worst

-- The loop over the bars, left at the first zero price.
abbrev pub check_bars : List QualityBar → DataQualityGrade → DataQualityGrade
check_bars [] worst = worst
check_bars (b ∷ bars) worst =
    let rest = check_bars bars (lowered (not (check_ohlcv_consistency b)) worst) in
    if check_no_zero_price b then rest else worse worst fail

unfoldable pub run_full_check : List QualityBar → List (Datetime × Datetime) → DataQualityGrade
run_full_check [] expected_slots = unknown
run_full_check (b ∷ bars) expected_slots =
    let w1 = worse pass (check_completeness (b ∷ bars) expected_slots) in
    let w2 = lowered (not (check_no_duplicates (b ∷ bars))) w1 in
    let w3 = lowered (ltb 1 (length (b ∷ bars)) && not (check_monotonic_time (b ∷ bars))) w2 in
    check_bars (b ∷ bars) w3
