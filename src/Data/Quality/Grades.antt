-- ===== src/Data/Quality/Grades.antt =====
-- What the best grade says of a day's bars.
use hqmts.Prelude.{
  ℕ, ◌*◌, ◌-◌, ◌≤◌, ◌≡◌, ◌≢◌, ◌↔◌, refl, ap, ◌∙◌, inl, inr, Bool, true, false, ◌&&◌, not, List, [],
  ◌∷◌, keep, length, All, arith, leb, ltb, Bool-cases,
}
use hqmts.Prelude.Decimal.{Datetime}
use hqmts.Data.Quality.{
  DataQualityGrade, QualityBar, check_no_duplicates, check_no_zero_price, worse, lowered,
  check_bars, run_full_check, check_completeness, completeness_grade, missing_ends, expected_ends,
}
use hqmts.Data.Quality.Bars.{
  NoKeyTwice, Ascending, Plausible, no_duplicates-NoKeyTwice, NoKeyTwice-no_duplicates,
  monotonic-Ascending, Ascending-monotonic, Plausible-checks, checks-Plausible, Unseen-nil,
}

worse_pass :
    (a b : DataQualityGrade)
    → worse a b ≡ DataQualityGrade.pass
    → (a ≡ DataQualityGrade.pass) × (b ≡ DataQualityGrade.pass)
unfolding worse
worse_pass DataQualityGrade.pass DataQualityGrade.pass h = (refl, refl)
worse_pass DataQualityGrade.pass DataQualityGrade.warn h = cc
worse_pass DataQualityGrade.pass DataQualityGrade.fail h = cc
worse_pass DataQualityGrade.pass DataQualityGrade.unknown h = cc
worse_pass DataQualityGrade.warn DataQualityGrade.pass h = cc
worse_pass DataQualityGrade.warn DataQualityGrade.warn h = cc
worse_pass DataQualityGrade.warn DataQualityGrade.fail h = cc
worse_pass DataQualityGrade.warn DataQualityGrade.unknown h = cc
worse_pass DataQualityGrade.fail DataQualityGrade.pass h = cc
worse_pass DataQualityGrade.fail DataQualityGrade.warn h = cc
worse_pass DataQualityGrade.fail DataQualityGrade.fail h = cc
worse_pass DataQualityGrade.fail DataQualityGrade.unknown h = cc
worse_pass DataQualityGrade.unknown DataQualityGrade.pass h = cc
worse_pass DataQualityGrade.unknown DataQualityGrade.warn h = cc
worse_pass DataQualityGrade.unknown DataQualityGrade.fail h = cc
worse_pass DataQualityGrade.unknown DataQualityGrade.unknown h = cc

lowered_pass :
    (b : Bool) (w : DataQualityGrade)
    → lowered b w ≡ DataQualityGrade.pass
    → (b ≡ false) × (w ≡ DataQualityGrade.pass)
lowered_pass true w h = let (p, q) = worse_pass w DataQualityGrade.warn h in cc
lowered_pass false w h = (refl, h)

check_bars-Plausible :
    (bars : List QualityBar) (w : DataQualityGrade)
    → check_bars bars w ≡ DataQualityGrade.pass
    → (w ≡ DataQualityGrade.pass) × All Plausible bars
check_bars-Plausible [] w h = (h, tt)
check_bars-Plausible (b ∷ bars) w h = elim (Bool-cases (check_no_zero_price b)) [
  | inl e ↦
      let (below, rest) = check_bars-Plausible bars _ (rw e at h) in
      let (sane, start) = lowered_pass _ w below in
      (start, (checks-Plausible b e (ground arith), rest))
  | inr e ↦ let (p, q) = worse_pass w DataQualityGrade.fail (rw e at h) in absurd (cc q)
]

Plausible-check_bars :
    (bars : List QualityBar)
    → All Plausible bars
    → check_bars bars DataQualityGrade.pass ≡ DataQualityGrade.pass
Plausible-check_bars [] h = refl
Plausible-check_bars (b ∷ bars) (h, hs) =
    let (z, c) = Plausible-checks b h in rw (z, c) (Plausible-check_bars bars hs)

length-keep : {A : Type 0} (test : A → Bool) (xs : List A) → length (keep test xs) ≤ length xs
length-keep test [] = omega arith
length-keep test (x ∷ xs) =
    let n = length-keep test xs in
    elim (Bool-cases (test x)) [ inl e ↦ rw e (omega (arith, n)) | inr e ↦ rw e (omega (arith, n)) ]

completeness-pass : (m n : ℕ) → m ≤ n → completeness_grade m n ≡ DataQualityGrade.pass → 100 * m ≤ n
completeness-pass m n h k = elim (Bool-cases (leb (99 * n) (100 * (n - m)))) [
  | inl e ↦ grind arith
  | inr e ↦ elim (Bool-cases (leb (90 * n) (100 * (n - m)))) [
    | inl f ↦ absurd (let q = rw (e, f) at k in cc)
    | inr f ↦ absurd (let q = rw (e, f) at k in cc)
  ]
]

pass-completeness : (m n : ℕ) → 100 * m ≤ n → completeness_grade m n ≡ DataQualityGrade.pass
pass-completeness m n h = let e : leb (99 * n) (100 * (n - m)) ≡ true = grind arith in rw e refl

-- Bars that cover their slots, in order and without a double, each with sensible prices.
pub record Complete (bars : List QualityBar) (slots : List (Datetime × Datetime)) : Type 0 where
  pub some_bars : bars ≢ []
  pub some_slots : slots ≢ []
  pub covered : 100 * length (missing_ends bars slots) ≤ length (expected_ends slots)
  pub no_key_twice : NoKeyTwice bars
  pub ascending : Ascending bars
  pub plausible : All Plausible bars

single-Ascending :
    (b : QualityBar) (bars : List QualityBar)
    → ltb 1 (length (b ∷ bars)) ≡ false
    → Ascending (b ∷ bars)
single-Ascending b [] h = tt
single-Ascending b (c ∷ bars) h = absurd (grind arith)

and_not : (a b : Bool) → (a && not b) ≡ false → a ≡ true → b ≡ true
and_not true true h e = refl
and_not true false h e = cc
and_not false b h e = cc

of_not : (b : Bool) → not b ≡ false → b ≡ true
of_not true h = refl
of_not false h = cc

graded-Complete :
    (b : QualityBar) (bars : List QualityBar) (slot : Datetime × Datetime)
    (slots : List (Datetime × Datetime))
    → run_full_check (b ∷ bars) (slot ∷ slots) ≡ DataQualityGrade.pass
    → Complete (b ∷ bars) (slot ∷ slots)
unfolding run_full_check check_completeness check_no_duplicates
graded-Complete b bars slot slots h =
    let (p3, sane) = check_bars-Plausible (b ∷ bars) _ h in
    let (late, p2) = lowered_pass _ _ p3 in
    let (twice, p1) = lowered_pass _ _ p2 in
    let (start, full) = worse_pass _ _ p1 in
    let few = length-keep _ (expected_ends (slot ∷ slots)) in
    record {
      some_bars = λ e. cc;
      some_slots = λ e. cc;
      covered = completeness-pass _ _ few full;
      no_key_twice = (no_duplicates-NoKeyTwice [] (b ∷ bars) (of_not _ twice)).1;
      ascending = elim (Bool-cases (ltb 1 (length (b ∷ bars)))) [
        | inl e ↦ monotonic-Ascending (b ∷ bars) (and_not _ _ late e)
        | inr e ↦ single-Ascending b bars e
      ];
      plausible = sane;
    }

never_lowered :
    (several : Bool) {grade : DataQualityGrade} {unique ascends : Bool}
    → grade ≡ DataQualityGrade.pass
    → unique ≡ true
    → ascends ≡ true
    → lowered (several && not ascends) (lowered (not unique) (worse DataQualityGrade.pass grade))
      ≡ DataQualityGrade.pass
unfolding worse
never_lowered true g u a = rw (g, u, a) refl
never_lowered false g u a = rw (g, u) refl

Complete-graded :
    (b : QualityBar) (bars : List QualityBar) (slot : Datetime × Datetime)
    (slots : List (Datetime × Datetime))
    → Complete (b ∷ bars) (slot ∷ slots)
    → run_full_check (b ∷ bars) (slot ∷ slots) ≡ DataQualityGrade.pass
unfolding run_full_check check_completeness check_no_duplicates worse
Complete-graded b bars slot slots h =
    let full = pass-completeness _ _ h.covered in
    let once = NoKeyTwice-no_duplicates [] (b ∷ bars) (Unseen-nil (b ∷ bars)) h.no_key_twice in
    let later = Ascending-monotonic (b ∷ bars) h.ascending in
    let sane = Plausible-check_bars (b ∷ bars) h.plausible in
    ap (λ w. check_bars (b ∷ bars) w) (never_lowered (ltb 1 (length (b ∷ bars))) full once later)
    ∙ sane

unknown_not_pass : DataQualityGrade.unknown ≢ DataQualityGrade.pass
unknown_not_pass h = cc

-- A day's bars get the grade pass exactly when there are bars and expected slots, at most one in a
-- hundred of the slots' distinct ends is missing, no two bars have the same instrument, cycle and
-- end, each starts later than the one before, and each has a positive low, an open and a close
-- between its low and its high, and a volume that is not negative.
pub run_full_check-Complete :
    (bars : List QualityBar) (slots : List (Datetime × Datetime))
    → (run_full_check bars slots ≡ DataQualityGrade.pass) ↔ Complete bars slots
unfolding run_full_check check_completeness
run_full_check-Complete [] slots = (λ h. cc, λ h. absurd (h.some_bars refl))
run_full_check-Complete (b ∷ bars) [] = (
  λ h. absurd (
      let (late, p2) = lowered_pass _ _ (check_bars-Plausible (b ∷ bars) _ h).0 in
      let (twice, p1) = lowered_pass _ _ p2 in
      let (start, full) = worse_pass _ _ p1 in unknown_not_pass full),
  λ h. absurd (h.some_slots refl),
)
run_full_check-Complete (b ∷ bars) (slot ∷ slots) =
    (graded-Complete b bars slot slots, Complete-graded b bars slot slots)
