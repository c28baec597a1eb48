-- ===== src/Validation/Splitter/Parts.antt =====
-- The two parts of a history, and the rounding of the index between them.
use hqmts.Prelude.{
  ℕ, zero, suc, ◌+◌, ◌*◌, ◌/◌, ◌%◌, ◌≤◌, ◌<◌, ◌≡◌, ◌≢◌, ◌⊎◌, inl, inr, refl, Bool, true, false,
  ◌&&◌, ◌||◌, Option, some, List, [], ◌∷◌, ◌++◌, length, arith, ltb, ◌==◌, Bool-cases,
}
use hqmts.Prelude.Int.{pos}
use hqmts.Backtest.Types.{Bar}
use hqmts.Validation.Splitter.Slices.{append-take-drop, length-take, length-drop}
use hqmts.Validation.Splitter.{
  take, drop, precision, last_digit, round_to, rounded, split_in_sample_out_of_sample,
}

-- The last digit is worth 1, or twice some h with p >= h * 2^53.
last_digit_half :
    (fuel p : ℕ)
    → (last_digit fuel p ≡ 1)
      ⊎ ((h : ℕ) × (last_digit fuel p ≡ 2 * h) × (0 < h) × (h * precision ≤ p))
last_digit_half zero p = inl refl
last_digit_half (suc fuel) p = elim (Bool-cases (ltb p precision)) [
  | inl e ↦ inl (rw e refl)
  | inr e ↦ elim (last_digit_half fuel (p / 2)) [
    | inl d ↦ inr (1, rw (e, d) refl, omega arith, ground arith)
    | inr (h, d, k, b) ↦ inr (2 * h, rw (e, d) refl, omega arith, omega arith)
  ]
]

abbrev doublings : ℕ → ℕ
doublings zero = 1
doublings (suc fuel) = 2 * doublings fuel

last_digit_reaches :
    (fuel p : ℕ) → p < precision * doublings fuel → p < precision * last_digit fuel p
last_digit_reaches zero p h = h
last_digit_reaches (suc fuel) p h = elim (Bool-cases (ltb p precision)) [
  | inl e ↦ rw e (ground arith)
  | inr e ↦
      let rest = last_digit_reaches fuel (p / 2) (omega (arith, h)) in rw e (omega (arith, rest))
]

-- The 53 halvings are enough: a product of factors below 2^53 has no more than 53 digits down to
-- its last one.
rounded_fuel : (n m : ℕ) → n < precision → m < precision → n * m < precision * last_digit 53 (n * m)
rounded_fuel n m h k =
    let below : n * m < precision * precision = grind arith in last_digit_reaches 53 (n * m) below

round_to-one : (p : ℕ) → round_to 1 p ≡ p
round_to-one p =
    let z : p % 1 ≡ 0 = grind arith in let q : p / 1 ≡ p = grind arith in rw (z, q) (omega arith)

divided : (p d : ℕ) → 0 < d → (p / d * d + p % d ≡ p) × (p % d < d)
divided p d h = (grind arith, grind arith)

down_low : (r d : ℕ) (even : Bool) → (ltb (2 * r) d || (2 * r == d && even)) ≡ true → 2 * r ≤ d
down_low r d even h = ground arith

up_high : (r d : ℕ) (even : Bool) → (ltb (2 * r) d || (2 * r == d && even)) ≡ false → d ≤ 2 * r
up_high r d even h = ground arith

-- Rounding moves a number by no more than half of the last digit.
round_to_near : (h p : ℕ) → 0 < h → (round_to (2 * h) p ≤ p + h) × (p ≤ round_to (2 * h) p + h)
round_to_near h p k =
    let d = 2 * h in
    let (whole, small) = divided p d (omega arith) in
    let even = p / d % 2 == 0 in
    elim (Bool-cases (ltb (2 * (p % d)) d || (2 * (p % d) == d && even))) [
      | inl e ↦
          let low = down_low (p % d) d even e in
          rw e (omega (arith, whole, low), omega (arith, whole, low))
      | inr e ↦
          let high = up_high (p % d) d even e in
          rw e (omega (arith, whole, high, small), omega (arith, whole, high, small))
    ]

half_below : (n m h : ℕ) → 0 < n → m < precision → h * precision ≤ n * m → h < n
half_below n m h k s b = let c : n * m + n ≤ n * precision = grind arith in omega arith

-- What the rounding adds or takes of a product n * m with m < 2^53 is less than n.
rounded_near :
    (n m : ℕ)
    → 0 < n
    → m < precision
    → (rounded (n * m) < n * m + n) × (n * m < rounded (n * m) + n)
unfolding rounded
rounded_near n m k s = elim (last_digit_half 53 (n * m)) [
  | inl e ↦ rw (e, round_to-one (n * m)) (omega arith, omega arith)
  | inr (h, e, p, b) ↦
      let less : h < n = half_below n m h k s b in
      let (up, down) = round_to_near h (n * m) p in
      rw e (omega (arith, up, less), omega (arith, down, less))
]

-- A history is parted near the ratio m / d of its length.
pub record Parted (m d : ℕ) (bars : List Bar) (answer : Option (List Bar × List Bar)) : Type 0 where
  pub train : List Bar
  pub test : List Bar
  pub parts : answer ≡ some (train, test)
  pub whole : train ++ test ≡ bars
  pub tested : bars ≢ [] → 0 < length test
  pub not_too_long : bars ≢ [] → length train * d < length bars * m + length bars
  pub not_too_short : bars ≢ [] → length bars * m < (length train + 1) * d + length bars

module _ (n m d : ℕ) (k : 0 < n) (below : m < d) (s : m < precision) where
  quotient_bounds :
      (rounded (n * m) / d * d ≤ rounded (n * m))
      × (rounded (n * m) < (rounded (n * m) / d + 1) * d)
  quotient_bounds =
      let (whole, small) = divided (rounded (n * m)) d (omega arith) in
      (omega (arith, whole), grind (arith, whole, small))

  index_below : rounded (n * m) / d < n
  index_below =
      let (up, down) = rounded_near n m k s in
      let (low, high) = quotient_bounds in
      let room : n * m + n ≤ n * d = grind arith in
      let less : rounded (n * m) / d * d < n * d = omega (arith, up, low, room) in
      grind (arith, less)

-- With the float m / d strictly between 0 and 1, m below 2^53, a history is split in two: the parts
-- put together are the history, nothing is lost, doubled or reordered; a history that is not empty
-- leaves bars to test on; and of n bars, n not 0, the first part takes fewer than (n * m + n) / d and
-- more than (n * m - n) / d - 1, which leaves room for the rounding of the float product and the cut
-- to a whole number.
pub split-Parted :
    (bars : List Bar) (m d : ℕ)
    → 0 < m
    → m < d
    → m < precision
    → Parted m d bars
        (split_in_sample_out_of_sample bars (record { mantissa = pos m; denominator = d }))
unfolding split_in_sample_out_of_sample
split-Parted [] m d h k s = record {
  train = [];
  test = [];
  parts = refl;
  whole = refl;
  tested = λ e. absurd (e refl);
  not_too_long = λ e. absurd (e refl);
  not_too_short = λ e. absurd (e refl);
}
split-Parted (b ∷ bars) m d h k s =
    let n = length (b ∷ bars) in
    let idx : ℕ = rounded (n * m) / d in
    let below : idx < n = index_below n m d (omega arith) k s in
    let (up, down) = rounded_near n m (omega arith) s in
    let (low, high) = quotient_bounds n m d (omega arith) k s in
    let size = length-take idx (b ∷ bars) (omega (arith, below)) in
    record {
      train = take idx (b ∷ bars);
      test = drop idx (b ∷ bars);
      parts = ground arith;
      whole = append-take-drop idx (b ∷ bars);
      tested = λ e. omega (arith, below, length-drop idx (b ∷ bars) (omega (arith, below)));
      not_too_long = λ e. rw size (omega (arith, low, up));
      not_too_short = λ e. rw size (omega (arith, high, down));
    }
