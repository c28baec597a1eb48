-- ===== src/Validation/Splitter.antt =====
-- src/hqmts/validation/splitter.py over the bars of src/hqmts/domain/bar.py. `none` is the
-- ValueError. The product of a length and the ratio is rounded as floats are. The argument
-- train_ratio of split_walk_forward, which the code does not read, is left out.
pub mod Slices
pub mod Parts
pub mod Windows
use hqmts.Prelude.{
  ℕ, zero, suc, ◌+◌, ◌*◌, ◌/◌, ◌%◌, ◌==◌, ◌&&◌, Bool, ◌||◌, Option, none, some, List, [], ◌∷◌,
  length, if◌then◌else◌, ltb,
}
use hqmts.Prelude.Int.{ℤ, pos, negsuc, pos_part, leb_ℤ}
use hqmts.Backtest.Types.{Bar}

-- `xs[:n]` and `xs[n:]`
abbrev pub take {ℓ} : {A : Type ℓ} → ℕ → List A → List A
take zero xs = []
take (suc n) [] = []
take (suc n) (x ∷ xs) = x ∷ take n xs

abbrev pub drop {ℓ} : {A : Type ℓ} → ℕ → List A → List A
drop zero xs = xs
drop (suc n) [] = []
drop (suc n) (x ∷ xs) = drop n xs

-- A finite `float`: mantissa / denominator, the denominator a power of 2, as its as_integer_ratio()
-- gives it. The mantissa of a float between 0 and 1 is below 2^53.
pub record Float : Type 0 where
  pub mantissa : ℤ
  pub denominator : ℕ

-- 2^53
abbrev pub precision : ℕ
precision = 9_007_199_254_740_992

-- The weight of the last of the 53 digits of a number.
abbrev pub last_digit : ℕ → ℕ → ℕ
last_digit zero p = 1
last_digit (suc fuel) p =
    let rest = last_digit fuel (p / 2) in if ltb p precision then 1 else 2 * rest

abbrev pub round_to : ℕ → ℕ → ℕ
round_to digit p =
    let quotient = p / digit in
    let rest = p % digit in
    if ltb (2 * rest) digit || (2 * rest == digit && quotient % 2 == 0)
    then quotient * digit
    else quotient * digit + digit

-- A whole number below 2^106 rounded to 53 binary digits, ties to even: the product of two floats
-- whose mantissas are below 2^53. 53 halvings bring it below 2^53.
unfoldable pub rounded : ℕ → ℕ
rounded p = round_to (last_digit 53 p) p

-- `int(n * ratio)` of a ratio between 0 and 1; as a float, n < 2^53 is exact.
abbrev pub split_index : ℕ → Float → ℕ
split_index n ratio = rounded (n * pos_part ratio.mantissa) / ratio.denominator

unfoldable pub split_in_sample_out_of_sample : List Bar → Float → Option (List Bar × List Bar)
split_in_sample_out_of_sample [] train_ratio = some ([], [])
split_in_sample_out_of_sample (b ∷ bars) train_ratio =
    if leb_ℤ train_ratio.mantissa (pos 0)
      || leb_ℤ (pos train_ratio.denominator) train_ratio.mantissa
    then none
    else let split_idx = split_index (length (b ∷ bars)) train_ratio in
      some (take split_idx (b ∷ bars), drop split_idx (b ∷ bars))

-- `if test_bars: windows.append(...)`
abbrev pub window_before :
    List Bar × List Bar → List (List Bar × List Bar) → List (List Bar × List Bar)
window_before (train, []) windows = windows
window_before (train, b ∷ test) windows = (train, b ∷ test) ∷ windows

-- The passes of the loop from `i` on.
abbrev pub windows_from : ℕ → List Bar → ℕ → ℕ → List (List Bar × List Bar)
windows_from segment_size bars i zero = []
windows_from segment_size bars i (suc n) =
    let train_end = segment_size * (i + 1) in
    let test_end = segment_size * (i + 2) in
    window_before (take train_end bars, drop train_end (take test_end bars))
      (windows_from segment_size bars (suc i) n)

-- `max(1, n // 2)`
abbrev pub half : ℕ → ℕ
half n = if ltb 1 (n / 2) then n / 2 else 1

unfoldable pub split_walk_forward : List Bar → ℤ → Option (List (List Bar × List Bar))
split_walk_forward bars (negsuc n) = none
split_walk_forward bars (pos n) =
    let segment_size = length bars / (n + 1) in
    if ltb n 2
    then none
    else if ltb 0 segment_size
    then some (windows_from segment_size bars 0 n)
    else some ((take (half (length bars)) bars, drop (half (length bars)) bars) ∷ [])
