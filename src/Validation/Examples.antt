-- ===== src/Validation/Examples.antt =====
-- The splits of a history of seven bars.
use hqmts.Prelude.{ℕ, ◌*◌, ◌+◌, ◌/◌, ◌≡◌, refl, true, some, List, [], ◌∷◌, arith, length}
use hqmts.Prelude.Int.{pos}
use hqmts.Backtest.Types.{Bar}
use hqmts.Validation.Splitter.Parts.{Parted, split-Parted}
use hqmts.Validation.Splitter.{
  Float, precision, rounded, split_index, split_in_sample_out_of_sample, split_walk_forward,
}
use hqmts.Validation.Splitter.Windows.{WalkForward, split_walk_forward-WalkForward}

abbrev bar : ℕ → Bar
bar time = record {
  instrument_id = "600000.SH";
  bar_start_time = time;
  open_price = 10;
  high_price = 11;
  low_price = 9;
  close_price = 10;
  volume = 1000;
  is_completed = true;
}

abbrev history : List Bar
history = bar 1 ∷ bar 2 ∷ bar 3 ∷ bar 4 ∷ bar 5 ∷ bar 6 ∷ bar 7 ∷ []

-- The float 0.7.
abbrev seventy_percent : Float
seventy_percent = record {
  mantissa = pos 3_152_519_739_159_347;
  denominator = 4_503_599_627_370_496;
}

split_seventy_percent :
    split_in_sample_out_of_sample history seventy_percent
    ≡ some (bar 1 ∷ bar 2 ∷ bar 3 ∷ bar 4 ∷ [], bar 5 ∷ bar 6 ∷ bar 7 ∷ [])
unfolding split_in_sample_out_of_sample rounded
split_seventy_percent = refl

-- `int(90 * 0.7)` is 62, and `int(100 * 0.29)` is 28.
float_products :
    (split_index 90 seventy_percent ≡ 62)
    × (split_index 100
          (record { mantissa = pos 5_224_175_567_749_775; denominator = 2 * precision })
        ≡ 28)
unfolding rounded
float_products = (refl, refl)

-- The seventh bar is in no window.
two_windows :
    split_walk_forward history (pos 2)
    ≡ some (
        (bar 1 ∷ bar 2 ∷ [], bar 3 ∷ bar 4 ∷ [])
        ∷ (bar 1 ∷ bar 2 ∷ bar 3 ∷ bar 4 ∷ [], bar 5 ∷ bar 6 ∷ [])
        ∷ [])
unfolding split_walk_forward
two_windows = refl

split-Parted_example :
    Parted 3_152_519_739_159_347 4_503_599_627_370_496 history
      (split_in_sample_out_of_sample history seventy_percent)
split-Parted_example =
    split-Parted history 3_152_519_739_159_347 4_503_599_627_370_496 (omega arith) (omega arith)
      (omega arith)

split_walk_forward-WalkForward_example :
    WalkForward history 2 (length history / (2 + 1)) (split_walk_forward history (pos 2))
split_walk_forward-WalkForward_example =
    split_walk_forward-WalkForward history 2 (omega arith) (omega arith)
