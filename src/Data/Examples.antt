-- ===== src/Data/Examples.antt =====
-- The grades of two bars.
use hqmts.Prelude.{ℕ, ◌+◌, ◌≡◌, ◌↔◌, refl, [], ◌∷◌}
use hqmts.Prelude.Int.{pos}
use hqmts.Data.Quality.{
  DataQualityGrade, QualityBar, run_full_check, check_completeness, check_no_duplicates,
  check_monotonic_time, check_ohlcv_consistency, check_no_zero_price, worse,
}
use hqmts.Data.Quality.Grades.{Complete, run_full_check-Complete}

abbrev minute : ℕ → QualityBar
minute start = record {
  instrument_id = "600000.SH";
  cycle = 1;
  bar_start_time = start;
  bar_end_time = start + 1;
  open_price = 10;
  high_price = 12;
  low_price = 9;
  close_price = 11;
  volume = pos 500;
}

complete_day :
    run_full_check (minute 0 ∷ minute 1 ∷ []) ((0, 1) ∷ (1, 2) ∷ []) ≡ DataQualityGrade.pass
unfolding run_full_check check_completeness check_no_duplicates check_monotonic_time
    check_ohlcv_consistency check_no_zero_price worse
complete_day = refl

half_a_day : run_full_check (minute 0 ∷ []) ((0, 1) ∷ (1, 2) ∷ []) ≡ DataQualityGrade.fail
unfolding run_full_check check_completeness check_no_duplicates check_monotonic_time
    check_ohlcv_consistency check_no_zero_price worse
half_a_day = refl

run_full_check-Complete_example :
    (run_full_check (minute 0 ∷ minute 1 ∷ []) ((0, 1) ∷ (1, 2) ∷ []) ≡ DataQualityGrade.pass)
    ↔ Complete (minute 0 ∷ minute 1 ∷ []) ((0, 1) ∷ (1, 2) ∷ [])
run_full_check-Complete_example =
    run_full_check-Complete (minute 0 ∷ minute 1 ∷ []) ((0, 1) ∷ (1, 2) ∷ [])
