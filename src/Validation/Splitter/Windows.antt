-- ===== src/Validation/Splitter/Windows.antt =====
-- What the windows of a walk forward cover.
use hqmts.Prelude.{
  ℕ, zero, suc, ◌+◌, ◌*◌, ◌/◌, ◌≤◌, ◌<◌, ◌≡◌, refl, ap, Option, some, List, [], ◌∷◌, ◌++◌, length,
  arith,
}
use hqmts.Prelude.Int.{pos}
use hqmts.Backtest.Types.{Bar}
use hqmts.Validation.Splitter.Slices.{append-take-drop, length-take, length-drop, drop-take}
use hqmts.Validation.Splitter.{take, drop, window_before, windows_from, split_walk_forward}

-- Windows that go on from the index `k`: each trains on the first bars of the history, tests on the
-- `segment_size` bars that come next, and the next window trains on both.
pub data Advancing (bars : List Bar) (segment_size : ℕ)
    : ℕ → List (List Bar × List Bar) → Type 0 where
  finished : {k : ℕ} → Advancing bars segment_size k []
  advance :
      {k : ℕ} {train test : List Bar} {windows : List (List Bar × List Bar)} (rest : List Bar)
      → train ++ (test ++ rest) ≡ bars
      → length train ≡ k
      → length test ≡ segment_size
      → Advancing bars segment_size (k + segment_size) windows
      → Advancing bars segment_size k ((train, test) ∷ windows)

window_before_tested :
    (train test : List Bar) (windows : List (List Bar × List Bar))
    → 0 < length test
    → window_before (train, test) windows ≡ (train, test) ∷ windows
window_before_tested train [] windows h = absurd (omega arith)
window_before_tested train (b ∷ test) windows h = refl

module _ (segment_size : ℕ) (bars : List Bar) where
  window_at :
      (k : ℕ) (windows : List (List Bar × List Bar))
      → 0 < segment_size
      → k + segment_size ≤ length bars
      → Advancing bars segment_size (k + segment_size) windows
      → Advancing bars segment_size k
          (window_before (take k bars, drop k (take (k + segment_size) bars)) windows)
  window_at k windows h fits later =
      let left = length-drop k bars (omega arith) in
      let size = length-take segment_size (drop k bars) (omega (arith, left)) in
      rw
        (
          drop-take k segment_size bars,
          window_before_tested (take k bars) (take segment_size (drop k bars)) windows
              (omega (arith, size)),
        )
        (advance (drop segment_size (drop k bars))
          (rw (append-take-drop segment_size (drop k bars)) (append-take-drop k bars))
          (length-take k bars (omega arith)) size later)

  windows_from-Advancing :
      (i n : ℕ)
      → 0 < segment_size
      → segment_size * (i + n + 1) ≤ length bars
      → Advancing bars segment_size (segment_size * (i + 1)) (windows_from segment_size bars i n)
  windows_from-Advancing i zero h fits = finished
  windows_from-Advancing i (suc n) h fits =
      let next : segment_size * (i + 2) ≡ segment_size * (i + 1) + segment_size = grind arith in
      let after : segment_size * (suc i + 1) ≡ segment_size * (i + 1) + segment_size =
        grind arith in
      let later = windows_from-Advancing (suc i) n h (grind arith) in
      rw next (window_at (segment_size * (i + 1)) _ h (grind arith) (rw after at later))

  length-windows_from :
      (i n : ℕ)
      → 0 < segment_size
      → segment_size * (i + n + 1) ≤ length bars
      → length (windows_from segment_size bars i n) ≡ n
  length-windows_from i zero h fits = refl
  length-windows_from i (suc n) h fits =
      let k : ℕ = segment_size * (i + 1) in
      let next : segment_size * (i + 2) ≡ k + segment_size = grind arith in
      let end : k + segment_size ≤ length bars = grind arith in
      let left = length-drop k bars (omega (arith, end)) in
      let size = length-take segment_size (drop k bars) (omega (arith, left, end)) in
      rw
        (
          next,
          drop-take k segment_size bars,
          window_before_tested (take k bars) (take segment_size (drop k bars))
              (windows_from segment_size bars (suc i) n) (omega (arith, size)),
        )
        (ap suc (length-windows_from (suc i) n h (grind arith)))

-- The walk forward through a history.
pub record WalkForward (bars : List Bar) (n segment_size : ℕ)
    (answer : Option (List (List Bar × List Bar))) : Type 0 where
  pub windows : List (List Bar × List Bar)
  pub walk : answer ≡ some windows
  pub count : length windows ≡ n
  pub segments : 0 < segment_size
  pub advancing : Advancing bars segment_size segment_size windows

-- With at least two windows, and more bars than windows, the walk forward gives exactly n_windows
-- windows. The first trains on the first segment of length / (n_windows + 1) bars, each tests on
-- the whole segment that follows its training bars in the history, and each later one trains on
-- the training and the test bars of the one before.
pub split_walk_forward-WalkForward :
    (bars : List Bar) (n_windows : ℕ)
    → 2 ≤ n_windows
    → n_windows < length bars
    → WalkForward bars n_windows
        (length bars / (n_windows + 1))
        (split_walk_forward bars (pos n_windows))
unfolding split_walk_forward
split_walk_forward-WalkForward bars n h k =
    let size : ℕ = length bars / (n + 1) in
    let some_bars : 0 < size = grind arith in
    let fits : size * (0 + n + 1) ≤ length bars = grind arith in
    let first : size * (0 + 1) ≡ size = omega arith in
    record {
      windows = windows_from size bars 0 n;
      walk = ground arith;
      count = length-windows_from size bars 0 n some_bars fits;
      segments = some_bars;
      advancing = rw first at (windows_from-Advancing size bars 0 n some_bars fits);
    }
