-- ===== src/Data/Quality/Bars.antt =====
-- What the single tests say of the bars.
use hqmts.Prelude.{
  ◌≤◌, ◌<◌, ◌≡◌, refl, inl, inr, Bool, true, false, ◌||◌, List, [], ◌∷◌, any, All, arith, leb,
  Bool-cases,
}
use hqmts.Prelude.Int.{pos, ◌≤ℤ◌}
use hqmts.Data.Quality.{
  QualityBar, same_key, no_duplicates, check_monotonic_time, check_ohlcv_consistency,
  check_no_zero_price,
}

-- No two bars have the same instrument, cycle and end.
abbrev pub NoKeyTwice : List QualityBar → Type 0
NoKeyTwice [] = Unit
NoKeyTwice (b ∷ bars) = All (λ c. same_key c b ≡ false) bars × NoKeyTwice bars

-- Each bar starts later than the one before.
abbrev pub Ascending : List QualityBar → Type 0
Ascending [] = Unit
Ascending (a ∷ []) = Unit
Ascending (a ∷ b ∷ bars) = (a.bar_start_time < b.bar_start_time) × Ascending (b ∷ bars)

-- Four positive prices, of which the highest and the lowest bound the others, and a volume.
pub record Plausible (b : QualityBar) : Type 0 where
  pub low_positive : 0 < b.low_price
  pub low_open : b.low_price ≤ b.open_price
  pub low_close : b.low_price ≤ b.close_price
  pub high_open : b.open_price ≤ b.high_price
  pub high_close : b.close_price ≤ b.high_price
  pub traded : pos 0 ≤ℤ b.volume

or_false : (a b : Bool) → (a || b) ≡ false → (a ≡ false) × (b ≡ false)
or_false true b h = cc
or_false false b h = (refl, h)

abbrev pub Unseen : List QualityBar → List QualityBar → Type 0
Unseen seen bars = All (λ c. any (same_key c) seen ≡ false) bars

split-Unseen :
    (b : QualityBar) (seen bars : List QualityBar)
    → Unseen (b ∷ seen) bars
    → Unseen seen bars × All (λ c. same_key c b ≡ false) bars
split-Unseen b seen [] h = (tt, tt)
split-Unseen b seen (c ∷ bars) (h, k) =
    let (new, old) = or_false _ _ h in
    let (olds, news) = split-Unseen b seen bars k in ((old, olds), (new, news))

join-Unseen :
    (b : QualityBar) (seen bars : List QualityBar)
    → Unseen seen bars
    → All (λ c. same_key c b ≡ false) bars
    → Unseen (b ∷ seen) bars
join-Unseen b seen [] h k = tt
join-Unseen b seen (c ∷ bars) (h, hs) (k, ks) = (rw (k, h) refl, join-Unseen b seen bars hs ks)

pub no_duplicates-NoKeyTwice :
    (seen bars : List QualityBar)
    → no_duplicates seen bars ≡ true
    → Unseen seen bars × NoKeyTwice bars
no_duplicates-NoKeyTwice seen [] h = (tt, tt)
no_duplicates-NoKeyTwice seen (b ∷ bars) h = elim (Bool-cases (any (same_key b) seen)) [
  | inl e ↦ absurd (let k = rw e at h in cc)
  | inr e ↦
      let (fresh, rest) = no_duplicates-NoKeyTwice (b ∷ seen) bars (rw e at h) in
      let (olds, news) = split-Unseen b seen bars fresh in ((e, olds), (news, rest))
]

pub NoKeyTwice-no_duplicates :
    (seen bars : List QualityBar)
    → Unseen seen bars
    → NoKeyTwice bars
    → no_duplicates seen bars ≡ true
NoKeyTwice-no_duplicates seen [] h k = refl
NoKeyTwice-no_duplicates seen (b ∷ bars) (h, hs) (k, ks) =
    rw h (NoKeyTwice-no_duplicates (b ∷ seen) bars (join-Unseen b seen bars hs k) ks)

pub monotonic-Ascending :
    (bars : List QualityBar) → check_monotonic_time bars ≡ true → Ascending bars
unfolding check_monotonic_time
monotonic-Ascending [] h = tt
monotonic-Ascending (a ∷ []) h = tt
monotonic-Ascending (a ∷ b ∷ bars) h = elim (Bool-cases (leb b.bar_start_time a.bar_start_time)) [
  | inl e ↦ absurd (let k = rw e at h in cc)
  | inr e ↦ (ground arith, monotonic-Ascending (b ∷ bars) (rw e at h))
]

pub Ascending-monotonic :
    (bars : List QualityBar) → Ascending bars → check_monotonic_time bars ≡ true
unfolding check_monotonic_time
Ascending-monotonic [] h = refl
Ascending-monotonic (a ∷ []) h = refl
Ascending-monotonic (a ∷ b ∷ bars) (h, k) =
    let e : leb b.bar_start_time a.bar_start_time ≡ false = ground arith in
    rw e (Ascending-monotonic (b ∷ bars) k)

pub Plausible-checks :
    (b : QualityBar)
    → Plausible b
    → (check_no_zero_price b ≡ true) × (check_ohlcv_consistency b ≡ true)
unfolding check_no_zero_price check_ohlcv_consistency
Plausible-checks b p =
    let l = p.low_positive in
    let o = p.low_open in
    let c = p.low_close in
    let h = p.high_open in let k = p.high_close in let v = p.traded in (ground arith, ground arith)

pub checks-Plausible :
    (b : QualityBar) → check_no_zero_price b ≡ true → check_ohlcv_consistency b ≡ true → Plausible b
unfolding check_no_zero_price check_ohlcv_consistency
checks-Plausible b z c = record {
  low_positive = ground arith;
  low_open = ground arith;
  low_close = ground arith;
  high_open = ground arith;
  high_close = ground arith;
  traded = ground arith;
}

pub Unseen-nil : (bars : List QualityBar) → Unseen [] bars
Unseen-nil [] = tt
Unseen-nil (b ∷ bars) = (refl, Unseen-nil bars)
