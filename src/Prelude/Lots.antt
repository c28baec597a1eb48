-- ===== src/Prelude/Lots.antt =====
-- Whole lots and affordable quantities.
use Prim.Native.Nat.{ℕ, ◌+◌, ◌*◌, ◌/◌, ◌≤◌, ◌<◌}
use mathlib.Core.Path.{◌≡◌, refl}
use native.Mathlib.Omega.{arith}
use hqmts.Prelude.Int.{ℤ, pos, negsuc, ◌*ℤ◌, ◌≤ℤ◌, ◌<ℤ◌, *ℤ_parts, floor_div}
use hqmts.Prelude.Decimal.{int_quotient}

pub floor_div-mul : (d n : ℕ) → floor_div (pos n) d *ℤ pos d ≡ pos (n / d * d)
unfolding ◌*ℤ◌
floor_div-mul d n = ground arith

pub pos-mul : (a b : ℕ) → pos a *ℤ pos b ≡ pos (a * b)
unfolding ◌*ℤ◌
pos-mul a b = ground arith

pub lots_bounds : (lot n : ℕ) → 0 < lot → (n / lot * lot ≤ n) × (n < n / lot * lot + lot)
lots_bounds lot n h = (grind arith, grind arith)

-- A positive quantity of whole lots was cut from a quantity that is no smaller.
pub record Lots (lot : ℕ) (raw cut : ℤ) : Type 0 where
  pub lots : ℕ
  pub whole : cut ≡ pos (lots * lot)
  pub positive : 0 < lots * lot
  pub below : cut ≤ℤ raw

pub floor_div-Lots :
    (lot : ℕ) (raw : ℤ)
    → 0 < lot
    → pos 0 <ℤ floor_div raw lot *ℤ pos lot
    → Lots lot raw (floor_div raw lot *ℤ pos lot)
floor_div-Lots lot (pos n) h p =
    let p' = rw (floor_div-mul lot n) at p in
    rw (floor_div-mul lot n) (record {
      lots = n / lot;
      whole = refl;
      positive = omega arith;
      below = omega (arith, lots_bounds lot n h);
    })
floor_div-Lots lot (negsuc n) h p = absurd (omega (arith, *ℤ_parts (negsuc (n / lot)) (pos lot)))

pays : (p q c : ℕ) → 0 < p → pos q ≤ℤ pos (c / p) → p * q + 0 ≤ c + 0
pays p q c h b = let m : q * p ≤ c / p * p = grind arith in omega (arith, m, lots_bounds p c h)

-- No more than `int(cash / price)` shares are paid by the cash.
pub quotient_pays :
    (cash price : ℤ) (q : ℕ)
    → 0 < q
    → pos 0 <ℤ price
    → pos q ≤ℤ int_quotient cash price
    → price *ℤ pos q ≤ℤ cash
quotient_pays (pos c) (pos p) q h k b = rw (pos-mul p q) (pays p q c (omega arith) b)
quotient_pays (negsuc c) (pos p) q h k b = ground arith
quotient_pays c (negsuc p) q h k b = absurd (omega arith)

-- No multiple of the lot between the quantity and its rounding.
pub floor_div-greatest :
    (lot n : ℕ) (raw : ℤ)
    → 0 < lot
    → pos (n * lot) ≤ℤ raw
    → pos (n * lot) ≤ℤ floor_div raw lot *ℤ pos lot
floor_div-greatest lot n (pos r) h k =
    let q : n ≤ r / lot = grind arith in rw (floor_div-mul lot r) (grind arith)
floor_div-greatest lot n (negsuc r) h k = absurd (omega arith)

affords : (p q c : ℕ) → 0 < p → p * q ≤ c → q ≤ c / p
affords p q c h k = grind arith

-- What the cash pays is no more than `int(cash / price)`.
pub quotient_affords :
    (cash price : ℤ) (q : ℕ)
    → pos 0 <ℤ price
    → price *ℤ pos q ≤ℤ cash
    → pos q ≤ℤ int_quotient cash price
quotient_affords (pos c) (pos p) q k b =
    let b' = rw (pos-mul p q) at b in
    let a = affords p q c (omega arith) (omega arith) in omega (arith, a)
quotient_affords (negsuc c) (pos p) q k b = let b' = rw (pos-mul p q) at b in absurd (omega arith)
quotient_affords c (negsuc p) q k b = absurd (omega arith)
