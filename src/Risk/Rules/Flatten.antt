-- ===== src/Risk/Rules/Flatten.antt =====
-- Which rules let a forced flattening through.
use hqmts.Prelude.{◌≡◌, refl, ◌∙◌, true, none, List, [], ◌∷◌, arith, All}
use mathlib.Core.List.{Perm}
use hqmts.Prelude.Int.{ℤ}
use hqmts.Prelude.Decimal.{Decimal}
use hqmts.Risk.Types.{RiskResultType, allow, RiskContext, RiskRule}
use hqmts.Risk.Rules.Market.{index_drop_halt, extreme_volatility_halt, special_time_restriction}
use hqmts.Risk.Rules.Strategy.{
  strategy_position_limit, consecutive_loss_halt, cooldown_period, strategy_daily_loss_limit,
}
use hqmts.Risk.Rules.Instrument.{single_instrument_max_exposure, liquidity_filter, st_filter}
use hqmts.Risk.Engine.{priority_value, evaluate}
use hqmts.Risk.Engine.Verdict.{worst, evaluate-worst}
use hqmts.Risk.Engine.Registration.{evaluate-perm}

-- The rule has nothing to say about a flattening order.
abbrev pub Exempts : RiskRule → Type 0
Exempts rule = (c : RiskContext) → c.is_flatten ≡ true → rule.check c ≡ none

-- The market rules, the strategy rules and the instrument rules but the blacklist, at all limits.
abbrev pub exempting_rules :
    Decimal → Decimal → Decimal → Decimal → Decimal → Decimal → ℤ → ℤ → List RiskRule
exempting_rules drop volatility position daily_loss exposure amount losses cooldown =
    index_drop_halt drop
    ∷ extreme_volatility_halt volatility
    ∷ special_time_restriction
    ∷ strategy_position_limit position
    ∷ consecutive_loss_halt losses
    ∷ cooldown_period cooldown
    ∷ strategy_daily_loss_limit daily_loss
    ∷ single_instrument_max_exposure exposure
    ∷ liquidity_filter amount
    ∷ st_filter
    ∷ []

exempting_rules_exempt :
    (drop volatility position daily_loss exposure amount : Decimal) (losses cooldown : ℤ)
    → All Exempts
        (exempting_rules drop volatility position daily_loss exposure amount losses cooldown)
unfolding index_drop_halt extreme_volatility_halt special_time_restriction strategy_position_limit
    consecutive_loss_halt cooldown_period strategy_daily_loss_limit single_instrument_max_exposure
    liquidity_filter st_filter
exempting_rules_exempt drop volatility position daily_loss exposure amount losses cooldown = (
  λ c h. rw h (ground arith),
  (
    λ c h. rw h (ground arith),
    (
      λ c h. rw h (ground arith),
      (
        λ c h. rw h (ground arith),
        (
          λ c h. rw h (ground arith),
          (
            λ c h. rw h (ground arith),
            (
              λ c h. rw h (ground arith),
              (
                λ c h. rw h (ground arith),
                (λ c h. rw h (ground arith), (λ c h. rw h (ground arith), tt)),
              ),
            ),
          ),
        ),
      ),
    ),
  ),
)

worst_exempt :
    (c : RiskContext) (rules : List RiskRule)
    → All Exempts rules
    → c.is_flatten ≡ true
    → worst c rules ≡ 1
unfolding worst
worst_exempt c [] a h = refl
worst_exempt c (r ∷ rules) a h = rw (a.0 c h) (omega (arith, worst_exempt c rules a.1 h))

allow_of_priority : (t : RiskResultType) → priority_value t ≡ 1 → t ≡ allow
allow_of_priority t h = ground arith

flatten_allowed :
    (c : RiskContext) (rules : List RiskRule)
    → All Exempts rules
    → c.is_flatten ≡ true
    → (evaluate c rules).result_type ≡ allow
flatten_allowed c rules a h =
    allow_of_priority _ (evaluate-worst c rules ∙ worst_exempt c rules a h)

-- An engine with any registration order of the market rules, the strategy rules and the instrument
-- rules but the blacklist, at any limits, allows every flattening order.
pub flatten_passes :
    (drop volatility position daily_loss exposure amount : Decimal) (losses cooldown : ℤ)
    (rules : List RiskRule) (c : RiskContext)
    → Perm rules
        (exempting_rules drop volatility position daily_loss exposure amount losses cooldown)
    → c.is_flatten ≡ true
    → (evaluate c rules).result_type ≡ allow
flatten_passes drop volatility position daily_loss exposure amount losses cooldown rules c p h =
    let fixed =
      exempting_rules drop volatility position daily_loss exposure amount losses cooldown in
    evaluate-perm c rules fixed p
    ∙ flatten_allowed c fixed
        (exempting_rules_exempt drop volatility position daily_loss exposure amount losses cooldown)
        h
