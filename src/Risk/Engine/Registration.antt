-- ===== src/Risk/Engine/Registration.antt =====
-- The order in which rules were registered does not matter for the kind of verdict.
use hqmts.Prelude.{◌≡◌, refl, sym, ◌∙◌, List, arith}
use mathlib.Core.Logic.{∥∥₁_elim}
use mathlib.Core.List.{Perm, Permᴰ}
use hqmts.Risk.Types.{RiskResultType, RiskContext, RiskRule}
use hqmts.Risk.Engine.{priority_value, evaluate}
use hqmts.Risk.Engine.Verdict.{worst, max_swap, evaluate-worst}

RiskResultType-set : IsSet RiskResultType
RiskResultType-set = hlevel

priority_value-injective : (a b : RiskResultType) → priority_value a ≡ priority_value b → a ≡ b
priority_value-injective a b h = ground arith

worst-perm : (c : RiskContext) {xs ys : List RiskRule} → Permᴰ xs ys → worst c xs ≡ worst c ys
unfolding worst
worst-perm c Permᴰ.nil = refl
worst-perm c (Permᴰ.cons {b = r} {l₁ = xs} {l₂ = ys} e p) = rw (e, worst-perm c p)
worst-perm c (Permᴰ.swap {a' = r} {b' = q} {l = xs} e f) = rw (e, f) (max_swap _ _ (worst c xs))
worst-perm c (Permᴰ.trans p q) = worst-perm c p ∙ worst-perm c q

-- Two engines whose rules are the same up to order give verdicts of the same type on every context.
pub evaluate-perm :
    (c : RiskContext) (xs ys : List RiskRule)
    → Perm xs ys
    → (evaluate c xs).result_type ≡ (evaluate c ys).result_type
evaluate-perm c xs ys p = ∥∥₁_elim p (RiskResultType-set _ _) λ q.
    priority_value-injective _ _ (evaluate-worst c xs ∙ worst-perm c q ∙ sym (evaluate-worst c ys))
