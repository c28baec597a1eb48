-- ===== src/Execution/Service/Approval.antt =====
-- The quantity that goes on after the risk engine's verdict.
use hqmts.Prelude.{
  ◌≡◌, ◌≢◌, ◌⊎◌, inl, inr, refl, sym, ap, ◌∙◌, ◌&&◌, Option, none, some, arith, Bool-cases,
}
use hqmts.Prelude.Int.{ℤ, pos, leb_ℤ}
use hqmts.Risk.Types.{RiskCheckResult, allow, resize}
use hqmts.Execution.Service.{resized_or}

-- The quantity that the risk engine's verdict lets through: a verdict to resize to nothing, or with
-- no quantity, lets the whole target through.
pub data Approved (r : RiskCheckResult) (target quantity : ℤ) : Type 0 where
  as_asked : r.result_type ≡ allow → quantity ≡ target → Approved r target quantity
  resized :
      r.result_type ≡ resize
      → r.resized_quantity ≡ some quantity
      → quantity ≢ pos 0
      → Approved r target quantity
  not_resized :
      r.result_type ≡ resize
      → (r.resized_quantity ≡ none) ⊎ (r.resized_quantity ≡ some (pos 0))
      → quantity ≡ target
      → Approved r target quantity

resized_or-some :
    (target q : ℤ)
    → ((q ≡ pos 0) × (resized_or target (some q) ≡ target))
      ⊎ ((q ≢ pos 0) × (resized_or target (some q) ≡ q))
resized_or-some target q = elim (Bool-cases (leb_ℤ q (pos 0) && leb_ℤ (pos 0) q)) [
  | inl e ↦ inl (ground arith, rw e refl)
  | inr e ↦ inr (λ z. absurd (ground arith), rw e refl)
]

pub resized-Approved :
    (r : RiskCheckResult) (target quantity : ℤ) (size : Option ℤ)
    → r.result_type ≡ resize
    → r.resized_quantity ≡ size
    → quantity ≡ resized_or target size
    → Approved r target quantity
resized-Approved r target quantity none e s h = not_resized e (inl s) h
resized-Approved r target quantity (some q) e s h = elim (resized_or-some target q) [
  | inl (z, d) ↦ not_resized e (inr (s ∙ ap some z)) (h ∙ d)
  | inr (n, d) ↦ let same : quantity ≡ q = h ∙ d in resized e (s ∙ ap some (sym same)) (rw same n)
]
