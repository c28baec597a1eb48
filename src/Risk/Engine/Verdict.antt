-- ===== src/Risk/Engine/Verdict.antt =====
-- The verdict of the engine does not depend on how the loops run: it is the worst answer of any
-- registered rule.
use Prim.Native.Nat.{max}
use hqmts.Prelude.{
  ℕ, ◌≤◌, String, ◌≡◌, inl, inr, refl, ap, ◌∙◌, true, Option, none, some, List, [], ◌∷◌, arith,
  if◌then◌else◌, Bool-cases, Option-cases, ltb, ltb→lt, ltb→ge,
}
use hqmts.Risk.Types.{
  RiskLayer, market, account, strategy, instrument, order, RiskContext, RiskRuleResult, RiskRule,
}
use hqmts.Risk.Engine.{
  priority_value, Progress, note_result, more_restrictive, is_force_flatten, check_rules,
  check_layers, layer_order, get_rules_by_layer, build_result, evaluate, no_progress,
}

-- How restrictive an answer is; no answer counts as `allow`.
abbrev pub severity : Option RiskRuleResult → ℕ
severity none = 1
severity (some r) = priority_value r.result_type

-- The worst answer of a list of rules, in any order.
unfoldable pub worst : RiskContext → List RiskRule → ℕ
worst context [] = 1
worst context (rule ∷ rules) = max (severity (rule.check context)) (worst context rules)

severity_bounds : (o : Option RiskRuleResult) → (1 ≤ severity o) × (severity o ≤ 5)
severity_bounds none = (omega arith, omega arith)
severity_bounds (some r) = ground arith

worst_bounds : (c : RiskContext) (rules : List RiskRule) → (1 ≤ worst c rules) × (worst c rules ≤ 5)
unfolding worst
worst_bounds c [] = (omega arith, omega arith)
worst_bounds c (r ∷ rules) = (
  omega (arith, severity_bounds (r.check c), worst_bounds c rules),
  omega (arith, severity_bounds (r.check c), worst_bounds c rules),
)

-- Only a `force_flatten` leaves the loops.
abbrev pub Returns : Progress → Type 0
Returns p = p.returned ≡ true → severity p.most_restrictive ≡ 5

more_restrictive-severity :
    (r m : RiskRuleResult)
    → severity (if more_restrictive r (some m) then some r else some m)
      ≡ max (severity (some r)) (severity (some m))
more_restrictive-severity r m =
    let a = priority_value m.result_type in
    let b = priority_value r.result_type in
    elim (Bool-cases (ltb a b)) [
      | inl e ↦ rw e (omega (arith, ltb→lt a b e))
      | inr e ↦ rw e (omega (arith, ltb→ge a b e))
    ]

note_result-severity :
    (o : Option RiskRuleResult) (p : Progress)
    → severity (note_result o p).most_restrictive ≡ max (severity o) (severity p.most_restrictive)
note_result-severity none p = omega (arith, severity_bounds p.most_restrictive)
note_result-severity (some r) p = elim (Option-cases p.most_restrictive) [
  | inl e ↦ rw e (omega (arith, severity_bounds (some r)))
  | inr (m, e) ↦ rw e (more_restrictive-severity r m)
]

force_flatten-severity :
    (r : RiskRuleResult) → is_force_flatten r.result_type ≡ true → severity (some r) ≡ 5
force_flatten-severity r e = ground arith

note_result-Returns :
    (o : Option RiskRuleResult) (p : Progress) → Returns p → Returns (note_result o p)
note_result-Returns none p h = h
note_result-Returns (some r) p h = λ e. omega (
  arith,
  note_result-severity (some r) p,
  force_flatten-severity r e,
  severity_bounds p.most_restrictive,
)

check_rules-severity :
    (c : RiskContext) (rules : List RiskRule) (p : Progress)
    → Returns p
    → (severity (check_rules c rules p).most_restrictive
        ≡ max (severity p.most_restrictive) (worst c rules))
      × Returns (check_rules c rules p)
unfolding check_rules worst
check_rules-severity c [] p h = (omega (arith, severity_bounds p.most_restrictive), h)
check_rules-severity c (r ∷ rules) p h =
    let p' = note_result (r.check c) p in
    let h' = note_result-Returns (r.check c) p h in
    let (s, t) = check_rules-severity c rules p' h' in
    elim (Bool-cases p'.returned) [
      | inl e ↦
          rw e (omega (arith, h' e, note_result-severity (r.check c) p, worst_bounds c rules), h')
      | inr e ↦ rw e (omega (arith, s, note_result-severity (r.check c) p), t)
    ]

-- The worst answer over some layers.
worst_of_layers : RiskContext → List RiskRule → List RiskLayer → ℕ
worst_of_layers c rules [] = 1
worst_of_layers c rules (l ∷ layers) =
    max (worst c (get_rules_by_layer l rules)) (worst_of_layers c rules layers)

worst_of_layers_bound :
    (c : RiskContext) (rules : List RiskRule) (layers : List RiskLayer)
    → worst_of_layers c rules layers ≤ 5
unfolding worst_of_layers
worst_of_layers_bound c rules [] = omega arith
worst_of_layers_bound c rules (l ∷ layers) =
    omega (arith, worst_bounds c (get_rules_by_layer l rules), worst_of_layers_bound c rules layers)

check_layers-severity :
    (c : RiskContext) (rules : List RiskRule) (layers : List RiskLayer) (p : Progress)
    → Returns p
    → severity (check_layers c rules layers p).most_restrictive
      ≡ max (severity p.most_restrictive) (worst_of_layers c rules layers)
unfolding check_layers worst_of_layers
check_layers-severity c rules [] p h = omega (arith, severity_bounds p.most_restrictive)
check_layers-severity c rules (l ∷ layers) p h =
    let p' = check_rules c (get_rules_by_layer l rules) p in
    let (s, h') = check_rules-severity c (get_rules_by_layer l rules) p h in
    let rest = check_layers-severity c rules layers p' h' in
    elim (Bool-cases p'.returned) [
      | inl e ↦ rw e (omega (arith, h' e, s, worst_of_layers_bound c rules layers))
      | inr e ↦ rw e (omega (arith, rest, s))
    ]

pub check_layers-Returns :
    (c : RiskContext) (rules : List RiskRule) (layers : List RiskLayer) (p : Progress)
    → Returns p
    → Returns (check_layers c rules layers p)
unfolding check_layers
check_layers-Returns c rules [] p h = h
check_layers-Returns c rules (l ∷ layers) p h =
    let p' = check_rules c (get_rules_by_layer l rules) p in
    let h' = (check_rules-severity c (get_rules_by_layer l rules) p h).1 in
    elim (Bool-cases p'.returned) [
      | inl e ↦ rw e h'
      | inr e ↦ rw e (check_layers-Returns c rules layers p' h')
    ]

max_assoc : (a b c : ℕ) → max (max a b) c ≡ max a (max b c)
max_assoc a b c = omega arith

pub max_swap : (a b c : ℕ) → max a (max b c) ≡ max b (max a c)
max_swap a b c = omega arith

-- `x` joined to one of five numbers comes out of their maximum.
max_second : (x m a r : ℕ) → max m (max (max x a) r) ≡ max x (max m (max a r))
max_second x m a r = ap (max m) (max_assoc x a r) ∙ max_swap m x (max a r)

max_third : (x m a s r : ℕ) → max m (max a (max (max x s) r)) ≡ max x (max m (max a (max s r)))
max_third x m a s r = ap (max m) (max_second x a s r) ∙ max_swap m x _

max_fourth :
    (x m a s i r : ℕ)
    → max m (max a (max s (max (max x i) r))) ≡ max x (max m (max a (max s (max i r))))
max_fourth x m a s i r = ap (max m) (max_third x a s i r) ∙ max_swap m x _

max_fifth :
    (x m a s i o r : ℕ)
    → max m (max a (max s (max i (max (max x o) r))))
      ≡ max x (max m (max a (max s (max i (max o r)))))
max_fifth x m a s i o r = ap (max m) (max_fourth x a s i o r) ∙ max_swap m x _

-- Every rule stands in exactly one of the five layers.
layer_cons :
    (c : RiskContext) (r : RiskRule) (rules : List RiskRule) (l : RiskLayer)
    → r.layer ≡ l
    → worst_of_layers c (r ∷ rules) layer_order
      ≡ max (severity (r.check c)) (worst_of_layers c rules layer_order)
unfolding worst_of_layers worst get_rules_by_layer
layer_cons c r rules market e = rw e (max_assoc (severity (r.check c)) _ _)
layer_cons c r rules account e = rw e (max_second (severity (r.check c)) _ _ _)
layer_cons c r rules strategy e = rw e (max_third (severity (r.check c)) _ _ _ _)
layer_cons c r rules instrument e = rw e (max_fourth (severity (r.check c)) _ _ _ _ _)
layer_cons c r rules order e = rw e (max_fifth (severity (r.check c)) _ _ _ _ _ _)

worst_of_layer_order :
    (c : RiskContext) (rules : List RiskRule) → worst_of_layers c rules layer_order ≡ worst c rules
unfolding worst_of_layers worst get_rules_by_layer
worst_of_layer_order c [] = refl
worst_of_layer_order c (r ∷ rules) =
    layer_cons c r rules r.layer refl
    ∙ ap (max (severity (r.check c))) (worst_of_layer_order c rules)

build_result-severity :
    (c : RiskContext) (o : Option RiskRuleResult) (names : List String)
    → priority_value (build_result c o names).result_type ≡ severity o
unfolding build_result
build_result-severity c none names = refl
build_result-severity c (some r) names = refl

-- The verdict's priority is the highest of any registered rule's answer, whatever the order of
-- registration, the layers and the early return; with no answer it is that of `allow`.
pub evaluate-worst :
    (c : RiskContext) (rules : List RiskRule)
    → priority_value (evaluate c rules).result_type ≡ worst c rules
unfolding evaluate
evaluate-worst c rules =
    let p = check_layers c rules layer_order no_progress in
    build_result-severity c p.most_restrictive p.triggered_rules
    ∙ omega (
      arith,
      check_layers-severity c rules layer_order no_progress (λ e. cc),
      worst_of_layer_order c rules,
      worst_bounds c rules,
    )
