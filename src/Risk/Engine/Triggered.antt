-- ===== src/Risk/Engine/Triggered.antt =====
-- The list of triggered rules is complete unless the engine stopped at a `force_flatten`.
use hqmts.Prelude.{
  String, ◌≡◌, ◌≢◌, inl, inr, refl, sym, ap, ◌∙◌, false, Option, none, some, List, [], ◌∷◌, ◌++◌,
  arith, Bool-cases, Option-cases,
}
use mathlib.Core.List.{append-nil, append_assoc}
use hqmts.Risk.Types.{force_flatten, RiskLayer, RiskContext, RiskRuleResult, RiskRule}
use hqmts.Risk.Engine.Verdict.{severity, check_layers-Returns}
use hqmts.Risk.Engine.{
  Progress, note_result, check_rules, check_layers, layer_order, get_rules_by_layer, build_result,
  evaluate, no_progress,
}

abbrev name_of : Option RiskRuleResult → List String
name_of none = []
name_of (some r) = r.rule_name ∷ []

-- The names that the answers carry, rule after rule.
pub answers : RiskContext → List RiskRule → List String
answers c [] = []
answers c (r ∷ rules) = name_of (r.check c) ++ answers c rules

-- The same, layer after layer.
pub answers_by_layer : RiskContext → List RiskRule → List RiskLayer → List String
answers_by_layer c rules [] = []
answers_by_layer c rules (l ∷ layers) =
    answers c (get_rules_by_layer l rules) ++ answers_by_layer c rules layers

-- With no answer so far no name has been collected.
abbrev Empty : Progress → Type 0
Empty p = p.most_restrictive ≡ none → p.triggered_rules ≡ []

note_result-triggered :
    (o : Option RiskRuleResult) (p : Progress)
    → (note_result o p).triggered_rules ≡ p.triggered_rules ++ name_of o
note_result-triggered none p = sym (append-nil p.triggered_rules)
note_result-triggered (some r) p = refl

note_result-Empty : (o : Option RiskRuleResult) (p : Progress) → Empty p → Empty (note_result o p)
note_result-Empty none p h = h
note_result-Empty (some r) p h = elim (Option-cases p.most_restrictive) [
  | inl e ↦ rw e (λ k. cc)
  | inr (m, e) ↦ rw e (λ k. ground arith)
]

check_rules-triggered :
    (c : RiskContext) (rules : List RiskRule) (p : Progress)
    → (check_rules c rules p).returned ≡ false
    → (check_rules c rules p).triggered_rules ≡ p.triggered_rules ++ answers c rules
unfolding check_rules answers
check_rules-triggered c [] p h = sym (append-nil p.triggered_rules)
check_rules-triggered c (r ∷ rules) p h =
    let p' = note_result (r.check c) p in
    elim (Bool-cases p'.returned) [
      | inl e ↦ absurd (cc (e, rw e at h))
      | inr e ↦ rw e (
          check_rules-triggered c rules p' (rw e at h)
          ∙ ap (λ (names : List String). names ++ answers c rules)
              (note_result-triggered (r.check c) p)
          ∙ append_assoc p.triggered_rules (name_of (r.check c)) (answers c rules))
    ]

check_rules-Empty :
    (c : RiskContext) (rules : List RiskRule) (p : Progress)
    → Empty p
    → Empty (check_rules c rules p)
unfolding check_rules
check_rules-Empty c [] p h = h
check_rules-Empty c (r ∷ rules) p h =
    let p' = note_result (r.check c) p in
    let h' = note_result-Empty (r.check c) p h in
    elim (Bool-cases p'.returned) [
      | inl e ↦ rw e h'
      | inr e ↦ rw e (check_rules-Empty c rules p' h')
    ]

check_layers-triggered :
    (c : RiskContext) (rules : List RiskRule) (layers : List RiskLayer) (p : Progress)
    → (check_layers c rules layers p).returned ≡ false
    → (check_layers c rules layers p).triggered_rules
      ≡ p.triggered_rules ++ answers_by_layer c rules layers
unfolding check_layers answers_by_layer
check_layers-triggered c rules [] p h = sym (append-nil p.triggered_rules)
check_layers-triggered c rules (l ∷ layers) p h =
    let own = get_rules_by_layer l rules in
    let p' = check_rules c own p in
    elim (Bool-cases p'.returned) [
      | inl e ↦ absurd (cc (e, rw e at h))
      | inr e ↦ rw e (
          check_layers-triggered c rules layers p' (rw e at h)
          ∙ ap (λ (names : List String). names ++ answers_by_layer c rules layers)
              (check_rules-triggered c own p e)
          ∙ append_assoc p.triggered_rules (answers c own) (answers_by_layer c rules layers))
    ]

check_layers-Empty :
    (c : RiskContext) (rules : List RiskRule) (layers : List RiskLayer) (p : Progress)
    → Empty p
    → Empty (check_layers c rules layers p)
unfolding check_layers
check_layers-Empty c rules [] p h = h
check_layers-Empty c rules (l ∷ layers) p h =
    let p' = check_rules c (get_rules_by_layer l rules) p in
    let h' = check_rules-Empty c (get_rules_by_layer l rules) p h in
    elim (Bool-cases p'.returned) [
      | inl e ↦ rw e h'
      | inr e ↦ rw e (check_layers-Empty c rules layers p' h')
    ]

build_result-names :
    (c : RiskContext) (p : Progress)
    → Empty p
    → (build_result c p.most_restrictive p.triggered_rules).triggered_rules ≡ p.triggered_rules
unfolding build_result
build_result-names c p h = elim (Option-cases p.most_restrictive) [
  | inl e ↦ rw e (sym (h e))
  | inr (m, e) ↦ rw e
]

build_result_forced :
    (c : RiskContext) (o : Option RiskRuleResult) (names : List String)
    → severity o ≡ 5
    → (build_result c o names).result_type ≡ force_flatten
unfolding build_result
build_result_forced c none names h = absurd (omega arith)
build_result_forced c (some r) names h = ground arith

-- A return means that the verdict is `force_flatten`.
unforced :
    (c : RiskContext) (rules : List RiskRule)
    → (evaluate c rules).result_type ≢ force_flatten
    → (check_layers c rules layer_order no_progress).returned ≡ false
unfolding evaluate
unforced c rules h =
    let p = check_layers c rules layer_order no_progress in
    elim (Bool-cases p.returned) [
      | inl e ↦ absurd (
          h (
            build_result_forced c p.most_restrictive p.triggered_rules
              (check_layers-Returns c rules layer_order no_progress (λ k. cc) e)))
      | inr e ↦ e
    ]

-- Unless the verdict is `force_flatten`, the triggered rules are exactly those that answered, in
-- the order of the layers and, within a layer, of registration.
pub evaluate-triggered :
    (c : RiskContext) (rules : List RiskRule)
    → (evaluate c rules).result_type ≢ force_flatten
    → (evaluate c rules).triggered_rules ≡ answers_by_layer c rules layer_order
unfolding evaluate
evaluate-triggered c rules h =
    let p = check_layers c rules layer_order no_progress in
    build_result-names c p (check_layers-Empty c rules layer_order no_progress (λ e. refl))
    ∙ check_layers-triggered c rules layer_order no_progress (unforced c rules h)
