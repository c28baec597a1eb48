-- ===== src/Agent/Policy/Limits.antt =====
-- What the policy lets through.
use hqmts.Prelude.{
  String, ◌≡◌, ◌≢◌, ◌↔◌, inl, inr, refl, Bool, true, false, ◌&&◌, ◌||◌, not, some, List, [], ◌∷◌,
  ◌++◌, arith, any, all, contains, Bool-cases, Option-cases,
}
use text.Mathlib.Text.{◌==◌ as str_eq}
use hqmts.Agent.Types.{
  PolicyCheckResult, Environment-discrete, AgentRole-discrete, ToolCategory-discrete,
  ToolDefinition,
}
use hqmts.Agent.Tools.{forbidden_tools, all_tools}
use hqmts.Agent.Policy.{
  PolicyCheckInput, Violation, PolicyEngine, find_tool, is_given, is_live, is_controlled,
  is_read_only, noted, violations_of, decide, evaluate_policy, is_risk_proposal,
}

-- What a call of a known tool needs.
pub record Clean (e : PolicyEngine) (i : PolicyCheckInput) (t : ToolDefinition) : Type 0 where
  pub environment : contains Environment-discrete i.environment t.allowed_environments ≡ true
  pub role : contains AgentRole-discrete i.agent_role t.allowed_roles ≡ true
  pub target :
      is_controlled t ≡ true
      → is_given i.target_object_type ≡ true
      → is_given i.target_object_id ≡ true
  pub kill_switch : is_live i ≡ true → e.global_kill_switch ≡ true → is_read_only t ≡ true
  pub live_trading : is_live i ≡ true → t.requires_approval ≡ true → e.live_trading_allowed ≡ true
  pub binding : is_live i ≡ true → is_controlled t ≡ true → i.has_version_binding ≡ true
  pub exceptions : i.has_unresolved_exceptions ≡ true → is_read_only t ≡ true
  pub hours : is_live i ≡ true → is_controlled t ≡ true → i.is_trading_time ≡ true

noted-nil : (b : Bool) (v : Violation) → noted b v ≡ [] → b ≡ false
noted-nil true v h = cc
noted-nil false v h = refl

append-nil {ℓ} : {A : Type ℓ} (xs ys : List A) → xs ++ ys ≡ [] → (xs ≡ []) × (ys ≡ [])
append-nil [] ys h = (refl, h)
append-nil (x ∷ xs) ys h = cc

not_both : (a b : Bool) → (a && b) ≡ false → a ≡ true → b ≡ false
not_both true b h e = h
not_both false b h e = cc

not_three : (a b c : Bool) → (a && b && c) ≡ false → a ≡ true → b ≡ true → c ≡ false
not_three true true c h e d = h
not_three true false c h e d = cc
not_three false b c h e d = cc

of_not : (b : Bool) → not b ≡ false → b ≡ true
of_not true h = refl
of_not false h = cc

of_not_mid : (a b c : Bool) → (a && not b && c) ≡ false → a ≡ true → c ≡ true → b ≡ true
of_not_mid a true c h d e = refl
of_not_mid true false c h d e = cc
of_not_mid false false c h d e = cc

violations-Clean :
    (e : PolicyEngine) (i : PolicyCheckInput) (t : ToolDefinition)
    → violations_of e i t ≡ []
    → Clean e i t
unfolding violations_of
violations-Clean e i t h =
    let (h8, n9) = append-nil _ _ h in
    let (h7, n8) = append-nil _ _ h8 in
    let (h6, n7) = append-nil _ _ h7 in
    let (h5, n6) = append-nil _ _ h6 in
    let (h4, n5) = append-nil _ _ h5 in
    let (h3, n4) = append-nil _ _ h4 in
    let (h2, n3) = append-nil _ _ h3 in
    let (n1, n2) = append-nil _ _ h2 in
    record {
      environment = of_not _ (noted-nil _ _ n1);
      role = of_not _ (noted-nil _ _ n2);
      target = λ a b. of_not _ (not_three _ _ _ (noted-nil _ _ n3) a b);
      kill_switch = λ a b. of_not _ (not_three _ _ _ (noted-nil _ _ n5) a b);
      live_trading = λ a b. of_not_mid _ _ _ (noted-nil _ _ n6) a b;
      binding = λ a b. of_not _ (not_three _ _ _ (noted-nil _ _ n7) a b);
      exceptions = λ a. of_not _ (not_both _ _ (noted-nil _ _ n8) a);
      hours = λ a b. of_not _ (not_three _ _ _ (noted-nil _ _ n9) a b);
    }

nil_noted : (b : Bool) (v : Violation) → b ≡ false → noted b v ≡ []
nil_noted b v h = rw h refl

nil_append {ℓ} : {A : Type ℓ} (xs ys : List A) → xs ≡ [] → ys ≡ [] → xs ++ ys ≡ []
nil_append xs ys h k = rw (h, k) refl

fails_one : (a : Bool) → a ≡ true → not a ≡ false
fails_one a h = rw h refl

fails_two : (a c : Bool) → (a ≡ true → c ≡ true) → (a && not c) ≡ false
fails_two true c f = rw (f refl) refl
fails_two false c f = refl

fails_three : (a b c : Bool) → (a ≡ true → b ≡ true → c ≡ true) → (a && b && not c) ≡ false
fails_three true true c f = rw (f refl refl) refl
fails_three true false c f = refl
fails_three false b c f = refl

fails_mid : (a b c : Bool) → (a ≡ true → c ≡ true → b ≡ true) → (a && not b && c) ≡ false
fails_mid true b true f = rw (f refl refl) refl
fails_mid true true false f = refl
fails_mid true false false f = refl
fails_mid false b c f = refl

fails_four : (a b p c : Bool) → (a ≡ true → b ≡ true → c ≡ true) → (a && b && p && not c) ≡ false
fails_four true true true c f = rw (f refl refl) refl
fails_four true true false c f = refl
fails_four true false p c f = refl
fails_four false b p c f = refl

Clean-violations :
    (e : PolicyEngine) (i : PolicyCheckInput) (t : ToolDefinition)
    → Clean e i t
    → violations_of e i t ≡ []
unfolding violations_of
Clean-violations e i t k =
    nil_append _ _
      (nil_append _ _
        (nil_append _ _
          (nil_append _ _
            (nil_append _ _
              (nil_append _ _
                (nil_append _ _
                  (nil_append _ _ (nil_noted _ _ (fails_one _ k.environment))
                    (nil_noted _ _ (fails_one _ k.role)))
                  (nil_noted _ _ (fails_three _ _ _ k.target)))
                (nil_noted _ _ (fails_four _ _ (is_risk_proposal i.proposal_type) _ k.binding)))
              (nil_noted _ _ (fails_three _ _ _ k.kill_switch)))
            (nil_noted _ _ (fails_mid _ _ _ k.live_trading)))
          (nil_noted _ _ (fails_three _ _ _ k.binding)))
        (nil_noted _ _ (fails_two _ _ k.exceptions)))
      (nil_noted _ _ (fails_three _ _ _ k.hours))

-- A call that the policy may let through: of a known tool that is not forbidden, within its limits.
pub record Permitted (e : PolicyEngine) (i : PolicyCheckInput) : Type 0 where
  pub not_forbidden : any (str_eq i.tool_name) forbidden_tools ≡ false
  pub tool : ToolDefinition
  pub known : find_tool i.tool_name all_tools ≡ some tool
  pub clean : Clean e i tool

decide-clean :
    (m : Bool) (vs : List Violation) → (decide m vs).result ≢ PolicyCheckResult.fail → vs ≡ []
decide-clean m [] h = refl
decide-clean m (v ∷ vs) h = absurd (h refl)

clean-decide : (m : Bool) → (decide m []).result ≢ PolicyCheckResult.fail
clean-decide true = λ h. cc
clean-decide false = λ h. cc

-- The policy does not fail a call exactly when its tool is known and not forbidden, and the call is
-- within the limits: the environment and the role are allowed; a controlled operation with a target
-- type names its target; in Live, with the kill switch on only reading is done, what needs approval
-- waits for live trading to be allowed, and a controlled operation is bound to a version and within
-- trading hours; with unresolved exceptions only reading is done. Outside Live the kill switch is
-- not among the conditions.
pub evaluate_policy-Permitted :
    (e : PolicyEngine) (i : PolicyCheckInput)
    → ((evaluate_policy e i).result ≢ PolicyCheckResult.fail) ↔ Permitted e i
unfolding evaluate_policy
evaluate_policy-Permitted e i = elim (Bool-cases (any (str_eq i.tool_name) forbidden_tools)) [
  | inl f ↦ (λ h. absurd (rw (evaluate_policy, f) at h refl), λ p. absurd (cc (f, p.not_forbidden)))
  | inr f ↦ elim (Option-cases (find_tool i.tool_name all_tools)) [
    | inl u ↦ (λ h. absurd (rw (evaluate_policy, f, u) at h refl), λ p. absurd (cc (u, p.known)))
    | inr (t, k) ↦ (
      λ h. record {
        not_forbidden = f;
        tool = t;
        known = k;
        clean = violations-Clean e i t (decide-clean _ _ (rw (evaluate_policy, f, k) at h));
      },
      λ p.
          let same : p.tool ≡ t = ground arith in
          rw (evaluate_policy, f, k, Clean-violations e i t (rw same at p.clean)) (clean-decide _),
    )
  ]
]

-- A test that holds of every tool holds of the one found.
all-find_tool :
    (test : ToolDefinition → Bool) (name : String) (tools : List ToolDefinition)
    {t : ToolDefinition}
    → all test tools ≡ true
    → find_tool name tools ≡ some t
    → test t ≡ true
all-find_tool test name [] h k = cc
all-find_tool test name (x ∷ tools) {t} h k = elim (Bool-cases (str_eq x.name name)) [
  | inl e ↦ let same : x ≡ t = ground arith in rw (← same) (ground arith)
  | inr e ↦ all-find_tool test name tools (ground arith) (rw e at k)
]

abbrev reviewed : ToolDefinition → Bool
reviewed t = not (is_controlled t) || t.requires_approval

tools_reviewed : all reviewed all_tools ≡ true
unfolding ToolCategory-discrete
tools_reviewed = refl

needs_approval :
    (t : ToolDefinition) → reviewed t ≡ true → is_controlled t ≡ true → t.requires_approval ≡ true
needs_approval t h c = ground arith

decide_manual : (vs : List Violation) → (decide true vs).result ≢ PolicyCheckResult.pass
decide_manual [] = λ h. cc
decide_manual (v ∷ vs) = λ h. cc

judged_manual :
    (manual : Bool) (vs : List Violation)
    → manual ≡ true
    → (decide manual vs).result ≢ PolicyCheckResult.pass
judged_manual true vs h = decide_manual vs
judged_manual false vs h = cc

-- In Live, no controlled operation of the registry is passed without a manual review, whatever the
-- role, the target and the engine's settings.
pub live_controlled_reviewed :
    (e : PolicyEngine) (i : PolicyCheckInput) (t : ToolDefinition)
    → is_live i ≡ true
    → find_tool i.tool_name all_tools ≡ some t
    → is_controlled t ≡ true
    → (evaluate_policy e i).result ≢ PolicyCheckResult.pass
unfolding evaluate_policy
live_controlled_reviewed e i t l k c =
    let a = needs_approval t (all-find_tool reviewed i.tool_name all_tools tools_reviewed k) c in
    elim (Bool-cases (any (str_eq i.tool_name) forbidden_tools)) [
      | inl f ↦ rw (evaluate_policy, f) (λ q. cc)
      | inr f ↦
          rw (evaluate_policy, f, k)
            (judged_manual (t.requires_approval && is_live i) (violations_of e i t)
              (rw (a, l) refl))
    ]
