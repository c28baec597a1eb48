-- ===== src/Fsm/Machine.antt =====
-- `class StateMachine` of src/hqmts/statemachine/base.py, and its two errors
-- (src/hqmts/core/exceptions.py). The table is the dict as an association list; a set of states
-- is a list.
pub mod Laws
pub mod Histories
use hqmts.Prelude.{
  String, ◌≡◌, ◌⊎◌, Bool, true, false, Option, none, some, List, [], ◌∷◌, map, if◌then◌else◌, all,
  contains, decided,
}

pub record StateMachine {ℓ} (S : Type ℓ) : Type ℓ where
  pub entity_type : String
  pub transitions : List (S × List S)
  pub terminal_states : List S
  pub equal : Discrete S

-- What `transition` returns or raises.
pub data Outcome {ℓ} (S : Type ℓ) : Type ℓ where
  ok : S → Outcome S
  terminal_state_error : S → String → Outcome S
  illegal_transition_error : S → S → String → Outcome S

-- `_validate_definitions` raises ValueError on the first undefined target.
pub data Validation {ℓ} (S : Type ℓ) : Type ℓ where
  consistent : Validation S
  undefined_target : S → S → Validation S

module _ {ℓ} {S : Type ℓ} (m : StateMachine S) where
  open m use {entity_type, transitions, terminal_states, equal}

  -- `self._transitions.get(current, set())`
  abbrev row : S → List (S × List S) → List S
  row s [] = []
  row s ((k, targets) ∷ table) = if decided (equal s k) then targets else row s table

  abbrev pub allowed : S → List S
  allowed s = row s transitions

  abbrev keys : List (S × List S) → List S
  keys [] = []
  keys ((k, targets) ∷ table) = k ∷ keys table

  -- `get_all_states`, before sorting
  unfoldable pub get_all_states : List S
  get_all_states = keys transitions

  unfoldable pub is_terminal : S → Bool
  is_terminal s = contains equal s terminal_states

  unfoldable pub can_transition : S → S → Bool
  unfolding is_terminal
  can_transition current target =
      if is_terminal current then false else contains equal target (allowed current)

  -- before sorting
  unfoldable pub valid_transitions : S → List S
  unfolding is_terminal
  valid_transitions current = if is_terminal current then [] else allowed current

  unfoldable pub transition : S → S → Outcome S
  unfolding is_terminal
  transition current target =
      if is_terminal current
      then terminal_state_error current entity_type
      else if contains equal target (allowed current)
      then ok target
      else illegal_transition_error current target entity_type

  -- the inner loop: the targets of one state
  validate_targets : S → List S → Validation S
  unfolding get_all_states
  validate_targets s [] = consistent
  validate_targets s (t ∷ targets) =
      let rest = validate_targets s targets in
      if contains equal t get_all_states then rest else undefined_target s t

  validate_rows : List (S × List S) → Validation S
  unfolding validate_targets
  validate_rows [] = consistent
  validate_rows ((s, targets) ∷ table) =
      let rest = validate_rows table in
      elim (validate_targets s targets) [
        | consistent ↦ rest
        | undefined_target a b ↦ undefined_target a b
      ]

  unfoldable pub validate_definitions : Validation S
  unfolding validate_rows
  validate_definitions = validate_rows transitions
