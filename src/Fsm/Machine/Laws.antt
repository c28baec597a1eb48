-- ===== src/Fsm/Machine/Laws.antt =====
-- What one call of a machine does.
use hqmts.Prelude.{
  ◌≡◌, ◌↔◌, inl, inr, true, List, [], ◌∷◌, Memᴰ, arith, decided, decided-true, contains, Bool-cases,
  Memᴰ-contains, contains_of_Memᴰ,
}
use hqmts.Fsm.Machine.{
  StateMachine, ok, terminal_state_error, consistent, allowed, row, get_all_states, is_terminal,
  can_transition, valid_transitions, transition, validate_targets, validate_rows,
  validate_definitions,
}

module _ {ℓ} {S : Type ℓ} (m : StateMachine S) where
  -- `transition` returns exactly when `can_transition` holds, and then it returns the target.
  pub transition-iff-can_transition :
      (s t u : S) → (transition m s t ≡ ok u) ↔ ((can_transition m s t ≡ true) × (u ≡ t))
  unfolding transition can_transition
  transition-iff-can_transition s t u = (λ h. ground arith, λ h. ground arith)

  -- `valid_transitions` lists the targets that `can_transition` accepts, and no others.
  pub Memᴰ-valid_transitions :
      (s t : S) → Memᴰ t (valid_transitions m s) ↔ (can_transition m s t ≡ true)
  unfolding valid_transitions can_transition
  Memᴰ-valid_transitions s t = elim (Bool-cases (is_terminal m s)) [
    | inl e ↦ (rw e (λ x. elim x [ ]), rw e (λ h. cc))
    | inr e ↦ (rw e (contains_of_Memᴰ m.equal), rw e (Memᴰ-contains m.equal t (allowed m s)))
  ]

  -- From a terminal state every request is refused with the same error.
  pub transition_terminal :
      (s t : S) → is_terminal m s ≡ true → transition m s t ≡ terminal_state_error s m.entity_type
  unfolding transition
  transition_terminal s t h = rw h

  -- The targets of a validated row are defined.
  validate_targets_sound :
      (s t : S) (ts : List S)
      → validate_targets m s ts ≡ consistent
      → contains m.equal t ts ≡ true
      → contains m.equal t (get_all_states m) ≡ true
  unfolding validate_targets
  validate_targets_sound s t [] v h = cc
  validate_targets_sound s t (x ∷ ts) v h = elim (Bool-cases (decided (m.equal t x))) [
    | inl e ↦ rw (decided-true (m.equal t x) e) (ground arith)
    | inr e ↦ validate_targets_sound s t ts (ground arith) (ground arith)
  ]

  validate_rows_sound :
      (s t : S) (table : List (S × List S))
      → validate_rows m table ≡ consistent
      → contains m.equal t (row m s table) ≡ true
      → contains m.equal t (get_all_states m) ≡ true
  unfolding validate_rows
  validate_rows_sound s t [] v h = cc
  validate_rows_sound s t ((k, ts) ∷ table) v h =
      ground (arith, validate_targets_sound k t ts, validate_rows_sound s t table)

  -- A machine that passes its own validation never moves to an undefined state.
  pub can_transition_defined :
      (s t : S)
      → validate_definitions m ≡ consistent
      → can_transition m s t ≡ true
      → Memᴰ t (get_all_states m)
  unfolding validate_definitions can_transition
  can_transition_defined s t v h =
      Memᴰ-contains m.equal t (get_all_states m)
        (validate_rows_sound s t m.transitions v (ground arith))
