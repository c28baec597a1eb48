-- ===== src/Fsm/Machine/Histories.antt =====
-- Histories of a machine: chains of accepted transitions, and what they must pass through.
use hqmts.Prelude.{
  ◌≡◌, refl, sym, ◌⊎◌, inl, inr, Bool, true, false, ◌&&◌, ◌||◌, List, [], ◌∷◌, Memᴰ, arith, decided,
  decided-true, contains, all, Bool-cases, not,
}
use hqmts.Fsm.Machine.{StateMachine, ok, row, is_terminal, transition}

-- `History m s visited t`: from `s` the machine accepts the states of `visited` one after the
-- other, and `t` is the state it is left in.
pub data History {ℓ} {S : Type ℓ} (m : StateMachine S) : S → List S → S → Type ℓ where
  stay : {s : S} → History m s [] s
  move :
      {s u t : S} {visited : List S}
      → transition m s u ≡ ok u
      → History m u visited t
      → History m s (u ∷ visited) t

module _ {ℓ} {S : Type ℓ} (m : StateMachine S) where
  -- No history leaves a terminal state.
  pub History-terminal :
      {s t : S} {visited : List S} → History m s visited t → is_terminal m s ≡ true → visited ≡ []
  unfolding transition
  History-terminal stay h = refl
  History-terminal (move e r) h = ground arith

  -- Whether the states of `inside` are left only by entering `gate`.
  abbrev closed_targets : S → (S → Bool) → List S → Bool
  closed_targets gate inside = all (λ t. inside t || decided (m.equal t gate))

  abbrev closed_rows : S → (S → Bool) → List (S × List S) → Bool
  closed_rows gate inside [] = true
  closed_rows gate inside ((s, targets) ∷ table) =
      (not (inside s) || closed_targets gate inside targets) && closed_rows gate inside table

  abbrev pub is_closed : S → (S → Bool) → Bool
  is_closed gate inside = closed_rows gate inside m.transitions

  or_gate :
      (gate : S) (inside : S → Bool) (t : S)
      → (inside t || decided (m.equal t gate)) ≡ true
      → (inside t ≡ true) ⊎ (t ≡ gate)
  or_gate gate inside t h = elim (Bool-cases (inside t)) [
    | inl e ↦ inl e
    | inr e ↦ inr (decided-true (m.equal t gate) (ground arith))
  ]

  closed_targets_sound :
      (gate : S) (inside : S → Bool) (t : S) (targets : List S)
      → closed_targets gate inside targets ≡ true
      → contains m.equal t targets ≡ true
      → (inside t ≡ true) ⊎ (t ≡ gate)
  closed_targets_sound gate inside t [] c h = cc
  closed_targets_sound gate inside t (x ∷ xs) c h = elim (Bool-cases (decided (m.equal t x))) [
    | inl e ↦ rw (decided-true (m.equal t x) e) (or_gate gate inside x (ground arith))
    | inr e ↦ closed_targets_sound gate inside t xs (ground arith) (ground arith)
  ]

  closed_rows_sound :
      (gate : S) (inside : S → Bool) (s t : S) (table : List (S × List S))
      → closed_rows gate inside table ≡ true
      → inside s ≡ true
      → contains m.equal t (row m s table) ≡ true
      → (inside t ≡ true) ⊎ (t ≡ gate)
  closed_rows_sound gate inside s t [] c i h = cc
  closed_rows_sound gate inside s t ((k, targets) ∷ table) c i h =
      elim (Bool-cases (decided (m.equal s k))) [
        | inl e ↦
            closed_targets_sound gate inside t targets
              (ground (arith, decided-true (m.equal s k) e)) (ground arith)
        | inr e ↦ closed_rows_sound gate inside s t table (ground arith) i (ground arith)
      ]

  accepted_row :
      (s u : S) → transition m s u ≡ ok u → contains m.equal u (row m s m.transitions) ≡ true
  unfolding transition
  accepted_row s u e = ground arith

  -- A history that gets out of `inside` has passed through the gate.
  pub History-gate :
      (gate : S) (inside : S → Bool) {s t : S} {visited : List S}
      → is_closed gate inside ≡ true
      → inside s ≡ true
      → inside t ≡ false
      → History m s visited t
      → Memᴰ gate visited
  History-gate gate inside c i o stay = cc
  History-gate gate inside {s} c i o (move {u} e r) =
      elim (closed_rows_sound gate inside s u m.transitions c i (accepted_row s u e)) [
        | inl k ↦ Memᴰ.tail (History-gate gate inside c k o r)
        | inr g ↦ Memᴰ.head (sym g)
      ]

  -- A history never leaves a closed set of states.
  pub History-inside :
      (gate : S) (inside : S → Bool) {s t : S} {visited : List S}
      → is_closed gate inside ≡ true
      → inside gate ≡ true
      → inside s ≡ true
      → History m s visited t
      → inside t ≡ true
  History-inside gate inside c g i stay = i
  History-inside gate inside {s} c g i (move {u} e r) =
      elim (closed_rows_sound gate inside s u m.transitions c i (accepted_row s u e)) [
        | inl k ↦ History-inside gate inside c g k r
        | inr p ↦ History-inside gate inside c g (rw p g) r
      ]
