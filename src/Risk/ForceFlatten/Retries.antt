-- ===== src/Risk/ForceFlatten/Retries.antt =====
-- A retry keeps the counters the counts of the tasks, and no task is tried too often.
use hqmts.Prelude.{
  ℕ, suc, ◌+◌, ◌≤◌, ◌≡◌, inl, inr, refl, sym, ap, ◌∙◌, true, List, [], ◌∷◌, length, arith, All,
  if◌then◌else◌, Bool-cases,
}
use hqmts.Prelude.Int.{ℤ, pos, ◌+ℤ◌, int_laws}
use hqmts.Prelude.Decimal.{Datetime}
use hqmts.Risk.ForceFlatten.{
  failed, FlattenPositionTask, FlattenProgress, Submit, attempt, is_submitted, is_failed,
  is_skipped, count, recounted, retries, retry_each, retry,
}
use hqmts.Risk.ForceFlatten.Progress.{attempt-cases, Settled, one, Counts, parts_of}

-- What the loop changes of the counters of `p`.
record Recount (tasks : List FlattenPositionTask) (p : FlattenProgress)
    (out : List FlattenPositionTask × FlattenProgress) : Type 0 where
  flattened :
      out.1.flattened_positions +ℤ count is_submitted tasks
      ≡ p.flattened_positions +ℤ count is_submitted out.0
  failures :
      out.1.failed_positions +ℤ count is_failed tasks ≡ p.failed_positions +ℤ count is_failed out.0
  skips : count is_skipped out.0 ≡ count is_skipped tasks
  others :
      (out.1.skipped_positions ≡ p.skipped_positions)
      × (out.1.total_positions ≡ p.total_positions)
      × (out.1.remaining_positions ≡ p.remaining_positions)
  lengths : length out.0 ≡ length tasks
  settled : All Settled out.0

-- `a + s = x + s'` after, `x + t = b + t'` at the head.
chain :
    (a b x s s' t t' : ℤ) → a +ℤ s ≡ x +ℤ s' → x +ℤ t ≡ b +ℤ t' → a +ℤ (t +ℤ s) ≡ b +ℤ (t' +ℤ s')
chain a b x s s' t t' h k = omega (int_laws, parts_of _ _ h, parts_of _ _ k)

level : (a b s s' : ℤ) → a +ℤ s ≡ b +ℤ s' → b ≡ s → a ≡ s'
level a b s s' h k = omega (int_laws, parts_of _ _ h, parts_of _ _ k)

-- One task more in front.
cons-Recount :
    (t t' : FlattenPositionTask) (tasks : List FlattenPositionTask) (p p' : FlattenProgress)
    (out : List FlattenPositionTask × FlattenProgress)
    → p'.flattened_positions +ℤ one (is_submitted t)
      ≡ p.flattened_positions +ℤ one (is_submitted t')
    → p'.failed_positions +ℤ one (is_failed t) ≡ p.failed_positions +ℤ one (is_failed t')
    → is_skipped t' ≡ is_skipped t
    → (p'.skipped_positions ≡ p.skipped_positions)
      × (p'.total_positions ≡ p.total_positions)
      × (p'.remaining_positions ≡ p.remaining_positions)
    → Settled t'
    → Recount tasks p' out
    → Recount (t ∷ tasks) p (t' ∷ out.0, out.1)
cons-Recount t t' tasks p p' out f g k e d r = record {
  flattened = chain _ _ _ _ _ _ _ r.flattened f;
  failures = chain _ _ _ _ _ _ _ r.failures g;
  skips = rw (k, r.skips);
  others = (r.others.0 ∙ e.0, r.others.1 ∙ e.1, r.others.2 ∙ e.2);
  lengths = ap suc r.lengths;
  settled = (d, r.settled);
}

failed_of :
    (max_retries : ℕ) (t : FlattenPositionTask)
    → retries max_retries t ≡ true
    → t.order_status ≡ failed
failed_of max_retries t h = ground arith

module _ (max_retries : ℕ) (now : Datetime) (submit : Submit) where
  retry_each-Recount :
      (tasks : List FlattenPositionTask) (p : FlattenProgress)
      → All Settled tasks
      → Recount tasks p (retry_each max_retries now submit tasks p)
  unfolding retry_each
  retry_each-Recount [] p h = record {
    flattened = refl;
    failures = refl;
    skips = refl;
    others = (refl, refl, refl);
    lengths = refl;
    settled = tt;
  }
  retry_each-Recount (t ∷ tasks) p (h, hs) =
      let t' = attempt now submit t in
      elim (Bool-cases (retries max_retries t)) [
        | inr s ↦ rw s (
            cons-Recount t t tasks p p _ refl refl refl (refl, refl, refl) h
              (retry_each-Recount tasks p hs))
        | inl s ↦
            let e = failed_of max_retries t s in
            let r = retry_each-Recount tasks (recounted t' p) hs in
            elim (attempt-cases now submit t) [
              | inl a ↦ rw s (
                  cons-Recount t t' tasks p (recounted t' p) _ (rw (a, e) (omega int_laws))
                    (rw (a, e) (omega int_laws)) (rw (a, e) refl) (rw a (refl, refl, refl)) (inl a)
                    r)
              | inr a ↦ rw s (
                  cons-Recount t t' tasks p (recounted t' p) _ (rw (a, e) refl) (rw (a, e) refl)
                    (rw (a, e) refl) (rw a (refl, refl, refl)) (inr (inl a)) r)
            ]
      ]

  -- A retry of the failed tasks keeps the progress complete, with its counters the counts of the
  -- tasks, whatever the final check and the order service answer.
  pub retry-Counts : (p : FlattenProgress) → Counts p → Counts (retry max_retries now submit p)
  unfolding retry
  retry-Counts p k =
      let r = retry_each-Recount p.tasks p k.settled in
      record {
        total = r.others.1 ∙ k.total ∙ ap pos (sym r.lengths);
        flattened = level _ _ _ _ r.flattened k.flattened;
        failures = level _ _ _ _ r.failures k.failures;
        skips = r.others.0 ∙ k.skips ∙ sym r.skips;
        remaining = r.others.2 ∙ k.remaining;
        settled = r.settled;
      }

  room : (t : FlattenPositionTask) → retries max_retries t ≡ true → t.attempts + 1 ≤ max_retries
  room t h = ground arith

  tried :
      (t : FlattenPositionTask)
      → t.attempts ≤ max_retries
      → (if retries max_retries t then attempt now submit t else t).attempts ≤ max_retries
  unfolding attempt
  tried t h = elim (Bool-cases (retries max_retries t)) [ inl s ↦ rw s (room t s) | inr s ↦ rw s h ]

  -- No task is tried more often than the retries that are allowed, after a retry, if none was
  -- before.
  pub retry-attempts :
      (p : FlattenProgress)
      → All (λ t. t.attempts ≤ max_retries) p.tasks
      → All (λ t. t.attempts ≤ max_retries) (retry max_retries now submit p).tasks
  unfolding retry retry_each attempt
  retry-attempts p h = each p.tasks p h
    where
      each :
          (tasks : List FlattenPositionTask) (p : FlattenProgress)
          → All (λ t. t.attempts ≤ max_retries) tasks
          → All (λ t. t.attempts ≤ max_retries) (retry_each max_retries now submit tasks p).0
      each [] p h = tt
      each (t ∷ tasks) p (h, hs) = (tried t h, each tasks _ hs)
