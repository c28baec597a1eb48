-- ===== src/Risk/ForceFlatten/Progress.antt =====
-- The flatten orders pass the final check, and the counters are the counts of the tasks.
use hqmts.Prelude.{
  suc, ◌⊎◌, ◌+◌, ◌≡◌, ◌≢◌, inl, inr, refl, sym, ap, ◌∙◌, Bool, true, false, some, List, [], ◌∷◌,
  map, length, arith, All, if◌then◌else◌, Bool-cases,
}
use hqmts.Prelude.Int.{
  ℤ, pos, ◌+ℤ◌, ◌-ℤ◌, ◌*ℤ◌, ◌≤ℤ◌, ◌<ℤ◌, max_ℤ, ltb_ℤ, -ℤ_parts, pos_part, neg_part, int_laws,
}
use hqmts.Prelude.Decimal.{Datetime, unit}
use hqmts.Risk.FinalContext.{allow}
use hqmts.Risk.FinalCheck.{execute}
use hqmts.Risk.FinalCheck.Verdict.{Cleared, execute-allow_iff}
use hqmts.Risk.ForceFlatten.{
  OpenPosition, or_zero, pending, submitted, failed, skipped_t1, FlattenPositionTask,
  FlattenProgress, build_task, flatten_context, Submit, submitted_by, execute_flatten_order,
  attempt, is_submitted, is_failed, is_skipped, is_sellable, count, counted, submit_each, built,
  execute_flatten, is_complete,
}

max_sellable : (a b : ℤ) → b <ℤ a → max_ℤ (pos 0) (a -ℤ b) ≡ a -ℤ b
max_sellable a b h = ground (arith, -ℤ_parts a b)

sellable_positive : (a b : ℤ) → b <ℤ a → pos 0 <ℤ a -ℤ b
sellable_positive a b h = omega (arith, -ℤ_parts a b)

within_threshold : pos 0 ≤ℤ pos 30 *ℤ pos unit
unfolding ◌*ℤ◌
within_threshold = omega arith

all_sellable :
    (p : OpenPosition)
    → or_zero p.today_bought_quantity <ℤ p.available_quantity
    → (build_task p).sellable_quantity ≡ p.available_quantity -ℤ or_zero p.today_bought_quantity
unfolding build_task
all_sellable p h = max_sellable p.available_quantity (or_zero p.today_bought_quantity) h

-- The order for a position with shares to sell today is cleared.
task-Cleared :
    (now : Datetime) (p : OpenPosition)
    → p.instrument_id ≢ ""
    → or_zero p.today_bought_quantity <ℤ p.available_quantity
    → Cleared (flatten_context now (build_task p))
unfolding flatten_context build_task
task-Cleared now p ne h = record {
  strategy = inr (inl refl, inl refl);
  signal = λ t e. cc;
  adapter = refl;
  account = inl refl;
  position = λ e. rw (max_sellable p.available_quantity _ h) (omega arith);
  reservation = inl refl;
  inflight = refl;
  mode = inl (refl, refl);
  frequency = omega arith;
  params = (
    omega arith,
    rw (max_sellable p.available_quantity _ h) (sellable_positive p.available_quantity _ h),
    ne,
  );
  fresh = λ e. within_threshold;
  source = refl;
  requester = refl;
}

-- For a position with a name and with a greater available quantity than was bought today, the
-- flatten order asks for exactly the available quantity less what was bought today, the final check
-- lets it through at any time, with the kill switch on, and the attempt ends as the order service
-- answers.
pub flatten_order_passes :
    (now : Datetime) (submit : Submit) (p : OpenPosition)
    → p.instrument_id ≢ ""
    → or_zero p.today_bought_quantity <ℤ p.available_quantity
    → ((build_task p).sellable_quantity ≡ p.available_quantity -ℤ or_zero p.today_bought_quantity)
      × ((execute (flatten_context now (build_task p))).result ≡ allow)
      × (execute_flatten_order now submit (build_task p) ≡ submitted_by submit (build_task p))
unfolding execute_flatten_order
flatten_order_passes now submit p ne h =
    let e = (execute-allow_iff (flatten_context now (build_task p))).1 (task-Cleared now p ne h) in
    (all_sellable p h, e, rw e refl)

-- A task as it was built: to be sold, or skipped.
abbrev Fresh : FlattenPositionTask → Type 0
Fresh t =
    ((is_sellable t ≡ true) × (t.order_status ≡ pending))
    ⊎ ((is_sellable t ≡ false) × (t.order_status ≡ skipped_t1))

build_task-Fresh : (p : OpenPosition) → Fresh (build_task p)
unfolding build_task
build_task-Fresh p =
    let sellable : ℤ = max_ℤ (pos 0) (p.available_quantity -ℤ or_zero p.today_bought_quantity) in
    elim (Bool-cases (ltb_ℤ (pos 0) sellable)) [
      | inl e ↦ inl (e, rw e refl)
      | inr e ↦ inr (e, rw e refl)
    ]

built-Fresh : (positions : List OpenPosition) → All Fresh (map build_task positions)
built-Fresh [] = tt
built-Fresh (p ∷ positions) = (build_task-Fresh p, built-Fresh positions)

pub attempt-cases :
    (now : Datetime) (submit : Submit) (t : FlattenPositionTask)
    → ((attempt now submit t).order_status ≡ submitted)
      ⊎ ((attempt now submit t).order_status ≡ failed)
unfolding attempt
attempt-cases now submit t =
    elim (Bool-cases (execute_flatten_order now submit (record t { attempts = t.attempts + 1 }))) [
      | inl e ↦ inl (rw e refl)
      | inr e ↦ inr (rw e refl)
    ]

-- Every task is submitted, failed or skipped.
abbrev pub Settled : FlattenPositionTask → Type 0
Settled t = (t.order_status ≡ submitted) ⊎ (t.order_status ≡ failed) ⊎ (t.order_status ≡ skipped_t1)

-- What the loop adds to the counters of `p`.
record Submission (tasks : List FlattenPositionTask) (p : FlattenProgress)
    (out : List FlattenPositionTask × FlattenProgress) : Type 0 where
  flattened : out.1.flattened_positions ≡ p.flattened_positions +ℤ count is_submitted out.0
  failures : out.1.failed_positions ≡ p.failed_positions +ℤ count is_failed out.0
  remaining : out.1.remaining_positions +ℤ count is_sellable tasks ≡ p.remaining_positions
  skips : count is_skipped out.0 ≡ count is_skipped tasks
  skipped : out.1.skipped_positions ≡ p.skipped_positions
  total : out.1.total_positions ≡ p.total_positions
  lengths : length out.0 ≡ length tasks
  settled : All Settled out.0

abbrev pub one : Bool → ℤ
one b = if b then pos 1 else pos 0

pub shift : (a b x m n : ℤ) → a ≡ x +ℤ m → x ≡ b +ℤ n → a ≡ b +ℤ (n +ℤ m)
shift a b x m n h k = rw (h, k) (omega int_laws)

unshift : (a b x m n : ℤ) → a +ℤ m ≡ x → x +ℤ n ≡ b → a +ℤ (n +ℤ m) ≡ b
unshift a b x m n h k = sym (rw (← k, ← h) (omega int_laws))

-- One task more in front.
cons-Submission :
    (t t' : FlattenPositionTask) (tasks : List FlattenPositionTask) (p p' : FlattenProgress)
    (out : List FlattenPositionTask × FlattenProgress)
    → p'.flattened_positions ≡ p.flattened_positions +ℤ one (is_submitted t')
    → p'.failed_positions ≡ p.failed_positions +ℤ one (is_failed t')
    → p'.remaining_positions +ℤ one (is_sellable t) ≡ p.remaining_positions
    → is_skipped t' ≡ is_skipped t
    → (p'.skipped_positions ≡ p.skipped_positions) × (p'.total_positions ≡ p.total_positions)
    → Settled t'
    → Submission tasks p' out
    → Submission (t ∷ tasks) p (t' ∷ out.0, out.1)
cons-Submission t t' tasks p p' out f g m k e d r = record {
  flattened = shift _ _ _ _ _ r.flattened f;
  failures = shift _ _ _ _ _ r.failures g;
  remaining = unshift _ _ _ _ _ r.remaining m;
  skips = rw (k, r.skips);
  skipped = r.skipped ∙ e.0;
  total = r.total ∙ e.1;
  lengths = ap suc r.lengths;
  settled = (d, r.settled);
}

submit_each-Submission :
    (now : Datetime) (submit : Submit) (tasks : List FlattenPositionTask) (p : FlattenProgress)
    → All Fresh tasks
    → Submission tasks p (submit_each now submit tasks p)
unfolding submit_each
submit_each-Submission now submit [] p h = record {
  flattened = omega int_laws;
  failures = omega int_laws;
  remaining = omega int_laws;
  skips = refl;
  skipped = refl;
  total = refl;
  lengths = refl;
  settled = tt;
}
submit_each-Submission now submit (t ∷ tasks) p (inl (s, e), h) =
    let t' = attempt now submit t in
    let r = submit_each-Submission now submit tasks (counted t' p) h in
    elim (attempt-cases now submit t) [
      | inl a ↦ rw s (
          cons-Submission t t' tasks p (counted t' p) _ (rw a refl) (rw a (omega int_laws))
            (rw (a, s) (omega int_laws)) (rw (a, e) refl) (rw a (refl, refl)) (inl a) r)
      | inr a ↦ rw s (
          cons-Submission t t' tasks p (counted t' p) _ (rw a (omega int_laws)) (rw a refl)
            (rw (a, s) (omega int_laws)) (rw (a, e) refl) (rw a (refl, refl)) (inr (inl a)) r)
    ]
submit_each-Submission now submit (t ∷ tasks) p (inr (s, e), h) = rw s (
    cons-Submission t t tasks p p _ (rw e (omega int_laws)) (rw e (omega int_laws))
      (rw s (omega int_laws)) refl (refl, refl) (inr (inr e))
      (submit_each-Submission now submit tasks p h))

-- The counters are the counts of the tasks, each task has its end, and nothing remains.
pub record Counts (p : FlattenProgress) : Type 0 where
  pub total : p.total_positions ≡ pos (length p.tasks)
  pub flattened : p.flattened_positions ≡ count is_submitted p.tasks
  pub failures : p.failed_positions ≡ count is_failed p.tasks
  pub skips : p.skipped_positions ≡ count is_skipped p.tasks
  pub remaining : p.remaining_positions ≡ pos 0
  pub settled : All Settled p.tasks

pub parts_of : (a b : ℤ) → a ≡ b → pos_part a + neg_part b ≡ pos_part b + neg_part a
parts_of a b h = rw h refl

counts_add :
    (tasks : List FlattenPositionTask)
    → All Settled tasks
    → count is_submitted tasks +ℤ count is_failed tasks +ℤ count is_skipped tasks
      ≡ pos (length tasks)
counts_add [] h = omega int_laws
counts_add (t ∷ tasks) (h, hs) = elim h [
  | inl e ↦ rw e (omega (int_laws, parts_of _ _ (counts_add tasks hs)))
  | inr (inl e) ↦ rw e (omega (int_laws, parts_of _ _ (counts_add tasks hs)))
  | inr (inr e) ↦ rw e (omega (int_laws, parts_of _ _ (counts_add tasks hs)))
]

nothing_left : (a b : ℤ) → a +ℤ b ≡ b → a ≡ pos 0
nothing_left a b h = omega (int_laws, parts_of _ _ h)

none_yet : (a b : ℤ) → a ≡ pos 0 +ℤ b → a ≡ b
none_yet a b h = rw h (omega int_laws)

length-map : (positions : List OpenPosition) → length (map build_task positions) ≡ length positions
length-map [] = refl
length-map (p ∷ positions) = ap suc (length-map positions)

pub Counts-total :
    (p : FlattenProgress)
    → Counts p
    → p.flattened_positions +ℤ p.failed_positions +ℤ p.skipped_positions ≡ p.total_positions
Counts-total p k = rw (k.flattened, k.failures, k.skips, k.total) (counts_add p.tasks k.settled)

-- A flatten over the rows of the repository, whatever the final check and the order service answer,
-- ends complete: every row has a task that is submitted, failed or skipped, the counters are the
-- counts of these, and they add up to the number of rows.
pub execute_flatten-Counts :
    (now : Datetime) (submit : Submit) (positions : List OpenPosition)
    → Counts (execute_flatten now submit (some positions))
      × (is_complete (execute_flatten now submit (some positions)) ≡ true)
      × ((execute_flatten now submit (some positions)).total_positions ≡ pos (length positions))
unfolding execute_flatten is_complete
execute_flatten-Counts now submit positions =
    let tasks = map build_task positions in
    let r = submit_each-Submission now submit tasks (built tasks) (built-Fresh positions) in
    let z = nothing_left _ _ r.remaining in
    (
      record {
        total = r.total ∙ ap pos (sym r.lengths);
        flattened = none_yet _ _ r.flattened;
        failures = none_yet _ _ r.failures;
        skips = r.skipped ∙ sym r.skips;
        remaining = z;
        settled = r.settled;
      },
      rw z refl,
      r.total ∙ ap pos (length-map positions),
    )
