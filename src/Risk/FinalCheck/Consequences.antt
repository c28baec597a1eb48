-- ===== src/Risk/FinalCheck/Consequences.antt =====
-- What follows for flattening orders, for the kill switch, and for the two lists of the report.
use hqmts.Prelude.{
  ℕ, ◌+◌, ◌≡◌, inl, inr, refl, ◌∙◌, true, false, some, List, [], ◌∷◌, arith, Bool-cases, length,
  if◌then◌else◌,
}
use hqmts.Prelude.Int.{pos, ltb_ℤ}
use hqmts.Risk.FinalContext.{allow, reject, FinalCheckContext, Entry, passed, failed, Label}
use hqmts.Risk.FinalCheck.{
  check_staleness, run_checks, passed_checks, failed_checks, judge, execute,
}
use hqmts.Risk.FinalCheck.Verdict.{Cleared, execute-allow_iff}

Cleared-flatten :
    (c : FinalCheckContext)
    → c.is_flatten ≡ false
    → Cleared c
    → Cleared (record c { is_flatten = true })
Cleared-flatten c n h = record {
  strategy = elim h.strategy [ inl e ↦ inl e | inr (s, k) ↦ inr (s, inl refl) ];
  signal = h.signal;
  adapter = h.adapter;
  account = h.account;
  position = h.position;
  reservation = h.reservation;
  inflight = h.inflight;
  mode = elim h.mode [ inl (k, f) ↦ inl (k, refl) | inr (k, o) ↦ inr (k, inr (inl refl)) ];
  frequency = h.frequency;
  params = h.params;
  fresh = h.fresh;
  source = h.source;
  requester = h.requester;
}

-- An order that is allowed is also allowed when it is marked as a flattening.
pub flatten_monotone :
    (c : FinalCheckContext)
    → c.is_flatten ≡ false
    → (execute c).result ≡ allow
    → (execute (record c { is_flatten = true })).result ≡ allow
flatten_monotone c n h =
    (execute-allow_iff (record c { is_flatten = true })).1
      (Cleared-flatten c n ((execute-allow_iff c).0 h))

judge_killed : (labels : List Label) → judge true labels ≡ reject
judge_killed [] = refl
judge_killed (l ∷ labels) = refl

-- With the kill switch on, every order that is not a flattening is rejected, never put off or
-- escalated.
pub kill_switch_rejects :
    (c : FinalCheckContext)
    → c.kill_switch_active ≡ some true
    → c.is_flatten ≡ false
    → (execute c).result ≡ reject
unfolding execute
kill_switch_rejects c k f = rw (k, f) (judge_killed _)

reports : List Entry → ℕ
reports entries = length (passed_checks entries) + length (failed_checks entries)

reports-length : (entries : List Entry) → reports entries ≡ length entries
unfolding reports
reports-length [] = refl
reports-length (passed l ∷ entries) = omega (arith, reports-length entries)
reports-length (failed l ∷ entries) = omega (arith, reports-length entries)

-- Every check files exactly one label: twelve in all, and one more where the price's age is checked.
pub execute-reports :
    (c : FinalCheckContext)
    → length (execute c).passed_checks + length (execute c).failed_checks
      ≡ (if ltb_ℤ (pos 0) c.stale_price_threshold_seconds then 13 else 12)
unfolding execute run_checks check_staleness reports
execute-reports c =
    reports-length (run_checks c)
    ∙ elim (Bool-cases (ltb_ℤ (pos 0) c.stale_price_threshold_seconds)) [
      | inl e ↦ rw e
      | inr e ↦ rw e
    ]
