-- ===== src/Risk/FlattenExamples.antt =====
-- The theorems on force flatten at two positions.
use hqmts.Prelude.{
  ne_of_str_eq, ◌≡◌, refl, inl, inr, false, true, none, some, [], ◌∷◌, arith, length,
}
use hqmts.Prelude.Int.{pos, ◌+ℤ◌, ◌-ℤ◌}
use hqmts.Risk.FinalContext.{allow}
use hqmts.Risk.FinalCheck.{execute}
use hqmts.Risk.ForceFlatten.{
  OpenPosition, build_task, flatten_context, FlattenProgress, Submit, submitted_by,
  execute_flatten_order, execute_flatten, is_complete, failed, skipped_t1, retry,
}
use hqmts.Risk.ForceFlatten.Progress.{flatten_order_passes, Counts, execute_flatten-Counts}
use hqmts.Risk.ForceFlatten.Retries.{retry-Counts}

abbrev held : OpenPosition
held = record {
  instrument_id = "600000.SH";
  total_quantity = pos 300;
  available_quantity = pos 300;
  today_bought_quantity = some (pos 100);
}

abbrev fresh : OpenPosition
fresh = record {
  instrument_id = "000001.SZ";
  total_quantity = pos 100;
  available_quantity = pos 100;
  today_bought_quantity = some (pos 100);
}

abbrev refuse : Submit
refuse = some (λ t. false)

flatten_order_passes_example :
    ((build_task held).sellable_quantity ≡ pos 300 -ℤ pos 100)
    × ((execute (flatten_context 40 (build_task held))).result ≡ allow)
    × (execute_flatten_order 40 refuse (build_task held) ≡ submitted_by refuse (build_task held))
flatten_order_passes_example =
    flatten_order_passes 40 refuse held (ne_of_str_eq "600000.SH" "" refl) (omega arith)

execute_flatten-Counts_example :
    Counts (execute_flatten 40 refuse (some (held ∷ fresh ∷ [])))
    × (is_complete (execute_flatten 40 refuse (some (held ∷ fresh ∷ []))) ≡ true)
    × ((execute_flatten 40 refuse (some (held ∷ fresh ∷ []))).total_positions
        ≡ pos (length (held ∷ fresh ∷ [])))
execute_flatten-Counts_example = execute_flatten-Counts 40 refuse (held ∷ fresh ∷ [])

-- One order failed once, one position was skipped.
abbrev stuck : FlattenProgress
stuck = record {
  total_positions = pos 2;
  flattened_positions = pos 0;
  remaining_positions = pos 0;
  failed_positions = pos 1;
  skipped_positions = pos 1;
  tasks =
      record {
        instrument_id = "600000.SH";
        total_quantity = pos 300;
        available_quantity = pos 300;
        today_bought_quantity = pos 100;
        sellable_quantity = pos 200;
        order_status = failed;
        attempts = 1;
      }
      ∷ record {
        instrument_id = "000001.SZ";
        total_quantity = pos 100;
        available_quantity = pos 100;
        today_bought_quantity = pos 100;
        sellable_quantity = pos 0;
        order_status = skipped_t1;
        attempts = 0;
      }
      ∷ [];
}

stuck-Counts : Counts stuck
unfolding ◌+ℤ◌
stuck-Counts = record {
  total = refl;
  flattened = refl;
  failures = refl;
  skips = refl;
  remaining = refl;
  settled = (inr (inl refl), (inr (inr refl), tt));
}

retry-Counts_example : Counts (retry 3 40 none stuck)
retry-Counts_example = retry-Counts 3 40 none stuck stuck-Counts
