-- ===== src/Modulation/Routings/Updates/Tests.antt =====
-- Two routings, of which one is published.
use tanh_lib.Base.{ℕ, refl, true, false, [], ◌∷◌, none}
use tanh_lib.Dsp.FixedPoint.{fixed_point}
use tanh_lib.Modulation.Routings.{find}
use tanh_lib.Modulation.Routings.Updates.{
  Modes, absolute_depth, compute_depth_precomputed, TargetRange, Published,
}
use tanh_lib.Modulation.Routings.Updates.Step.{InStep, depth_update, run_update, run_update-InStep}

abbrev modes : ℕ → Modes
modes id = record { depth_mode = absolute_depth; is_replace = false }

abbrev target : ℕ → TargetRange ℕ
target id = record { range = none; uses_normalized_buffer = false }

abbrev published : Published ℕ
published = record {
  table = record {
    sources = λ _. true;
    targets = λ _. true;
    user_routings =
        record {
          id = 1;
          source_id = 0;
          target_id = 5;
          depth = 2;
          replace_range_min = 0;
          replace_range_max = 1;
          has_replace_range = false;
        }
        ∷ record {
          id = 2;
          source_id = 0;
          target_id = 6;
          depth = 3;
          replace_range_min = 0;
          replace_range_max = 1;
          has_replace_range = false;
        }
        ∷ [];
    next_routing_id = 3;
  };
  live =
      record {
        id = 2;
        depth = 3;
        depth_abs_precomputed = 3;
        replace_range_min = 0;
        replace_range_max = 1;
        has_replace_range = false;
      }
      ∷ [];
}

published-InStep : InStep (fixed_point 8) modes target published
unfolding find compute_depth_precomputed
published-InStep = record {
  once = (refl, tt);
  mirrored = (
    (
      record {
        id = 2;
        source_id = 0;
        target_id = 6;
        depth = 3;
        replace_range_min = 0;
        replace_range_max = 1;
        has_replace_range = false;
      },
      refl,
      record {
        depth_eq = refl;
        min_eq = refl;
        max_eq = refl;
        has_eq = refl;
        precomputed_eq = refl;
      },
    ),
    tt,
  );
  ids_distinct = (refl, (refl, tt));
  targets_known = (refl, (refl, tt));
}

run_update-InStep_example :
    InStep
      (fixed_point 8)
      modes
      target
      (run_update (fixed_point 8) modes target published (depth_update 2 7))
run_update-InStep_example =
    run_update-InStep (fixed_point 8) modes target published-InStep (depth_update 2 7)
