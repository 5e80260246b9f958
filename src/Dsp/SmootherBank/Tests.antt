-- ===== src/Dsp/SmootherBank/Tests.antt =====
-- A bank of two lanes on numbers counted in thousandths.
use tanh_lib.Base.{ℕ, ◌≡◌, refl, [], ◌∷◌, arith}
use tanh_lib.Dsp.Float.{FloatOps}
use tanh_lib.Dsp.FixedPoint.{fixed_point}
use tanh_lib.Dsp.SmootherBank.{SmootherBank, set_lane_target, next_lane, snapped}
use tanh_lib.Dsp.SmootherBank.Ramps.{run, run-set_lane_target}

abbrev thousandths : FloatOps ℕ
thousandths = fixed_point 1000

abbrev bank : SmootherBank ℕ
bank = record { lanes = snapped thousandths 0 ∷ snapped thousandths 500 ∷ []; ramp_samples = 4 }

half_way :
    (run thousandths 2 (set_lane_target thousandths (snapped thousandths 0) 800 4)).current ≡ 400
unfolding run set_lane_target next_lane
half_way = refl

run-set_lane_target_example :
    run thousandths 5 (set_lane_target thousandths (snapped thousandths 0) 800 4)
    ≡ snapped thousandths 800
run-set_lane_target_example =
    run-set_lane_target thousandths (snapped thousandths 0) 800 4 5 refl (omega arith)
