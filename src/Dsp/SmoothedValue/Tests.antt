-- ===== src/Dsp/SmoothedValue/Tests.antt =====
-- A ramp of six samples, on numbers counted in thousandths.
use tanh_lib.Base.{ℕ, ◌≡◌, refl, [], ◌∷◌, arith}
use tanh_lib.Dsp.Float.{FloatOps}
use tanh_lib.Dsp.FixedPoint.{fixed_point}
use tanh_lib.Dsp.SmoothedValue.{SmoothedValue, initial, reset, set_target_value, get_smoothed_value}
use tanh_lib.Dsp.SmoothedValue.Blocks.{read_blocks, read_blocks-arrives}

abbrev thousandths : FloatOps ℕ
thousandths = fixed_point 1000

abbrev ramp : SmoothedValue ℕ
ramp = record {
  current_value = 0;
  target_value = 900;
  step = 150;
  time_in_samples = 6;
  samples_remaining = 6;
}

ramp-set : set_target_value thousandths (reset thousandths (initial thousandths) 6) 900 ≡ ramp
unfolding set_target_value reset initial
ramp-set = refl

two_blocks : (read_blocks thousandths ramp (2 ∷ 2 ∷ [])).current_value ≡ 600
unfolding read_blocks get_smoothed_value
two_blocks = refl

read_blocks-arrives_example : (read_blocks thousandths ramp (2 ∷ 2 ∷ 5 ∷ [])).current_value ≡ 900
read_blocks-arrives_example =
    read_blocks-arrives thousandths ramp (2 ∷ 2 ∷ 5 ∷ []) (omega arith) (omega arith)
