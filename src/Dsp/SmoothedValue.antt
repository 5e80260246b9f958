-- ===== src/Dsp/SmoothedValue.antt =====
-- src/dsp/utils/SmoothedValue.cpp: one linear ramp, read in blocks.
pub mod Blocks
mod Tests
use tanh_lib.Base.{ℕ, ◌-◌, Bool, true, false, ◌==◌, ◌||◌, if◌then◌else◌, Option, none, some, min}
use tanh_lib.Dsp.Float.{FloatOps}

-- `m_sample_rate` is written by `reset` alone and never read; `m_smoothing_type` is always `Linear`.
pub record SmoothedValue (F : Type 0) : Type 0 where
  pub current_value : F
  pub target_value : F
  pub step : F
  pub time_in_samples : ℕ
  pub samples_remaining : ℕ

module _ {F : Type 0} (ops : FloatOps F) where
  pub recalc_step : SmoothedValue F → SmoothedValue F
  recalc_step v =
      if (v.time_in_samples == 0) || (v.samples_remaining == 0)
      then (record v { step = ops.decimal 0 0 })
      else (record v {
        step = ops.div (ops.sub v.target_value v.current_value) (ops.from_size v.samples_remaining);
      })

  -- The object that the constructor makes.
  pub initial : SmoothedValue F
  initial = record {
    current_value = ops.decimal 0 0;
    target_value = ops.decimal 0 0;
    step = ops.decimal 0 0;
    time_in_samples = 0;
    samples_remaining = 0;
  }

  -- `reset`, whose assertions hold. `samples` is `static_cast<size_t>(time_in_seconds * sample_rate)`.
  pub reset : SmoothedValue F → ℕ → SmoothedValue F
  unfolding recalc_step
  reset v samples = recalc_step (record v {
    time_in_samples = if samples == 0 then 1 else samples;
    samples_remaining = 0;
    step = ops.decimal 0 0;
  })

  pub set_target_value : SmoothedValue F → F → SmoothedValue F
  unfolding recalc_step
  set_target_value v target_value =
      if ops.eq target_value v.target_value
      then v
      else recalc_step
          (record v { target_value = target_value; samples_remaining = v.time_in_samples })

  pub set_current_and_target_value : SmoothedValue F → F → SmoothedValue F
  set_current_and_target_value v target_value = record v {
    current_value = target_value;
    target_value = target_value;
    step = ops.decimal 0 0;
    samples_remaining = 0;
  }

  -- The part of `get_smoothed_value` that moves along the ramp.
  pub apply_steps : SmoothedValue F → ℕ → SmoothedValue F
  apply_steps v steps_to_apply = record v {
    current_value =
        if v.samples_remaining - steps_to_apply == 0
        then v.target_value
        else ops.add v.current_value (ops.mul v.step (ops.from_size steps_to_apply));
    samples_remaining = v.samples_remaining - steps_to_apply;
  }

  -- `get_smoothed_value`: the value returned is the `current_value` of the result.
  pub get_smoothed_value : SmoothedValue F → ℕ → SmoothedValue F
  unfolding apply_steps
  get_smoothed_value v num_samples =
      if num_samples == 0
      then v
      else (if v.samples_remaining == 0
          then (record v { current_value = v.target_value })
          else apply_steps v (min num_samples v.samples_remaining))
