-- ===== src/Dsp/SmootherBank.antt =====
-- include/tanh/dsp/utils/LinearSmootherBank.h: linear ramps on many lanes.
pub mod Ramps
mod Tests
use tanh_lib.Base.{
  ℕ, zero, suc, ◌-◌, Bool, true, false, ◌==◌, if◌then◌else◌, ltb, List, [], ◌∷◌, Option, none, some,
  length, get_elem?, set, replicate, map,
}
use tanh_lib.Dsp.Float.{FloatOps}

-- Entry `lane` of `m_current`, `m_target`, `m_step` and `m_samples_remaining`.
pub record Lane (F : Type 0) : Type 0 where
  pub current : F
  pub target : F
  pub step : F
  pub samples_remaining : ℕ

pub record SmootherBank (F : Type 0) : Type 0 where
  pub lanes : List (Lane F)
  pub ramp_samples : ℕ

module _ {F : Type 0} (ops : FloatOps F) where
  abbrev pub snapped : F → Lane F
  snapped value = record {
    current = value;
    target = value;
    step = ops.decimal 0 0;
    samples_remaining = 0;
  }

  -- `start_ramp(lane, ramp_samples)`
  pub start_ramp : Lane F → ℕ → Lane F
  start_ramp l ramp_samples = if ramp_samples == 0 then snapped l.target else (record l {
    samples_remaining = ramp_samples;
    step = ops.div (ops.sub l.target l.current) (ops.from_size ramp_samples);
  })

  -- The overload of `set_target` with `ramp_samples`; the other takes `m_ramp_samples`.
  pub set_lane_target : Lane F → F → ℕ → Lane F
  unfolding start_ramp
  set_lane_target l value ramp_samples =
      if ops.eq value l.target then l else start_ramp (record l { target = value }) ramp_samples

  -- `next`: the value returned is the lane's `current`.
  pub next_lane : Lane F → Lane F
  next_lane l =
      if l.samples_remaining == 0
      then (record l { current = l.target })
      else (if l.samples_remaining - 1 == 0 then snapped l.target else (record l {
        current = ops.add l.current l.step;
        samples_remaining = l.samples_remaining - 1;
      }))

  -- An operation on entry `lane`; `none` is a failed assertion.
  at_lane : SmootherBank F → ℕ → (Lane F → Lane F) → Option (SmootherBank F)
  at_lane b lane f = elim (get_elem? b.lanes lane) [
    | none ↦ none
    | some l ↦ some (record b { lanes = set b.lanes lane (f l) })
  ]

  pub resize : SmootherBank F → ℕ → F → SmootherBank F
  resize b lane_count initial_value = record b {
    lanes = replicate lane_count (snapped initial_value);
  }

  restart : ℕ → List (Lane F) → List (Lane F)
  unfolding start_ramp
  restart ramp_samples [] = []
  restart ramp_samples (l ∷ ls) =
      (if ltb 0 l.samples_remaining then start_ramp l ramp_samples else l) ∷ restart ramp_samples ls

  pub set_ramp_samples : SmootherBank F → ℕ → SmootherBank F
  unfolding restart
  set_ramp_samples b ramp_samples = record b {
    ramp_samples = ramp_samples;
    lanes = restart ramp_samples b.lanes;
  }

  pub set_current_and_target : SmootherBank F → ℕ → F → Option (SmootherBank F)
  unfolding at_lane
  set_current_and_target b lane value = at_lane b lane (λ _. snapped value)

  pub set_target : SmootherBank F → ℕ → F → Option (SmootherBank F)
  unfolding at_lane set_lane_target
  set_target b lane value = at_lane b lane (λ l. set_lane_target l value b.ramp_samples)

  pub set_target_in : SmootherBank F → ℕ → F → ℕ → Option (SmootherBank F)
  unfolding at_lane set_lane_target
  set_target_in b lane value ramp_samples =
      at_lane b lane (λ l. set_lane_target l value ramp_samples)

  snap_all : List (Lane F) → List (Lane F)
  snap_all [] = []
  snap_all (l ∷ ls) = snapped l.target ∷ snap_all ls

  pub snap_to_targets : SmootherBank F → SmootherBank F
  unfolding snap_all
  snap_to_targets b = record b { lanes = snap_all b.lanes }

  pub next : SmootherBank F → ℕ → Option (SmootherBank F)
  unfolding at_lane next_lane
  next b lane = at_lane b lane next_lane

  next_first : ℕ → List (Lane F) → List (Lane F)
  unfolding next_lane
  next_first zero ls = ls
  next_first (suc n) [] = []
  next_first (suc n) (l ∷ ls) = next_lane l ∷ next_first n ls

  -- `next_all`: the values written are `current` of the first `output_count` lanes. `none` is a
  -- failed assertion.
  pub next_all : SmootherBank F → ℕ → Option (SmootherBank F)
  unfolding next_first
  next_all b output_count =
      if ltb (length b.lanes) output_count
      then none
      else some (record b { lanes = next_first output_count b.lanes })
