-- ===== src/Dsp/Adsr.antt =====
-- src/dsp/utils/ADSR.cpp: the envelope generator, over any arithmetic on its numbers.
pub mod States
pub mod Transitions
pub mod Rates
mod Tests
use tanh_lib.Base.{Bool, true, false, not, ◌&&◌, if◌then◌else◌}
use tanh_lib.Dsp.Float.{FloatOps, max_float, clamp_float}

-- `ADSR::State`
pub data State : Type 0 where
  idle attack decay sustain release : State

pub record Adsr (F : Type 0) : Type 0 where
  pub attack_time : F
  pub decay_time : F
  pub sustain_level : F
  pub release_time : F
  pub attack_curve : F
  pub decay_curve : F
  pub release_curve : F
  pub state : State
  pub current_level : F
  pub attack_rate : F
  pub decay_rate : F
  pub release_rate : F
  pub release_level : F
  pub sample_rate : F

pub is_active : {F : Type 0} → Adsr F → Bool
is_active a = elim a.state [
  | idle ↦ false
  | attack ↦ true
  | decay ↦ true
  | sustain ↦ true
  | release ↦ true
]

pub note_on : {F : Type 0} → Adsr F → Adsr F
note_on a = record a { state = attack }

pub note_off : {F : Type 0} → Adsr F → Adsr F
unfolding is_active
note_off a =
    if is_active a then (record a { state = release; release_level = a.current_level }) else a

module _ {F : Type 0} (ops : FloatOps F) where
  abbrev pub zero_level : F
  zero_level = ops.decimal 0 0

  abbrev pub one : F
  one = ops.decimal 1 0

  -- The samples that `time` milliseconds take.
  abbrev pub samples : Adsr F → F → F
  samples a time = ops.mul (ops.div time (ops.decimal 1000 0)) a.sample_rate

  pub update_rates : Adsr F → Adsr F
  update_rates a = record a {
    attack_rate =
        if ops.lt zero_level a.attack_time then ops.div one (samples a a.attack_time) else one;
    decay_rate =
        if ops.lt zero_level a.decay_time
        then ops.div (ops.sub one a.sustain_level) (samples a a.decay_time)
        else one;
    release_rate =
        if ops.lt zero_level a.release_time then ops.div one (samples a a.release_time) else one;
  }

  abbrev pub at_least_tenth : F → F
  at_least_tenth x = max_float ops (ops.decimal 1 1) x

  abbrev pub clamp_level : F → F
  clamp_level x = clamp_float ops x zero_level one

  abbrev pub clamp_curve : F → F
  clamp_curve x = clamp_float ops x (ops.neg one) one

  -- The overload with four parameters.
  pub set_parameters : Adsr F → F → F → F → F → Adsr F
  unfolding update_rates
  set_parameters a attack_time decay_time sustain_level release_time = update_rates (record a {
    attack_time = at_least_tenth attack_time;
    decay_time = at_least_tenth decay_time;
    sustain_level = clamp_level sustain_level;
    release_time = at_least_tenth release_time;
  })

  pub set_curves : Adsr F → F → F → F → Adsr F
  set_curves a attack_curve decay_curve release_curve = record a {
    attack_curve = clamp_curve attack_curve;
    decay_curve = clamp_curve decay_curve;
    release_curve = clamp_curve release_curve;
  }

  pub set_attack_curve : Adsr F → F → Adsr F
  set_attack_curve a curve_blend = record a { attack_curve = clamp_curve curve_blend }

  pub set_decay_curve : Adsr F → F → Adsr F
  set_decay_curve a curve_blend = record a { decay_curve = clamp_curve curve_blend }

  pub set_release_curve : Adsr F → F → Adsr F
  set_release_curve a curve_blend = record a { release_curve = clamp_curve curve_blend }

  -- The overload with seven parameters.
  pub set_all_parameters : Adsr F → F → F → F → F → F → F → F → Adsr F
  unfolding update_rates
  set_all_parameters a attack_time decay_time sustain_level release_time attack_curve decay_curve
        release_curve =
      update_rates (record a {
        attack_time = at_least_tenth attack_time;
        decay_time = at_least_tenth decay_time;
        sustain_level = clamp_level sustain_level;
        release_time = at_least_tenth release_time;
        attack_curve = clamp_curve attack_curve;
        decay_curve = clamp_curve decay_curve;
        release_curve = clamp_curve release_curve;
      })

  pub set_attack : Adsr F → F → Adsr F
  unfolding update_rates
  set_attack a time_ms = update_rates (record a { attack_time = at_least_tenth time_ms })

  pub set_decay : Adsr F → F → Adsr F
  unfolding update_rates
  set_decay a time_ms = update_rates (record a { decay_time = at_least_tenth time_ms })

  pub set_sustain : Adsr F → F → Adsr F
  set_sustain a level = record a { sustain_level = clamp_level level }

  pub set_release : Adsr F → F → Adsr F
  unfolding update_rates
  set_release a time_ms = update_rates (record a { release_time = at_least_tenth time_ms })

  pub set_sample_rate : Adsr F → F → Adsr F
  unfolding update_rates
  set_sample_rate a sample_rate =
      update_rates (record a { sample_rate = max_float ops one sample_rate })

  -- The object that the constructor makes.
  pub initial : Adsr F
  unfolding update_rates
  initial = update_rates (record {
    attack_time = ops.decimal 10 0;
    decay_time = ops.decimal 100 0;
    sustain_level = ops.decimal 7 1;
    release_time = ops.decimal 500 0;
    attack_curve = zero_level;
    decay_curve = zero_level;
    release_curve = zero_level;
    state = idle;
    current_level = zero_level;
    attack_rate = zero_level;
    decay_rate = zero_level;
    release_rate = zero_level;
    release_level = zero_level;
    sample_rate = ops.decimal 44100 0;
  })

  pub reset : Adsr F → Adsr F
  reset a = record a { state = idle; current_level = zero_level }

  -- `(1.0f - std::exp(-(rate * 5.0f))) / exponential_normalization`
  abbrev pub exponential : F → F
  exponential rate =
      ops.div (ops.sub one (ops.exp (ops.neg (ops.mul rate (ops.decimal 5 0)))))
        (ops.sub one (ops.exp (ops.neg (ops.decimal 5 0))))

  -- `(1.0f - abs_curve) * linear + abs_curve * factor * weight`
  abbrev pub blend : F → F → F → F → F
  blend curve linear factor weight =
      ops.add (ops.mul (ops.sub one (ops.abs curve)) linear)
        (ops.mul (ops.mul (ops.abs curve) factor) weight)

  abbrev pub is_curved : F → Bool
  is_curved curve = ops.lt (ops.decimal 1 2) (ops.abs curve)

  -- `range * (1.0f - distance / range + 0.01f)`
  abbrev pub progress : F → F → F
  progress range distance =
      ops.mul range (ops.add (ops.sub one (ops.div distance range)) (ops.decimal 1 2))

  pub attack_increment : Adsr F → F
  attack_increment a =
      if is_curved a.attack_curve
      then blend a.attack_curve a.attack_rate (exponential a.attack_rate) (
          if ops.lt zero_level a.attack_curve
          then ops.sub one a.current_level
          else ops.add a.current_level (ops.decimal 1 2))
      else a.attack_rate

  pub decay_decrement : Adsr F → F
  decay_decrement a =
      if is_curved a.decay_curve
      then blend a.decay_curve a.decay_rate (exponential a.decay_rate) (
          let distance = ops.sub a.current_level a.sustain_level in
          let total_range = max_float ops (ops.sub one a.sustain_level) (ops.decimal 1 3) in
          if ops.lt zero_level a.decay_curve then distance else progress total_range distance)
      else a.decay_rate

  pub release_decrement : Adsr F → F
  release_decrement a =
      if is_curved a.release_curve
      then blend a.release_curve a.release_rate (exponential a.release_rate) (
          let safe_release_level = max_float ops a.release_level (ops.decimal 1 3) in
          if ops.lt zero_level a.release_curve
          then a.current_level
          else progress safe_release_level a.current_level)
      else a.release_rate

  pub process_attack : Adsr F → Adsr F
  process_attack a =
      let level = ops.add a.current_level (attack_increment a) in
      if ops.le (ops.sub one (ops.decimal 1 2)) level
      then (record a { current_level = one; state = decay })
      else (record a { current_level = level })

  pub process_decay : Adsr F → Adsr F
  process_decay a =
      let level = ops.sub a.current_level (decay_decrement a) in
      if ops.le level (ops.add a.sustain_level (ops.decimal 1 2))
      then (record a { current_level = a.sustain_level; state = sustain })
      else (record a { current_level = level })

  pub process_release : Adsr F → Adsr F
  process_release a =
      let level = ops.sub a.current_level (release_decrement a) in
      if ops.le level (ops.decimal 1 7)
      then (record a { current_level = zero_level; state = idle })
      else (record a { current_level = level })

  -- The `switch` of `process`.
  pub advance : State → Adsr F → Adsr F
  unfolding process_attack process_decay process_release
  advance idle a = a
  advance attack a = process_attack a
  advance decay a = process_decay a
  advance sustain a = record a { current_level = a.sustain_level }
  advance release a = process_release a

  -- `process`: the object after the sample. The value returned is its `current_level`.
  pub process : Adsr F → Adsr F
  process a =
      let a' = advance a.state a in record a' { current_level = clamp_level a'.current_level }
