-- ===== src/Dsp/Adsr/Rates.antt =====
-- The rates of the envelope, which follow from its parameters.
use tanh_lib.Base.{◌≡◌, ◌≢◌, refl, Bool, true, false, arith}
use tanh_lib.Dsp.Float.{FloatOps, clamp_float}
use tanh_lib.Dsp.Adsr.{
  Adsr, note_off, process, advance, set_sustain, update_rates, zero_level, one, samples, note_on,
  reset, set_parameters, set_all_parameters, set_curves, set_attack_curve, set_decay_curve,
  set_release_curve, set_attack, set_decay, set_release, set_sample_rate,
}
use tanh_lib.Dsp.Adsr.States.{
  Call, apply, process_call, note_on_call, note_off_call, reset_call, parameters_call,
  all_parameters_call, curves_call, attack_curve_call, decay_curve_call, release_curve_call,
  attack_call, decay_call, sustain_call, release_call, sample_rate_call,
}

-- The rates are those that `update_rates` computes.
abbrev pub InSync : {F : Type 0} → FloatOps F → Adsr F → Type 0
InSync ops a =
    ((update_rates ops a).attack_rate ≡ a.attack_rate)
    × ((update_rates ops a).decay_rate ≡ a.decay_rate)
    × ((update_rates ops a).release_rate ≡ a.release_rate)

-- The calls other than `set_sustain`.
unfoldable pub refreshes : {F : Type 0} → Call F → Bool
refreshes (sustain_call x) = false
refreshes _ = true

module _ {F : Type 0} (ops : FloatOps F) where
  advance-InSync : (a : Adsr F) → InSync ops a → InSync ops (advance ops a.state a)
  unfolding update_rates advance
  advance-InSync a h = ground arith

  note_off-InSync : (a : Adsr F) → InSync ops a → InSync ops (note_off a)
  unfolding update_rates note_off
  note_off-InSync a h = ground arith

  -- Every call but that of `set_sustain` keeps the rates in step with the parameters.
  pub apply-InSync :
      (a : Adsr F) (c : Call F) → refreshes c ≡ true → InSync ops a → InSync ops (apply ops a c)
  unfolding apply update_rates
  apply-InSync a process_call k h = unfold process in advance-InSync a h
  apply-InSync a note_on_call k h = unfold note_on in h
  apply-InSync a note_off_call k h = note_off-InSync a h
  apply-InSync a reset_call k h = unfold reset in h
  apply-InSync a (parameters_call w x y z) k h = unfold set_parameters in (refl, refl, refl)
  apply-InSync a (all_parameters_call w x y z p q r) k h =
      unfold set_all_parameters in (refl, refl, refl)
  apply-InSync a (curves_call p q r) k h = unfold set_curves in h
  apply-InSync a (attack_call x) k h = unfold set_attack in (refl, refl, refl)
  apply-InSync a (decay_call x) k h = unfold set_decay in (refl, refl, refl)
  apply-InSync a (sustain_call x) k h = unfold refreshes in cc
  apply-InSync a (release_call x) k h = unfold set_release in (refl, refl, refl)
  apply-InSync a (attack_curve_call x) k h = unfold set_attack_curve in h
  apply-InSync a (decay_curve_call x) k h = unfold set_decay_curve in h
  apply-InSync a (release_curve_call x) k h = unfold set_release_curve in h
  apply-InSync a (sample_rate_call x) k h = unfold set_sample_rate in (refl, refl, refl)

  -- `set_sustain` leaves the decay rate that belongs to the sustain level before it: if the rate for
  -- the new level is another, the rates are out of step with the parameters, however they were.
  pub set_sustain-breaks :
      (a : Adsr F) (level : F)
      → ops.lt (zero_level ops) a.decay_time ≡ true
      → ops.div
          (ops.sub (one ops) (clamp_float ops level (zero_level ops) (one ops)))
          (samples ops a a.decay_time)
        ≢ a.decay_rate
      → ¬ InSync ops (set_sustain ops a level)
  unfolding set_sustain update_rates
  set_sustain-breaks a level p ne h = ne (ground (arith, h.1))
