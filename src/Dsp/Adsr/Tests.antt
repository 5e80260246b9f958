-- ===== src/Dsp/Adsr/Tests.antt =====
-- An envelope on numbers counted in millionths.
use tanh_lib.Base.{ℕ, ◌*◌, ◌≡◌, refl, true, false, arith}
use tanh_lib.Dsp.Float.{FloatOps}
use tanh_lib.Dsp.FixedPoint.{fixed_point}
use tanh_lib.Dsp.Adsr.{
  idle, attack, decay, Adsr, note_on, note_off, process, initial, update_rates, set_sustain,
  advance, process_attack, attack_increment, is_active,
}
use tanh_lib.Dsp.Adsr.States.{
  Bounds, IsValid, process_call, apply, apply-IsValid, run, run-note, is_held,
}
use tanh_lib.Dsp.Adsr.Transitions.{Follows, process-Follows}
use tanh_lib.Dsp.Adsr.Rates.{InSync, refreshes, apply-InSync, set_sustain-breaks}

abbrev unit_size : ℕ
unit_size = 1000000

abbrev millionths : FloatOps ℕ
millionths = fixed_point unit_size

-- An attack, a decay and a release of some samples at 1000 samples a second.
abbrev envelope : Adsr ℕ
envelope = record (initial millionths) {
  attack_time = 4 * unit_size;
  decay_time = 2 * unit_size;
  sustain_level = 500000;
  attack_rate = 250000;
  decay_rate = 250000;
  current_level = 0;
  state = idle;
  sample_rate = 1000 * unit_size;
}

millionths-Bounds : Bounds millionths
millionths-Bounds = record {
  zero_in_range = record { not_below = refl; not_above = refl };
  one_in_range = record { not_below = refl; not_above = refl };
}

envelope-IsValid : IsValid millionths envelope
envelope-IsValid = record {
  level_in_range = record { not_below = refl; not_above = refl };
  sustain_in_range = record { not_below = refl; not_above = refl };
  silent = λ e. refl;
}

at_peak : (run millionths 4 (note_on envelope)).state ≡ decay
unfolding run note_on process advance attack_increment is_active initial update_rates process_attack
at_peak = refl

apply-IsValid_example : IsValid millionths (apply millionths envelope process_call)
apply-IsValid_example =
    apply-IsValid millionths millionths-Bounds envelope process_call envelope-IsValid

run-note_example :
    (is_held (run millionths 9 (note_on envelope)).state ≡ true)
    × (is_held (run millionths 9 (note_off envelope)).state ≡ false)
run-note_example = run-note millionths 9 envelope

-- One sample before the peak.
abbrev rising : Adsr ℕ
rising = record envelope { state = attack; current_level = 740000 }

process-Follows_example :
    Follows millionths rising
      (process millionths rising).state
      (process millionths rising).current_level
process-Follows_example = process-Follows millionths rising

abbrev synced : Adsr ℕ
synced = update_rates millionths envelope

synced-InSync : InSync millionths synced
unfolding update_rates initial
synced-InSync = (refl, refl, refl)

apply-InSync_example : InSync millionths (apply millionths synced process_call)
unfolding refreshes
apply-InSync_example = apply-InSync millionths synced process_call refl synced-InSync

set_sustain-breaks_example : ¬ InSync millionths (set_sustain millionths envelope 900000)
unfolding initial update_rates
set_sustain-breaks_example = set_sustain-breaks millionths envelope 900000 refl (omega arith)
