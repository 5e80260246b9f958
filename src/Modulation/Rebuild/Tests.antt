-- ===== src/Modulation/Rebuild/Tests.antt =====
-- A global source and a source of a scope with four voices, on a target of that scope.
use tanh_lib.Base.{◌≡◌, refl, true, false, ◌==◌, if◌then◌else◌, [], ◌∷◌, none, some}
use tanh_lib.Modulation.Replace.{additive, replace, replace_hold}
use tanh_lib.Modulation.Rebuild.{
  ModulationRouting, Matrix, Target, VoiceBuffers, rebuild, pass_one, info_or_new, allocate,
  scoped_to_scoped, global_to_scoped, collect_one,
}
use tanh_lib.Modulation.Rebuild.Sound.{All, HasBuffers, rebuild-HasBuffers}
use tanh_lib.Modulation.Rebuild.Counted.{count_replace, pass_one-counts}
use tanh_lib.Modulation.Rebuild.Retired.{KeptOrRetired, allocate-KeptOrRetired}

abbrev old_voices : VoiceBuffers
old_voices = record {
  address = 100;
  num_voices = 2;
  block_size = 64;
  has_additive = true;
  has_replace = false;
  has_replace_priority = false;
}

abbrev pitch : Target
pitch = record {
  scope = 1;
  voice_owner = some old_voices;
  mono_owner = none;
  voice_retired = [];
  mono_retired = [];
}

abbrev gain : Target
gain = record {
  scope = 0;
  voice_owner = none;
  mono_owner = none;
  voice_retired = [];
  mono_retired = [];
}

abbrev lfo_to_pitch : ModulationRouting
lfo_to_pitch = record {
  id = 1;
  source_id = 0;
  target_id = 10;
  combine_mode = replace;
  replace_priority = 3;
  replace_hold_priority = none;
}

abbrev touch_to_pitch : ModulationRouting
touch_to_pitch = record {
  id = 2;
  source_id = 1;
  target_id = 10;
  combine_mode = replace_hold;
  replace_priority = 3;
  replace_hold_priority = some 1;
}

abbrev touch_to_gain : ModulationRouting
touch_to_gain = record {
  id = 3;
  source_id = 1;
  target_id = 11;
  combine_mode = additive;
  replace_priority = 0;
  replace_hold_priority = none;
}

abbrev matrix : Matrix
matrix = record {
  sources = λ i. if i == 0 then some 0 else if i == 1 then some 1 else none;
  targets = λ i. if i == 10 then some pitch else if i == 11 then some gain else none;
  user_routings = lfo_to_pitch ∷ touch_to_pitch ∷ touch_to_gain ∷ [];
  voice_count = λ s. if s == 0 then 1 else 4;
  samples_per_block = 64;
  addresses = λ id. record { voice = 200; mono = 300 };
}

-- The routing into the global target is rejected.
resolved :
    (rebuild matrix).1
    ≡ record {
      id = 1;
      source_id = 0;
      target_id = 10;
      combine_mode = replace;
      routing_mode = global_to_scoped;
      replace_priority = 3;
      replace_hold_priority = 3;
      num_held = 4;
      num_tracked = 4;
    }
      ∷ record {
        id = 2;
        source_id = 1;
        target_id = 10;
        combine_mode = replace_hold;
        routing_mode = scoped_to_scoped;
        replace_priority = 3;
        replace_hold_priority = 1;
        num_held = 4;
        num_tracked = 4;
      }
      ∷ []
unfolding rebuild collect_one
resolved = refl

rebuild-HasBuffers_example : All (HasBuffers (rebuild matrix).0) (rebuild matrix).1
rebuild-HasBuffers_example = rebuild-HasBuffers matrix

pass_one-counts_example :
    (info_or_new ((pass_one matrix).target_info 10)).replace_count
    ≡ count_replace matrix 10 matrix.user_routings
pass_one-counts_example = pass_one-counts matrix 10

allocate-KeptOrRetired_example :
    KeptOrRetired
      (some old_voices)
      []
      (allocate matrix (matrix.addresses 10) none pitch).voice_owner
      (allocate matrix (matrix.addresses 10) none pitch).voice_retired
    × KeptOrRetired none []
        (allocate matrix (matrix.addresses 10) none pitch).mono_owner
        (allocate matrix (matrix.addresses 10) none pitch).mono_retired
allocate-KeptOrRetired_example = allocate-KeptOrRetired matrix (matrix.addresses 10) none pitch
