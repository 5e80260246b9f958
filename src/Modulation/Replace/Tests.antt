-- ===== src/Modulation/Replace/Tests.antt =====
-- A held routing and a live one that contend for a sample, and the same write on one of two voices.
use tanh_lib.Base.{ℕ, ◌≡◌, refl, true, false, [], ◌∷◌, Option, arith}
use tanh_lib.Modulation.Replace.{replace, replace_hold, Slot, apply_replace_sample}
use tanh_lib.Modulation.Replace.Offers.{Offer, IsBest}
use tanh_lib.Modulation.Replace.Winner.{Input, offers, written, apply_all, apply_all-IsBest}
use tanh_lib.Modulation.Replace.Voices.{
  PolyRouting, IsSized, voice_of, apply_replace_sample_voice, voice_mono,
}

abbrev held : Input ℕ
held = record {
  routing = record {
    combine_mode = replace_hold;
    replace_priority = 2;
    replace_hold_priority = 1;
    held_value = 70;
    held_mono_active = true;
    active_phase_start = 4;
    last_active_sample = 90;
    was_active_prev = false;
  };
  value = 5;
  is_live = false;
}

abbrev live : Input ℕ
live = record {
  routing = record {
    combine_mode = replace;
    replace_priority = 1;
    replace_hold_priority = 1;
    held_value = 0;
    held_mono_active = false;
    active_phase_start = 0;
    last_active_sample = 0;
    was_active_prev = false;
  };
  value = 33;
  is_live = true;
}

abbrev cleared : Slot ℕ
cleared = record { sample = 0; active = false; priority = 0; freshness = 0 }

apply_all-IsBest_example :
    (b : Option (Offer ℕ)) × IsBest b (offers 100 (live ∷ held ∷ []))
    × (apply_all cleared 100 (live ∷ held ∷ []) ≡ written cleared b)
apply_all-IsBest_example = apply_all-IsBest cleared 100 (live ∷ held ∷ []) refl refl

abbrev two_voices : PolyRouting ℕ
two_voices = record {
  combine_mode = replace_hold;
  replace_priority = 2;
  replace_hold_priority = 1;
  held_voice_values = 10 ∷ 20 ∷ [];
  held_voice_active = true ∷ false ∷ [];
  voice_active_phase_start = 4 ∷ 0 ∷ [];
  voice_last_active_sample = 90 ∷ 0 ∷ [];
  voice_was_active_prev = true ∷ false ∷ [];
}

two_voices-IsSized : IsSized true two_voices
two_voices-IsSized = record { active_sized = refl; tracked = (refl, refl, refl) }

voice_mono_example :
    (
      voice_of 0 (apply_replace_sample_voice 0 true two_voices cleared 64 3 33 true 1).0 1,
      (apply_replace_sample_voice 0 true two_voices cleared 64 3 33 true 1).1,
    )
    ≡ apply_replace_sample true (voice_of 0 two_voices 1) cleared 64 3 33 true
voice_mono_example =
    voice_mono 0 two_voices cleared 64 3 33 true 1 (omega arith) true two_voices-IsSized
