-- ===== src/Modulation/Rebuild/Retired.antt =====
-- Pass 1b: a buffer that a target has owned is kept or retired, since a block may still use it.
use tanh_lib.Base.{◌≡◌, ◌⊎◌, inl, inr, refl, List, [], ◌∷◌, ◌++◌, Option, none, some, Bool-cases}
use tanh_lib.Modulation.Rebuild.{
  Matrix, Addresses, Target, TargetInfo, VoiceBuffers, MonoBuffers, wanted_voice, wanted_mono,
  info_or_new, replace_voice, replace_mono, allocate, matches_voice, matches_mono,
}

-- An owned buffer, if there is one, is still owned with nothing retired, or is the last one retired.
abbrev pub KeptOrRetired : {A : Type 0} → Option A → List A → Option A → List A → Type 0
KeptOrRetired none retired owner' retired' = retired' ≡ retired
KeptOrRetired (some g) retired owner' retired' =
    ((owner' ≡ some g) × (retired' ≡ retired)) ⊎ (retired' ≡ retired ++ (g ∷ []))

replace_voice-KeptOrRetired :
    (w g : Option VoiceBuffers) (l : List VoiceBuffers)
    → KeptOrRetired g l (replace_voice w g l).0 (replace_voice w g l).1
unfolding replace_voice
replace_voice-KeptOrRetired (some w) (some g) l = elim (Bool-cases (matches_voice g w)) [
  | inl e ↦ rw e (inl (refl, refl))
  | inr e ↦ rw e (inr refl)
]
replace_voice-KeptOrRetired (some w) none l = refl
replace_voice-KeptOrRetired none (some g) l = inr refl
replace_voice-KeptOrRetired none none l = refl

replace_mono-KeptOrRetired :
    (w g : Option MonoBuffers) (l : List MonoBuffers)
    → KeptOrRetired g l (replace_mono w g l).0 (replace_mono w g l).1
unfolding replace_mono
replace_mono-KeptOrRetired (some w) (some g) l = elim (Bool-cases (matches_mono g w)) [
  | inl e ↦ rw e (inl (refl, refl))
  | inr e ↦ rw e (inr refl)
]
replace_mono-KeptOrRetired (some w) none l = refl
replace_mono-KeptOrRetired none (some g) l = inr refl
replace_mono-KeptOrRetired none none l = refl

-- Whatever was collected for a target and wherever new buffers lie, after pass 1b the target owns
-- the voice buffers of before, at their address, and nothing is retired, or they are retired; and the
-- same of its mono buffers.
pub allocate-KeptOrRetired :
    (m : Matrix) (fresh : Addresses) (info : Option TargetInfo) (t : Target)
    → KeptOrRetired t.voice_owner t.voice_retired
        (allocate m fresh info t).voice_owner
        (allocate m fresh info t).voice_retired
      × KeptOrRetired t.mono_owner t.mono_retired
          (allocate m fresh info t).mono_owner
          (allocate m fresh info t).mono_retired
unfolding allocate
allocate-KeptOrRetired m fresh info t = (
  replace_voice-KeptOrRetired (wanted_voice m fresh.voice (info_or_new info) t.scope) t.voice_owner
      t.voice_retired,
  replace_mono-KeptOrRetired (wanted_mono m fresh.mono (info_or_new info)) t.mono_owner
      t.mono_retired,
)
