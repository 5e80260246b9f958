-- ===== src/Dsp/Adsr/States.antt =====
-- The state machine of the envelope: which state follows which, and what a state says of the level.
use tanh_lib.Base.{
  ℕ, zero, suc, ◌≡◌, ◌⊎◌, inl, inr, refl, Bool-cases, subst, sym, ap, ◌∙◌, Bool, true, false, arith,
}
use tanh_lib.Dsp.Float.{FloatOps, clamp_float}
use tanh_lib.Dsp.Adsr.{
  State, idle, attack, decay, sustain, release, Adsr, is_active, note_on, note_off, reset, process,
  advance, zero_level, one, set_parameters, set_all_parameters, set_curves, set_attack_curve,
  set_decay_curve, set_release_curve, set_attack, set_decay, set_sustain, set_release,
  set_sample_rate,
}

-- The state after a sample.
pub data Precedes : State → State → Type 0 where
  stays : {s : State} → Precedes s s
  peaks : Precedes attack decay
  settles : Precedes decay sustain
  ends : Precedes release idle

-- `m_level` is neither below 0 nor above 1.
pub record InRange {F : Type 0} (ops : FloatOps F) (level : F) : Type 0 where
  pub not_below : ops.lt level (zero_level ops) ≡ false
  pub not_above : ops.lt (one ops) level ≡ false

-- What is assumed of `<`: neither bound is out of the range.
pub record Bounds {F : Type 0} (ops : FloatOps F) : Type 0 where
  pub zero_in_range : InRange ops (zero_level ops)
  pub one_in_range : InRange ops (one ops)

pub record IsValid {F : Type 0} (ops : FloatOps F) (a : Adsr F) : Type 0 where
  pub level_in_range : InRange ops a.current_level
  pub sustain_in_range : InRange ops a.sustain_level
  pub silent : a.state ≡ idle → a.current_level ≡ zero_level ops

-- A call of the object.
pub data Call (F : Type 0) : Type 0 where
  process_call note_on_call note_off_call reset_call : Call F
  parameters_call : F → F → F → F → Call F
  all_parameters_call : F → F → F → F → F → F → F → Call F
  curves_call : F → F → F → Call F
  attack_call decay_call sustain_call release_call sample_rate_call : F → Call F
  attack_curve_call decay_curve_call release_curve_call : F → Call F

unfoldable pub apply : {F : Type 0} → FloatOps F → Adsr F → Call F → Adsr F
apply ops a process_call = process ops a
apply ops a note_on_call = note_on a
apply ops a note_off_call = note_off a
apply ops a reset_call = reset ops a
apply ops a (parameters_call w x y z) = set_parameters ops a w x y z
apply ops a (all_parameters_call w x y z p q r) = set_all_parameters ops a w x y z p q r
apply ops a (curves_call p q r) = set_curves ops a p q r
apply ops a (attack_call x) = set_attack ops a x
apply ops a (decay_call x) = set_decay ops a x
apply ops a (sustain_call x) = set_sustain ops a x
apply ops a (release_call x) = set_release ops a x
apply ops a (sample_rate_call x) = set_sample_rate ops a x
apply ops a (attack_curve_call x) = set_attack_curve ops a x
apply ops a (decay_curve_call x) = set_decay_curve ops a x
apply ops a (release_curve_call x) = set_release_curve ops a x

-- `n` samples with no other call.
unfoldable pub run : {F : Type 0} → FloatOps F → ℕ → Adsr F → Adsr F
run ops zero a = a
run ops (suc n) a = run ops n (process ops a)

-- Two ways for a state to follow.
Precedes-either :
    {s t u : State} → Precedes s t → Precedes s u → (v : State) → (v ≡ t) ⊎ (v ≡ u) → Precedes s v
Precedes-either {s} f g v (inl e) = subst (Precedes s) (sym e) f
Precedes-either {s} f g v (inr e) = subst (Precedes s) (sym e) g

advance-Precedes :
    {F : Type 0} (ops : FloatOps F) (s : State) (a : Adsr F)
    → a.state ≡ s
    → Precedes s (advance ops s a).state
unfolding advance
advance-Precedes ops idle a e = subst (Precedes idle) (sym e) stays
advance-Precedes ops sustain a e = subst (Precedes sustain) (sym e) stays
advance-Precedes ops attack a e = Precedes-either stays peaks _ (ground arith)
advance-Precedes ops decay a e = Precedes-either stays settles _ (ground arith)
advance-Precedes ops release a e = Precedes-either stays ends _ (ground arith)

-- A sample keeps the state, or moves from attack to decay, from decay to sustain, or from release
-- to idle.
process-Precedes :
    {F : Type 0} (ops : FloatOps F) (a : Adsr F) → Precedes a.state (process ops a).state
unfolding process
process-Precedes ops a = advance-Precedes ops a.state a refl

-- The note is on: the states that lead to sustain, and sustain.
pub is_held : State → Bool
is_held idle = false
is_held attack = true
is_held decay = true
is_held sustain = true
is_held release = false

Precedes-is_held : {s t : State} → Precedes s t → is_held t ≡ is_held s
unfolding is_held
Precedes-is_held stays = refl
Precedes-is_held peaks = refl
Precedes-is_held settles = refl
Precedes-is_held ends = refl

run-is_held :
    {F : Type 0} (ops : FloatOps F) (n : ℕ) (a : Adsr F)
    → is_held (run ops n a).state ≡ is_held a.state
unfolding run
run-is_held ops zero a = refl
run-is_held ops (suc n) a =
    run-is_held ops n (process ops a) ∙ Precedes-is_held (process-Precedes ops a)

note_off-is_held : {F : Type 0} (a : Adsr F) → is_held (note_off a).state ≡ false
unfolding note_off is_held
note_off-is_held a = ground arith

-- With no call but `process`, after any number of samples a note that was switched on is in attack,
-- decay or sustain, and one that was switched off is in release or idle.
pub run-note :
    {F : Type 0} (ops : FloatOps F) (n : ℕ) (a : Adsr F)
    → (is_held (run ops n (note_on a)).state ≡ true)
      × (is_held (run ops n (note_off a)).state ≡ false)
run-note ops n a = (
  run-is_held ops n (note_on a) ∙ unfold note_on is_held in refl,
  run-is_held ops n (note_off a) ∙ note_off-is_held a,
)

module _ {F : Type 0} (ops : FloatOps F) (b : Bounds ops) where
  clamp-InRange : (x : F) → InRange ops (clamp_float ops x (zero_level ops) (one ops))
  clamp-InRange x = record {
    not_below = ground (arith, b.zero_in_range.not_below, b.one_in_range.not_below);
    not_above = ground (arith, b.zero_in_range.not_above, b.one_in_range.not_above);
  }

  clamp-zero : clamp_float ops (zero_level ops) (zero_level ops) (one ops) ≡ zero_level ops
  clamp-zero = ground (arith, b.zero_in_range.not_below, b.zero_in_range.not_above)

  clamp-fixed : (x : F) → InRange ops x → clamp_float ops x (zero_level ops) (one ops) ≡ x
  clamp-fixed x h = ground (arith, h.not_below, h.not_above)

  advance-silent :
      (s : State) (a : Adsr F)
      → a.state ≡ s
      → IsValid ops a
      → (advance ops s a).state ≡ idle
      → (advance ops s a).current_level ≡ zero_level ops
  unfolding advance
  advance-silent idle a e h k = h.silent k
  advance-silent sustain a e h k = ground arith
  advance-silent attack a e h k = ground arith
  advance-silent decay a e h k = ground arith
  advance-silent release a e h k = ground arith

  advance-sustain_level :
      (s : State) (a : Adsr F) → (advance ops s a).sustain_level ≡ a.sustain_level
  unfolding advance
  advance-sustain_level idle a = refl
  advance-sustain_level sustain a = refl
  advance-sustain_level attack a = ground arith
  advance-sustain_level decay a = ground arith
  advance-sustain_level release a = ground arith

  -- Every call keeps the envelope valid: its level and its sustain level are in the range from 0 to
  -- 1, and in the idle state its level is 0.
  pub apply-IsValid : (a : Adsr F) (c : Call F) → IsValid ops a → IsValid ops (apply ops a c)
  unfolding apply
  apply-IsValid a process_call h =
      unfold process in
      record {
        level_in_range = clamp-InRange (advance ops a.state a).current_level;
        sustain_in_range =
            subst (InRange ops) (sym (advance-sustain_level a.state a)) h.sustain_in_range;
        silent = λ k. rw (advance-silent a.state a refl h k) clamp-zero;
      }
  apply-IsValid a note_on_call h =
      unfold note_on in
      record {
        level_in_range = h.level_in_range;
        sustain_in_range = h.sustain_in_range;
        silent = λ k. (cc);
      }
  apply-IsValid a note_off_call h =
      unfold note_off in
      elim (Bool-cases (is_active a)) [
        | inl e ↦ rw e (record {
          level_in_range = h.level_in_range;
          sustain_in_range = h.sustain_in_range;
          silent = λ k. (cc);
        })
        | inr e ↦ rw e h
      ]
  apply-IsValid a reset_call h =
      unfold reset in
      record {
        level_in_range = b.zero_in_range;
        sustain_in_range = h.sustain_in_range;
        silent = λ k. refl;
      }
  apply-IsValid a (parameters_call w x y z) h =
      unfold set_parameters in
      record {
        level_in_range = h.level_in_range;
        sustain_in_range = clamp-InRange y;
        silent = h.silent;
      }
  apply-IsValid a (all_parameters_call w x y z p q r) h =
      unfold set_all_parameters in
      record {
        level_in_range = h.level_in_range;
        sustain_in_range = clamp-InRange y;
        silent = h.silent;
      }
  apply-IsValid a (curves_call p q r) h =
      unfold set_curves in
      record {
        level_in_range = h.level_in_range;
        sustain_in_range = h.sustain_in_range;
        silent = h.silent;
      }
  apply-IsValid a (attack_call x) h =
      unfold set_attack in
      record {
        level_in_range = h.level_in_range;
        sustain_in_range = h.sustain_in_range;
        silent = h.silent;
      }
  apply-IsValid a (decay_call x) h =
      unfold set_decay in
      record {
        level_in_range = h.level_in_range;
        sustain_in_range = h.sustain_in_range;
        silent = h.silent;
      }
  apply-IsValid a (sustain_call x) h =
      unfold set_sustain in
      record {
        level_in_range = h.level_in_range;
        sustain_in_range = clamp-InRange x;
        silent = h.silent;
      }
  apply-IsValid a (release_call x) h =
      unfold set_release in
      record {
        level_in_range = h.level_in_range;
        sustain_in_range = h.sustain_in_range;
        silent = h.silent;
      }
  apply-IsValid a (attack_curve_call x) h =
      unfold set_attack_curve in
      record {
        level_in_range = h.level_in_range;
        sustain_in_range = h.sustain_in_range;
        silent = h.silent;
      }
  apply-IsValid a (decay_curve_call x) h =
      unfold set_decay_curve in
      record {
        level_in_range = h.level_in_range;
        sustain_in_range = h.sustain_in_range;
        silent = h.silent;
      }
  apply-IsValid a (release_curve_call x) h =
      unfold set_release_curve in
      record {
        level_in_range = h.level_in_range;
        sustain_in_range = h.sustain_in_range;
        silent = h.silent;
      }
  apply-IsValid a (sample_rate_call x) h =
      unfold set_sample_rate in
      record {
        level_in_range = h.level_in_range;
        sustain_in_range = h.sustain_in_range;
        silent = h.silent;
      }

  idle-process : (a : Adsr F) → IsValid ops a → a.state ≡ idle → process ops a ≡ a
  unfolding process advance
  idle-process a h e = rw e (ground (arith, h.silent e, clamp-zero))

  -- A valid idle envelope is left as it is by any number of samples.
  pub idle_stays : (n : ℕ) (a : Adsr F) → IsValid ops a → a.state ≡ idle → run ops n a ≡ a
  unfolding run
  idle_stays zero a h e = refl
  idle_stays (suc n) a h e = ap (run ops n) (idle-process a h e) ∙ idle_stays n a h e
